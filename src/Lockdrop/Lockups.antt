-- ===== src/Lockdrop/Lockups.antt =====
-- `handle_increase_lockup` and `handle_withdraw_from_lockup` of contracts/lockdrop/src/contract.rs.
use neutron_tge_contracts.Prelude.{
  ℕ, ◌+◌, Bool, true, false, ◌||◌, Option, none, some, List, [], ◌∷◌, ltb, leb, ◌==◌, if◌then◌else◌,
  unwrap_or,
}
use neutron_tge_contracts.Prelude.Map.{lookup, insert}
use neutron_tge_contracts.Prelude.Result.{
  Result, ok, ◌>>=◌, ◌>>◌, ensure, reject_if, ok_or, bounded_by, add_u64, checked_add, checked_sub,
  u256_max,
}
use neutron_tge_contracts.Cosmwasm.{Addr, Cosmwasm, MessageInfo, Env}
use neutron_tge_contracts.Auction.Types.{PoolType}
use neutron_tge_contracts.Lockdrop.Types.{
  LockupRewardsInfo, Config, PoolInfo, UserInfo, LockupInfoV2, PoolData, Store, LockdropError,
  Outcome, std_error, overflow, panicked, unauthorized, lock_window_closed, invalid_duration,
  bad_lockup_duration, too_many_positions, withdrawal_window_closed, invalid_withdrawal,
  already_withdrawn, exceeds_limit,
}
use neutron_tge_contracts.Lockdrop.Chain.{Chain, Astroport}
use neutron_tge_contracts.Lockdrop.Storage.{
  pool_of, set_pool, load_pool_info, save_position, remove_position, updated_total, compatible_load,
  compatible_may_load,
}
use neutron_tge_contracts.Lockdrop.Amounts.{
  lock_end, windows_end, calculate_weight, calculate_max_withdrawal_percent_allowed, max_withdrawal,
}

-- `UserInfo::default()`
abbrev pub no_user : UserInfo
no_user = record { total_ntrn_rewards = 0; ntrn_transferred = false; lockup_positions_index = 0 }

abbrev pub load_user : Addr → Store → UserInfo
load_user user s = unwrap_or no_user (lookup user s.users)

unfoldable pub has_duration : ℕ → List LockupRewardsInfo → Bool
has_duration duration [] = false
has_duration duration (info ∷ rest) =
    if info.duration == duration then true else has_duration duration rest

-- The pool's amounts after an increase.
unfoldable pub add_to_pool : ℕ → ℕ → Config → PoolInfo → Result LockdropError PoolInfo
add_to_pool amount duration config info = do
  weight ← calculate_weight amount duration config
  weighted ← bounded_by u256_max overflow (info.weighted_amount + weight)
  locked ← checked_add overflow info.amount_in_lockups amount
  ok (record info { weighted_amount = weighted; amount_in_lockups = locked })

unfoldable pub unlock_timestamp_of : ℕ → Config → Result LockdropError ℕ
unlock_timestamp_of duration config = do
  locked ← lock_end config
  lasted ← add_u64 panicked locked duration
  add_u64 panicked lasted config.withdrawal_window

-- The position after an increase, and the number of the user's positions (a `u32`).
unfoldable pub increased :
    Option LockupInfoV2 → ℕ → ℕ → Config → UserInfo → Result LockdropError (LockupInfoV2 × UserInfo)
increased (some info) amount duration config user_info = do
  units ← checked_add overflow info.lp_units_locked amount
  ok (record info { lp_units_locked = units }, user_info)
increased none amount duration config user_info = do
  reject_if (config.max_positions_per_user == user_info.lockup_positions_index) too_many_positions
  index ← bounded_by 4294967295 panicked (user_info.lockup_positions_index + 1)
  unlock ← unlock_timestamp_of duration config
  ok (
    record {
      lp_units_locked = amount;
      astroport_lp_transferred = none;
      withdrawal_flag = false;
      ntrn_rewards = 0;
      generator_ntrn_debt = 0;
      generator_proxy_debt = [];
      unlock_timestamp = unlock;
    },
    record user_info { lockup_positions_index = index },
  )

module _ (cw : Cosmwasm) (chain : Chain) (astroport : Astroport) where
  -- The change of the storage that follows the checks of `handle_increase_lockup`.
  unfoldable pub add_to_lockup : PoolType → Addr → ℕ → ℕ → Store → Outcome
  add_to_lockup pool_type user duration amount s = do
    let p = pool_of pool_type s
    pool_info ← load_pool_info p
    reject_if (ltb s.config.max_lock_duration duration || ltb duration s.config.min_lock_duration)
        bad_lockup_duration
    pool_info' ← add_to_pool amount duration s.config pool_info
    found ← compatible_may_load chain astroport p user duration s.config.generator
    (info, user_info) ← increased found amount duration s.config (load_user user s)
    total ← updated_total (lookup user p.user_totals) amount (λ la. checked_add overflow la amount)
    ok (
      set_pool pool_type
          (record {
            pool_info = some pool_info';
            lockups = save_position user duration info p.lockups;
            user_totals = insert user total p.user_totals;
          })
          (record s { users = insert user user_info s.users }),
      [],
    )

  unfoldable pub handle_increase_lockup : Env → MessageInfo → ℕ → PoolType → ℕ → ℕ → Store → Outcome
  handle_increase_lockup env info user_address pool_type duration amount s = do
    ensure (info.sender == s.config.auction_contract) unauthorized
    locked ← lock_end s.config
    reject_if (leb locked env.time) lock_window_closed
    user ← ok_or std_error (cw.addr_validate user_address)
    ensure (has_duration duration s.config.lockup_rewards_info) invalid_duration
    add_to_lockup pool_type user duration amount s

  unfoldable pub taken_from_pool : ℕ → ℕ → Config → PoolInfo → Result LockdropError PoolInfo
  taken_from_pool amount duration config info = do
    weight ← calculate_weight amount duration config
    weighted ← checked_sub overflow info.weighted_amount weight
    locked ← checked_sub overflow info.amount_in_lockups amount
    ok (record info { weighted_amount = weighted; amount_in_lockups = locked })

  -- The pool and the users without an emptied position, or with the position that is left.
  unfoldable pub store_position :
      Addr → ℕ → LockupInfoV2 → PoolData → Store → Result LockdropError (PoolData × Store)
  store_position user duration info p s =
      if info.lp_units_locked == 0
      then (do
        index ← checked_sub panicked (load_user user s).lockup_positions_index 1
        ok (
          record p { lockups = remove_position user duration p.lockups },
          record s {
            users =
                insert user (record (load_user user s) { lockup_positions_index = index }) s.users;
          },
        ))
      else ok (record p { lockups = save_position user duration info p.lockups }, s)

  -- The change of the storage that follows the checks of `handle_withdraw_from_lockup`.
  unfoldable pub take_from_lockup :
      PoolType → Addr → ℕ → ℕ → PoolInfo → LockupInfoV2 → Bool → Store → Outcome
  take_from_lockup pool_type user duration amount pool_info info flag s = do
    units ← checked_sub overflow info.lp_units_locked amount
    pool_info' ← taken_from_pool amount duration s.config pool_info
    let left = record info { lp_units_locked = units; withdrawal_flag = flag }
    (p, s') ← store_position user duration left (pool_of pool_type s) s
    total ← updated_total (lookup user p.user_totals) 0 (λ la. checked_sub overflow la amount)
    ok (
      set_pool pool_type
          (record p { pool_info = some pool_info'; user_totals = insert user total p.user_totals })
          s',
      [],
    )

  unfoldable pub handle_withdraw_from_lockup :
      Env → MessageInfo → ℕ → PoolType → ℕ → ℕ → Store → Outcome
  handle_withdraw_from_lockup env info user_address pool_type duration amount s = do
    ensure (info.sender == s.config.auction_contract) unauthorized
    closed ← windows_end s.config
    reject_if (leb closed env.time) withdrawal_window_closed
    reject_if (amount == 0) invalid_withdrawal
    pool_info ← load_pool_info (pool_of pool_type s)
    user ← ok_or std_error (cw.addr_validate user_address)
    lockup ← compatible_load chain astroport (pool_of pool_type s) user duration s.config.generator
    reject_if lockup.withdrawal_flag already_withdrawn
    percent ← calculate_max_withdrawal_percent_allowed cw env.time s.config
    max_allowed ← max_withdrawal cw astroport lockup.lp_units_locked percent
    reject_if (ltb max_allowed amount) exceeds_limit
    locked ← lock_end s.config
    take_from_lockup pool_type user duration amount pool_info lockup
        (if leb locked env.time then true else lockup.withdrawal_flag) s
