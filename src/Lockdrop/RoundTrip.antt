-- ===== src/Lockdrop/RoundTrip.antt =====
-- A new position and its withdrawal in the lock window leave the storage as it was.
pub mod Open
pub mod Removed
pub mod Take
use native.Mathlib.Nat.{mul-div_left}
use neutron_tge_contracts.Prelude.{
  ℕ, ◌+◌, ◌-◌, ◌*◌, ◌/◌, ◌≤◌, ◌<◌, ◌≡◌, refl, sym, ap, ◌∙◌, Bool, true, false, Option, none, some,
  List, [], arith, leb, ltb, ◌==◌, if◌then◌else◌, unwrap_or, Bool-cases, inl, inr,
}
use neutron_tge_contracts.Prelude.Map.{Map, lookup, insert, erase, lookup-insert, erase-insert}
use neutron_tge_contracts.Prelude.Result.{
  Result, ok, err, ◌>>=◌, ok_or-eq-ok, Ensures, Ensures-bind, Ensures-mono, Ensures-pure, Yields,
  Yields-bind, Yields-pure, u128_max,
}
use neutron_tge_contracts.Cosmwasm.{Addr, Cosmwasm, IsExact, MessageInfo, Env, decimal_one}
use neutron_tge_contracts.Auction.Types.{PoolType, usdc, atom}
use neutron_tge_contracts.Lockdrop.Types.{
  Config, PoolInfo, UserInfo, LockupInfoV2, StoredLockup, v2, PoolData, Store, Msg, std_error,
}
use neutron_tge_contracts.Lockdrop.Chain.{Chain, Astroport, IsAstroport}
use neutron_tge_contracts.Lockdrop.Storage.{
  pool_of, set_pool, load_pool_info, positions_of, position, upgrade, compatible_load,
  compatible_found, compatible_may_load, remove_position, updated_total,
}
use neutron_tge_contracts.Lockdrop.Amounts.{
  calculate_weight, calculate_max_withdrawal_percent_allowed, max_withdrawal,
}
use neutron_tge_contracts.Lockdrop.Lockups.{
  load_user, add_to_pool, increased, add_to_lockup, handle_increase_lockup, taken_from_pool,
  store_position, take_from_lockup, handle_withdraw_from_lockup,
}
use neutron_tge_contracts.Lockdrop.Totals.Lockups.{added_total}
use neutron_tge_contracts.Lockdrop.Totals.{total_of}
use neutron_tge_contracts.Lockdrop.Limits.{
  locked_at, closed_at, HasWindows, max_percent_at, max_percent_lem, windows_end_lem, lock_end_lem,
}
use neutron_tge_contracts.Lockdrop.Limits.Stored.{
  pool_of-set_pool, config-set_pool, position-insert,
}
use neutron_tge_contracts.Lockdrop.RoundTrip.Open.{
  new_position, grown_pool, opened_pool, opened_user, opened, Opens, add_to_lockup-Opens,
}
use neutron_tge_contracts.Lockdrop.RoundTrip.Removed.{IsRestored}
use neutron_tge_contracts.Lockdrop.RoundTrip.Take.{after-pool_of, after-config, take-IsRestored}

abbrev OpensFor : Cosmwasm → ℕ → PoolType → ℕ → ℕ → Store → Store × List Msg → Type 0
OpensFor cw user_address pool_type duration amount s r =
    (user : Addr) × (cw.addr_validate user_address ≡ some user)
    × (position user duration (pool_of pool_type s).lockups ≡ none)
    × Opens cw pool_type user duration amount s r

increase-OpensFor :
    (cw : Cosmwasm) (chain : Chain) (astroport : Astroport) (env : Env) (info : MessageInfo)
    (user_address : ℕ) (pool_type : PoolType) (duration amount : ℕ) (s : Store)
    → ((user : Addr)
        → cw.addr_validate user_address ≡ some user
        → position user duration (pool_of pool_type s).lockups ≡ none)
    → Ensures (OpensFor cw user_address pool_type duration amount s) (
        handle_increase_lockup cw chain astroport env info user_address pool_type duration amount s)
unfolding handle_increase_lockup
increase-OpensFor cw chain astroport env info user_address pool_type duration amount s new =
    Ensures-bind λ _ _. Ensures-bind λ _ _. Ensures-bind λ _ _. Ensures-bind λ user valid.
      Ensures-bind λ _ _.
        let known = ok_or-eq-ok std_error (cw.addr_validate user_address) valid in
        Ensures-mono (λ r opens. (user, known, new user known, opens))
          (add_to_lockup-Opens cw chain astroport pool_type user duration amount s (new user known))

module _ (cw : Cosmwasm) (exact : IsExact cw) (astroport : Astroport)
    (is_astroport : IsAstroport astroport) where
  all_allowed :
      (now : ℕ) (config : Config)
      → HasWindows config
      → now < locked_at config
      → calculate_max_withdrawal_percent_allowed cw now config ≡ ok decimal_one
  unfolding max_percent_at
  all_allowed now config range early =
      let all : max_percent_at now config ≡ decimal_one = ground (arith, early) in
      max_percent_lem cw exact now config range ∙ ap ok all

  all_withdrawn :
      (amount : ℕ)
      → amount * decimal_one ≤ u128_max
      → max_withdrawal cw astroport amount decimal_one ≡ ok amount
  unfolding max_withdrawal ◌>>=◌
  all_withdrawn amount fits =
      let whole : amount * decimal_one * decimal_one / decimal_one ≡ amount * decimal_one =
        mul-div_left (amount * decimal_one) (ground arith) in
      let units : amount * decimal_one / decimal_one ≡ amount =
        mul-div_left amount (ground arith) in
      let in_range : amount * decimal_one * decimal_one / decimal_one ≤ u128_max = rw whole fits in
      rw
        (
          is_astroport.to_decimal_total amount fits,
          exact.checked_mul_decimal_total (amount * decimal_one) decimal_one in_range,
          exact.floor_decimal_floor (amount * decimal_one * decimal_one / decimal_one),
          whole,
          units,
        )
        refl

  -- The withdrawal of the whole of a new position.
  withdraw-IsRestored :
      (chain : Chain) (later : Env) (again : MessageInfo) (user_address : ℕ) (pool_type : PoolType)
      (user duration amount weight unlock total : ℕ) (pool_info : PoolInfo) (s : Store)
      → HasWindows s.config
      → later.time < locked_at s.config
      → again.sender ≡ s.config.auction_contract
      → 0 < amount
      → amount * decimal_one ≤ u128_max
      → cw.addr_validate user_address ≡ some user
      → position user duration (pool_of pool_type s).lockups ≡ none
      → (pool_of pool_type s).pool_info ≡ some pool_info
      → calculate_weight amount duration s.config ≡ ok weight
      → total ≡ total_of user (pool_of pool_type s).user_totals + amount
      → Yields (IsRestored pool_type s) (
          handle_withdraw_from_lockup cw chain astroport later again user_address pool_type duration
            amount
            (opened pool_type user duration amount weight unlock total pool_info s))
  unfolding handle_withdraw_from_lockup compatible_load upgrade ◌>>=◌
  withdraw-IsRestored chain later again user_address pool_type user duration amount weight unlock
        total pool_info s range early by_auction positive fits valid new loaded weighed summed =
      let o = opened pool_type user duration amount weight unlock total pool_info s in
      let config : o.config ≡ s.config =
        after-config cw chain astroport pool_type user duration amount weight unlock total pool_info
          s new loaded weighed summed in
      let pool =
        after-pool_of cw chain astroport pool_type user duration amount weight unlock total
          pool_info s new loaded weighed summed in
      let is_sender : (again.sender == s.config.auction_contract) ≡ true =
        ground (arith, by_auction) in
      let open_still : leb (closed_at s.config) later.time ≡ false = ground (arith, early) in
      let some_asked : (amount == 0) ≡ false = ground (arith, positive) in
      let found =
        position-insert user duration (new_position amount unlock)
          (positions_of user (pool_of pool_type s).lockups) (pool_of pool_type s).lockups in
      let enough : ltb amount amount ≡ false = ground arith in
      let unlocked : leb (locked_at s.config) later.time ≡ false = ground (arith, early) in
      rw
        (
          config,
          is_sender,
          windows_end_lem s.config range,
          open_still,
          some_asked,
          pool,
          valid,
          found,
          all_allowed later.time s.config range early,
          all_withdrawn amount fits,
          enough,
          lock_end_lem s.config range,
          unlocked,
        )
        (take-IsRestored cw chain astroport pool_type user duration amount weight unlock total
          pool_info s new loaded weighed summed)

  -- If the windows are in range: after an increase that opens a position of `amount`, a withdrawal
  -- of the same amount that the auction asks for before the end of the lock window succeeds, sends
  -- nothing, and gives back the pool, the positions and totals of all users in it, the users and
  -- the configuration as they were before the increase. The amount is not 0, and no more than a
  -- decimal can hold.
  pub increase-withdraw :
      (chain chain' : Chain) (env later : Env) (info again : MessageInfo) (user_address : ℕ)
      (pool_type : PoolType) (duration amount : ℕ) (s : Store) (r : Store × List Msg)
      → HasWindows s.config
      → later.time < locked_at s.config
      → again.sender ≡ s.config.auction_contract
      → 0 < amount
      → amount * decimal_one ≤ u128_max
      → ((user : Addr)
          → cw.addr_validate user_address ≡ some user
          → position user duration (pool_of pool_type s).lockups ≡ none)
      → handle_increase_lockup cw chain astroport env info user_address pool_type duration amount s
        ≡ ok r
      → Yields (IsRestored pool_type s) (
          handle_withdraw_from_lockup cw chain' astroport later again user_address pool_type
            duration amount r.0)
  increase-withdraw chain chain' env later info again user_address pool_type duration amount s r
        range early by_auction positive fits new h =
      let (user, valid, is_new, o) =
        (increase-OpensFor cw chain astroport env info user_address pool_type duration amount s
            new).holds
          r h in
      rw o.left (
        withdraw-IsRestored chain' later again user_address pool_type user duration amount o.weight
          o.unlock o.total o.info s range early by_auction positive fits valid is_new o.loaded
          o.weighed o.summed)
