-- ===== src/Lockdrop/Rewards.antt =====
-- `update_user_lockup_positions_and_calc_rewards` of contracts/lockdrop/src/contract.rs.
use neutron_tge_contracts.Prelude.{
  ℕ, Option, none, some, List, [], ◌∷◌, ◌++◌, map, ◌==◌, if◌then◌else◌,
}
use neutron_tge_contracts.Prelude.Result.{Result, ok, ◌>>=◌, checked_add}
use neutron_tge_contracts.Cosmwasm.{Addr, Cosmwasm}
use neutron_tge_contracts.Auction.Types.{PoolType, usdc, atom}
use neutron_tge_contracts.Lockdrop.Types.{
  PoolInfo, LockupInfoV2, PoolData, Store, LockdropError, overflow,
}
use neutron_tge_contracts.Lockdrop.Chain.{Chain, Astroport}
use neutron_tge_contracts.Lockdrop.Storage.{
  pool_of, set_pool, load_pool_info, positions_of, save_position, compatible_load,
}
use neutron_tge_contracts.Lockdrop.Amounts.{calculate_weight, calculate_astro_incentives_for_lockup}

-- The keys of `LOCKUP_INFO.prefix((pool_type, user))`, for the pools that there are.
abbrev pub durations_in : Addr → PoolData → List ℕ
durations_in user p = map (λ e. e.0) (positions_of user p.lockups)

abbrev pub keys_in : PoolType → Addr → PoolData → Option PoolInfo → List (PoolType × ℕ)
keys_in pool_type user p none = []
keys_in pool_type user p (some info) = map (λ duration. (pool_type, duration)) (durations_in user p)

-- All keys of a user: `atom` is before `usdc`.
abbrev pub user_keys : Addr → Store → List (PoolType × ℕ)
user_keys user s =
    keys_in atom user s.atom_pool s.atom_pool.pool_info
    ++ keys_in usdc user s.usdc_pool s.usdc_pool.pool_info

module _ (cw : Cosmwasm) (chain : Chain) (astroport : Astroport) where
  -- The rewards of a position, which are found once.
  unfoldable pub position_rewards : Store → PoolInfo → ℕ → LockupInfoV2 → Result LockdropError ℕ
  position_rewards s pool_info duration info =
      if info.ntrn_rewards == 0
      then (do
        weighted ← calculate_weight info.lp_units_locked duration s.config
        calculate_astro_incentives_for_lockup cw weighted pool_info.weighted_amount
            pool_info.incentives_share s.total_incentives_share s.config.lockdrop_incentives)
      else ok info.ntrn_rewards

  -- One round of the loop. The code saves a position only if its rewards were 0.
  unfoldable pub update_position :
      Addr → PoolType → ℕ → ℕ → Store → Result LockdropError (ℕ × Store)
  update_position user pool_type duration total s = do
    let p = pool_of pool_type s
    pool_info ← load_pool_info p
    info ← compatible_load chain astroport p user duration s.config.generator
    rewards ← position_rewards s pool_info duration info
    let updated =
        set_pool pool_type
          (record p {
            lockups =
                save_position user duration (record info { ntrn_rewards = rewards }) p.lockups;
          })
          s
    next ← checked_add overflow total rewards
    ok (next, if info.ntrn_rewards == 0 then updated else s)

  unfoldable pub update_positions :
      Addr → List (PoolType × ℕ) → ℕ → Store → Result LockdropError (ℕ × Store)
  update_positions user [] total s = ok (total, s)
  update_positions user ((pool_type, duration) ∷ keys) total s = do
    (next, s') ← update_position user pool_type duration total s
    update_positions user keys next s'

  unfoldable pub update_user_lockup_positions_and_calc_rewards :
      Addr → Store → Result LockdropError (ℕ × Store)
  update_user_lockup_positions_and_calc_rewards user s =
      update_positions user (user_keys user s) 0 s
