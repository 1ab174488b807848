-- ===== src/Lockdrop/Migration.antt =====
-- The migration of positions to the PCL lockdrop: `handle_migrate_liquidity_to_pcl_pools` and its
-- four callbacks, of contracts/lockdrop/src/contract.rs.
use neutron_tge_contracts.Prelude.{
  ℕ, Option, none, some, List, [], ◌∷◌, ◌++◌, ◌==◌, if◌then◌else◌, is_some, map,
}
use neutron_tge_contracts.Prelude.Map.{lookup, insert}
use neutron_tge_contracts.Prelude.Result.{Result, ok, err, ◌>>=◌, ok_or, checked_sub}
use neutron_tge_contracts.Cosmwasm.{Addr, Denom, Cosmwasm, MessageInfo, Env}
use neutron_tge_contracts.Vesting.Types.{AssetInfo, token, native_token}
use neutron_tge_contracts.Auction.Types.{PoolType}
use neutron_tge_contracts.Lockdrop.Types.{
  Asset, Store, LockdropError, generator_withdraw, withdraw_liquidity, migrate_xyk_liquidity,
  callback, init_migrate_lockup, transfer_all_rewards_before_migration, withdraw_user_lockup,
  migrate_user_lockup_to_pcl_pair, Outcome, std_error, panicked, query_failed, generator_not_set,
  no_second_leg,
}
use neutron_tge_contracts.Lockdrop.Chain.{Chain, Astroport}
use neutron_tge_contracts.Lockdrop.Storage.{pool_of, load_pool_info, compatible_load}
use neutron_tge_contracts.Lockdrop.Rewards.{user_keys}
use neutron_tge_contracts.Lockdrop.Lockups.{load_user}
use neutron_tge_contracts.Lockdrop.Staking.{
  send_if, claim_messages, position_lp_amount, settle, send_assets, one_time_rewards,
}
use neutron_tge_contracts.Lockdrop.Queries.{query_lockup_info}
use neutron_tge_contracts.Lockdrop.Claim.{with_rewards, close_position}

abbrev pub user_of : Cosmwasm → Option ℕ → Addr → Result LockdropError Addr
user_of cw none sender = ok sender
user_of cw (some user_address) sender = ok_or std_error (cw.addr_validate user_address)

-- The first native coin of the pool that is not untrn.
abbrev pub paired_or : Denom → AssetInfo → Result LockdropError Denom → Result LockdropError Denom
paired_or untrn (token contract) later = later
paired_or untrn (native_token denom) later = if denom == untrn then later else ok denom

unfoldable pub paired_denom : Denom → List Asset → Result LockdropError Denom
paired_denom untrn [] = err no_second_leg
paired_denom untrn (asset ∷ rest) = paired_or untrn asset.asset_info (paired_denom untrn rest)

module _ (cw : Cosmwasm) (chain : Chain) (astroport : Astroport) where
  unfoldable pub handle_migrate_liquidity_to_pcl_pools :
      Env → MessageInfo → Option ℕ → Store → Outcome
  handle_migrate_liquidity_to_pcl_pools env info user_address s = do
    user ← user_of cw user_address info.sender
    old_info ← ok_or std_error (lookup user s.users)
    (user_info, s1) ← with_rewards cw chain astroport user old_info s
    let saved = record s1 { users = insert user user_info s1.users }
    let s2 = if old_info.total_ntrn_rewards == 0 then saved else s
    ok (
      s2,
      map (λ (key : PoolType × ℕ). callback env.contract (init_migrate_lockup key.0 user key.1))
          (user_keys user s2),
    )

  unfoldable pub callback_init_migrate_lockup_to_pcl_pools :
      Env → PoolType → Addr → ℕ → Store → Outcome
  callback_init_migrate_lockup_to_pcl_pools env pool_type user duration s = do
    lockup ← query_lockup_info cw chain astroport user pool_type duration s
    if is_some lockup.astroport_lp_transferred then ok (s, []) else (do
      pool_info ← load_pool_info (pool_of pool_type s)
      generator ← ok_or generator_not_set s.config.generator
      claims ← claim_messages cw chain astroport env pool_type generator pool_info.lp_token
      ok (
        s,
        claims
            ++ callback env.contract (transfer_all_rewards_before_migration pool_type user duration)
              ∷ [],
      ))

  -- The code keeps the new debts of the position in a variable and does not save them.
  unfoldable pub callback_transfer_all_rewards : Denom → Env → PoolType → Addr → ℕ → Store → Outcome
  callback_transfer_all_rewards untrn env pool_type user duration s = do
    pool_info ← load_pool_info (pool_of pool_type s)
    info ← compatible_load chain astroport (pool_of pool_type s) user duration s.config.generator
    generator ← ok_or generator_not_set s.config.generator
    lp_amount ← position_lp_amount cw chain astroport generator pool_info info env
    denom ← ok_or query_failed (chain.base_reward_token generator pool_info.lp_token)
    (_, (due, rewards)) ← settle cw chain astroport pool_info lp_amount info
    (s1, one_time) ← one_time_rewards cw chain astroport untrn user (load_user user s) s
    ok (
      s1,
      send_if user denom due
          ++ send_assets cw chain astroport user rewards
          ++ one_time
          ++ callback env.contract
              (withdraw_user_lockup pool_type user duration generator pool_info.lp_token lp_amount)
            ∷ [],
    )

  unfoldable pub callback_withdraw_user_lockup :
      Denom → Env → PoolType → Addr → ℕ → Addr → Addr → ℕ → Store → Outcome
  callback_withdraw_user_lockup untrn env pool_type user duration generator lp_token lp_amount s =
      do
        pool ← ok_or query_failed (chain.minter lp_token)
        assets ← ok_or query_failed (chain.pool_assets pool)
        paired ← paired_denom untrn assets
        ntrn_balance ← ok_or query_failed (chain.bank_balance untrn)
        paired_balance ← ok_or query_failed (chain.bank_balance paired)
        info ←
            compatible_load chain astroport (pool_of pool_type s) user duration s.config.generator
        pool_info ← load_pool_info (pool_of pool_type s)
        s1 ← close_position pool_type user duration lp_amount pool_info info s
        ok (
          s1,
          generator_withdraw generator lp_token lp_amount
              ∷ withdraw_liquidity lp_token pool lp_amount
              ∷ callback env.contract (
                  migrate_user_lockup_to_pcl_pair pool_type user duration ntrn_balance paired
                    paired_balance)
              ∷ [],
        )

  unfoldable pub callback_migrate_user_lockup_to_pcl_pair :
      Denom → PoolType → Addr → ℕ → ℕ → Denom → ℕ → Store → Outcome
  callback_migrate_user_lockup_to_pcl_pair untrn pool_type user duration ntrn_balance paired
        paired_balance s =
      do
        info ←
            compatible_load chain astroport (pool_of pool_type s) user duration s.config.generator
        ntrn_now ← ok_or query_failed (chain.bank_balance untrn)
        ntrn_withdrawn ← checked_sub panicked ntrn_now ntrn_balance
        paired_now ← ok_or query_failed (chain.bank_balance paired)
        paired_withdrawn ← checked_sub panicked paired_now paired_balance
        pcl_lockdrop ← ok_or std_error s.pcl_lockdrop
        pool_info ← load_pool_info (pool_of pool_type s)
        generator ← ok_or generator_not_set s.config.generator
        staked ← ok_or query_failed (chain.generator_deposit generator pool_info.lp_token)
        ok (
          s,
          migrate_xyk_liquidity pcl_lockdrop ntrn_withdrawn paired paired_withdrawn pool_type user
                duration (load_user user s) info (staked == 0)
              ∷ [],
        )
