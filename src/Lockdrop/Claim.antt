-- ===== src/Lockdrop/Claim.antt =====
-- `handle_claim_rewards_and_unlock_for_lockup` and
-- `callback_withdraw_user_rewards_for_lockup_optional_withdraw` of
-- contracts/lockdrop/src/contract.rs.
use neutron_tge_contracts.Prelude.{
  ℕ, Bool, true, false, not, ◌&&◌, some, List, [], ◌∷◌, ◌++◌, ltb, ◌==◌, if◌then◌else◌, is_some,
}
use neutron_tge_contracts.Prelude.Map.{lookup, insert}
use neutron_tge_contracts.Prelude.Result.{Result, ok, ◌>>=◌, ◌>>◌, reject_if, ok_or, checked_sub}
use neutron_tge_contracts.Cosmwasm.{Addr, Denom, Cosmwasm, MessageInfo, Env}
use neutron_tge_contracts.Auction.Types.{PoolType}
use neutron_tge_contracts.Lockdrop.Types.{
  Asset, PoolInfo, UserInfo, LockupInfoV2, Store, LockdropError, Msg, generator_withdraw,
  lp_transfer, callback, withdraw_user_lockup_rewards, Outcome, std_error, overflow, query_failed,
  windows_open, not_unlocked, already_claimed, no_rewards, generator_not_set,
}
use neutron_tge_contracts.Lockdrop.Chain.{Chain, Astroport}
use neutron_tge_contracts.Lockdrop.Storage.{
  pool_of, set_pool, load_pool_info, save_position, updated_total, compatible_load,
}
use neutron_tge_contracts.Lockdrop.Amounts.{windows_end}
use neutron_tge_contracts.Lockdrop.Rewards.{update_user_lockup_positions_and_calc_rewards}
use neutron_tge_contracts.Lockdrop.Lockups.{load_user}
use neutron_tge_contracts.Lockdrop.Staking.{
  send_if, claim_messages, position_lp_amount, settle, send_assets, one_time_rewards,
}

abbrev pub is_empty_assets : List Asset → Bool
is_empty_assets [] = true
is_empty_assets (asset ∷ rest) = false

-- The position is out of the pool: its units, and the LP tokens that it was worth.
unfoldable pub close_position :
    PoolType → Addr → ℕ → ℕ → PoolInfo → LockupInfoV2 → Store → Result LockdropError Store
close_position pool_type user duration lp_amount pool_info info s = do
  let p = pool_of pool_type s
  locked ← checked_sub overflow pool_info.amount_in_lockups info.lp_units_locked
  total ←
      updated_total (lookup user p.user_totals) 0
        (λ la. checked_sub overflow la info.lp_units_locked)
  ok (
      set_pool pool_type
        (record {
          pool_info = some (record pool_info { amount_in_lockups = locked });
          lockups =
              save_position user duration
                (record info { astroport_lp_transferred = some lp_amount }) p.lockups;
          user_totals = insert user total p.user_totals;
        })
        s)

-- The position with its new debts, in the pool.
abbrev pub keep_position : PoolType → Addr → ℕ → LockupInfoV2 → Store → Store
keep_position pool_type user duration info s =
    let p = pool_of pool_type s in
    set_pool pool_type (record p { lockups = save_position user duration info p.lockups }) s

module _ (cw : Cosmwasm) (chain : Chain) (astroport : Astroport) where
  -- The storage with the user's total of rewards, which is found once.
  unfoldable pub with_rewards : Addr → UserInfo → Store → Result LockdropError (UserInfo × Store)
  with_rewards user user_info s =
      if user_info.total_ntrn_rewards == 0
      then (do
        (total, s') ← update_user_lockup_positions_and_calc_rewards cw chain astroport user s
        ok (record user_info { total_ntrn_rewards = total }, s'))
      else ok (user_info, s)

  -- The messages that claim what the generator owes; an unstaked pool has no such rewards.
  unfoldable pub claims_of :
      Env → PoolType → PoolInfo → UserInfo → Bool → Store → Result LockdropError (List Msg)
  claims_of env pool_type pool_info user_info withdraw_lp_stake s =
      if pool_info.is_staked
      then (do
        generator ← ok_or generator_not_set s.config.generator
        claim_messages cw chain astroport env pool_type generator pool_info.lp_token)
      else (do reject_if (user_info.ntrn_transferred && not withdraw_lp_stake) no_rewards; ok [])

  unfoldable pub handle_claim_rewards_and_unlock_for_lockup :
      Env → MessageInfo → PoolType → ℕ → Bool → Store → Outcome
  handle_claim_rewards_and_unlock_for_lockup env info pool_type duration withdraw_lp_stake s = do
    closed ← windows_end s.config
    reject_if (ltb env.time closed) windows_open
    pool_info ← load_pool_info (pool_of pool_type s)
    old_info ← ok_or std_error (lookup info.sender s.users)
    (user_info, s1) ← with_rewards info.sender old_info s
    let s2 = record s1 { users = insert info.sender user_info s1.users }
    lockup ←
        compatible_load chain astroport (pool_of pool_type s2) info.sender duration
          s.config.generator
    reject_if (withdraw_lp_stake && ltb env.time lockup.unlock_timestamp) not_unlocked
    reject_if (is_some lockup.astroport_lp_transferred) already_claimed
    claims ← claims_of env pool_type pool_info user_info withdraw_lp_stake s2
    ok (
      s2,
      claims
          ++ callback env.contract
              (withdraw_user_lockup_rewards pool_type info.sender duration withdraw_lp_stake)
            ∷ [],
    )

  -- The staking rewards of the position: a call that would pay and change nothing is refused.
  unfoldable pub pay_staking_rewards :
      Addr
      → Addr
      → PoolInfo
      → ℕ
      → UserInfo
      → Bool
      → LockupInfoV2
      → Result LockdropError (LockupInfoV2 × List Msg)
  pay_staking_rewards generator user pool_info lp_amount user_info withdraw_lp_stake info =
      if pool_info.is_staked
      then (do
        denom ← ok_or query_failed (chain.base_reward_token generator pool_info.lp_token)
        (settled, (due, rewards)) ← settle cw chain astroport pool_info lp_amount info
        reject_if
            (not withdraw_lp_stake
              && user_info.ntrn_transferred
              && due == 0
              && is_empty_assets rewards)
            no_rewards
        ok (
          settled,
          send_if user denom due
              ++ send_assets cw chain astroport user rewards
              ++ (if withdraw_lp_stake
                  then generator_withdraw generator pool_info.lp_token lp_amount ∷ []
                  else []),
        ))
      else ok (info, [])

  unfoldable pub callback_withdraw_user_rewards :
      Denom → Env → PoolType → Addr → ℕ → Bool → Store → Outcome
  callback_withdraw_user_rewards untrn env pool_type user duration withdraw_lp_stake s = do
    pool_info ← load_pool_info (pool_of pool_type s)
    info ← compatible_load chain astroport (pool_of pool_type s) user duration s.config.generator
    generator ← ok_or generator_not_set s.config.generator
    lp_amount ← position_lp_amount cw chain astroport generator pool_info info env
    (settled, staking) ←
        pay_staking_rewards generator user pool_info lp_amount (load_user user s) withdraw_lp_stake
          info
    s1 ←
        (if withdraw_lp_stake
          then close_position pool_type user duration lp_amount pool_info settled s
          else ok (keep_position pool_type user duration settled s))
    (s2, rewards) ← one_time_rewards cw chain astroport untrn user (load_user user s) s1
    ok (
      s2,
      staking
          ++ (if withdraw_lp_stake then lp_transfer pool_info.lp_token user lp_amount ∷ [] else [])
          ++ rewards,
    )
