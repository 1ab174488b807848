-- ===== src/Lockdrop/Staking.antt =====
-- The rewards of the generator: the claim messages of `handle_claim_rewards_and_unlock_for_lockup`
-- and `callback_init_migrate_lockup_to_pcl_pools`, `update_pool_on_dual_rewards_claim`, and the
-- part of the callbacks that pays rewards, of contracts/lockdrop/src/contract.rs.
use neutron_tge_contracts.Prelude.{
  ℕ, Bool, true, false, not, ◌||◌, some, List, [], ◌∷◌, ◌++◌, ltb, ◌==◌, if◌then◌else◌, unwrap_or,
  min, map,
}
use neutron_tge_contracts.Prelude.Map.{insert}
use neutron_tge_contracts.Prelude.Result.{Result, ok, ◌>>=◌, ok_or, checked_add, checked_sub}
use neutron_tge_contracts.Cosmwasm.{Addr, Denom, Cosmwasm, Env}
use neutron_tge_contracts.Auction.Types.{PoolType}
use neutron_tge_contracts.Lockdrop.Types.{
  Asset, AssetAmounts, PoolInfo, UserInfo, LockupInfoV2, Store, LockdropError, Msg, bank_send,
  asset_send, generator_claim, burn_from, callback, update_pool_on_dual_rewards_claim, Outcome,
  std_error, overflow, panicked, query_failed, generator_not_set,
}
use neutron_tge_contracts.Lockdrop.Chain.{Chain, Astroport}
use neutron_tge_contracts.Lockdrop.Storage.{pool_of, set_pool, load_pool_info}
use neutron_tge_contracts.Lockdrop.Amounts.{lp_share, rewards_for}

abbrev pub some_amount : List Asset → Bool
some_amount [] = false
some_amount (asset ∷ rest) = not (asset.amount == 0) || some_amount rest

-- A bank transfer, if there is something to transfer.
abbrev pub send_if : Addr → Denom → ℕ → List Msg
send_if user denom amount = if ltb 0 amount then bank_send user denom amount ∷ [] else []

module _ (cw : Cosmwasm) (chain : Chain) (astroport : Astroport) where
  -- The balances before a claim; a query that fails counts as 0.
  abbrev pub balances_before : List Asset → List Asset
  balances_before = map (λ (asset : Asset). record {
    asset_info = asset.asset_info;
    amount = unwrap_or 0 (chain.asset_balance asset.asset_info);
  })

  -- If the generator owes rewards: the claim, and the callback that books them.
  unfoldable pub claim_messages : Env → PoolType → Addr → Addr → Result LockdropError (List Msg)
  claim_messages env pool_type generator lp_token = do
    pending ← ok_or query_failed (chain.pending_tokens generator lp_token)
    let on_proxy = unwrap_or [] pending.pending_on_proxy
    if not (pending.pending == 0) || some_amount on_proxy
        then (do
          denom ← ok_or query_failed (chain.base_reward_token generator lp_token)
          balance ← ok_or query_failed (chain.bank_balance denom)
          ok (
              generator_claim generator lp_token
              ∷ callback env.contract
                  (update_pool_on_dual_rewards_claim pool_type balance (balances_before on_proxy))
              ∷ []))
        else ok []

  -- The loop over the proxy rewards: what came in, per LP token.
  unfoldable pub add_proxy_rewards :
      ℕ → List Asset → AssetAmounts → Result LockdropError AssetAmounts
  add_proxy_rewards lp_balance [] shares = ok shares
  add_proxy_rewards lp_balance (prev ∷ rest) shares = do
    current ← ok_or query_failed (chain.asset_balance prev.asset_info)
    received ← checked_sub overflow current prev.amount
    share ← ok_or panicked (cw.from_ratio received lp_balance)
    (next, _) ← ok_or overflow (astroport.update prev.asset_info share shares)
    add_proxy_rewards lp_balance rest next

  unfoldable pub update_pool_on_rewards : PoolType → ℕ → List Asset → Store → Outcome
  update_pool_on_rewards pool_type prev_ntrn_balance prev_proxy_balances s = do
    let p = pool_of pool_type s
    pool_info ← load_pool_info p
    generator ← ok_or generator_not_set s.config.generator
    denom ← ok_or query_failed (chain.base_reward_token generator pool_info.lp_token)
    lp_balance ← ok_or query_failed (chain.generator_deposit generator pool_info.lp_token)
    balance ← ok_or query_failed (chain.bank_balance denom)
    received ← checked_sub overflow balance prev_ntrn_balance
    share ← ok_or panicked (cw.from_ratio received lp_balance)
    per_share ← checked_add overflow pool_info.generator_ntrn_per_share share
    proxy_shares ←
        add_proxy_rewards lp_balance prev_proxy_balances pool_info.generator_proxy_per_share
    ok (
      set_pool pool_type
          (record p {
            pool_info = some (record pool_info {
              generator_ntrn_per_share = per_share;
              generator_proxy_per_share = proxy_shares;
            });
          })
          s,
      [],
    )

  -- The LP tokens of a position: its part of those that the contract holds.
  unfoldable pub position_lp_amount : Addr → PoolInfo → LockupInfoV2 → Env → Result LockdropError ℕ
  position_lp_amount generator pool_info info env = do
    balance ← ok_or query_failed (
        if pool_info.is_staked
        then chain.generator_deposit generator pool_info.lp_token
        else chain.token_balance pool_info.lp_token env.contract)
    lp_share info.lp_units_locked balance pool_info.amount_in_lockups

  -- The proxy debts after a payment, and the rewards to pay.
  unfoldable pub proxy_rewards :
      PoolInfo → ℕ → AssetAmounts → Result LockdropError (AssetAmounts × List Asset)
  proxy_rewards pool_info lp_amount [] = ok ([], [])
  proxy_rewards pool_info lp_amount ((asset, debt) ∷ rest) = do
    total ← ok_or overflow (
        astroport.checked_mul_uint128
          (unwrap_or 0 (astroport.load asset pool_info.generator_proxy_per_share)) lp_amount)
    due ← checked_sub overflow total debt
    (debts, rewards) ← proxy_rewards pool_info lp_amount rest
    ok (
      (asset, total) ∷ debts,
      if due == 0 then rewards else record { asset_info = asset; amount = due } ∷ rewards,
    )

  -- The position with its debts paid, the rewards due in the base token and by proxy.
  unfoldable pub settle :
      PoolInfo → ℕ → LockupInfoV2 → Result LockdropError (LockupInfoV2 × (ℕ × List Asset))
  settle pool_info lp_amount info = do
    total ← rewards_for cw astroport pool_info.generator_ntrn_per_share lp_amount
    due ← checked_sub overflow total info.generator_ntrn_debt
    (debts, rewards) ← proxy_rewards pool_info lp_amount info.generator_proxy_debt
    ok (record info { generator_ntrn_debt = total; generator_proxy_debt = debts }, (due, rewards))

  abbrev pub send_assets : Addr → List Asset → List Msg
  send_assets user = map (λ asset. asset_send asset user)

  unfoldable pub claim_airdrop_tokens_with_multiplier_msg :
      Addr → Addr → ℕ → Result LockdropError Msg
  claim_airdrop_tokens_with_multiplier_msg credits user ntrn_rewards = do
    unvested ← ok_or query_failed (chain.withdrawable_amount credits user)
    vested ← ok_or query_failed (chain.vested_amount credits user)
    multiplier ← ok_or std_error (cw.decimal_of 1)
    rewards ← ok_or panicked (astroport.to_decimal ntrn_rewards)
    scaled ← ok_or overflow (cw.checked_mul_decimal rewards multiplier)
    amount ← checked_add overflow (min vested (cw.floor_decimal scaled)) unvested
    ok (burn_from credits user amount)

  abbrev pub airdrop_messages : Addr → Addr → ℕ → ℕ → Result LockdropError (List Msg)
  airdrop_messages credits user ntrn_rewards balance =
      if ltb 0 balance
      then (do
        msg ← claim_airdrop_tokens_with_multiplier_msg credits user ntrn_rewards
        ok (msg ∷ []))
      else ok []

  -- The rewards that a user gets once, for all positions.
  unfoldable pub one_time_rewards :
      Denom → Addr → UserInfo → Store → Result LockdropError (Store × List Msg)
  one_time_rewards untrn user user_info s = if user_info.ntrn_transferred then ok (s, []) else (do
    balance ← ok_or query_failed (chain.token_balance s.config.credits_contract user)
    airdrop ← airdrop_messages s.config.credits_contract user user_info.total_ntrn_rewards balance
    ok (
      record s { users = insert user (record user_info { ntrn_transferred = true }) s.users },
      send_if user untrn user_info.total_ntrn_rewards ++ airdrop,
    ))
