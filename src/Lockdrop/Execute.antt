-- ===== src/Lockdrop/Execute.antt =====
-- `execute` and `_handle_callback` of contracts/lockdrop/src/contract.rs.
use neutron_tge_contracts.Prelude.{ℕ, Bool, Option, none, some, [], ◌==◌}
use neutron_tge_contracts.Prelude.Result.{ok, ◌>>=◌, ◌>>◌, ensure, ok_or}
use neutron_tge_contracts.Cosmwasm.{Denom, Cosmwasm, MessageInfo, Env}
use neutron_tge_contracts.Auction.Types.{PoolType}
use neutron_tge_contracts.Lockdrop.Types.{
  Store, CallbackMsg, update_pool_on_dual_rewards_claim, withdraw_user_lockup_rewards,
  init_migrate_lockup, transfer_all_rewards_before_migration, withdraw_user_lockup,
  migrate_user_lockup_to_pcl_pair, Outcome, std_error, callback_only,
}
use neutron_tge_contracts.Lockdrop.Chain.{Chain, Astroport, Ownership}
use neutron_tge_contracts.Lockdrop.Admin.{
  UpdateConfigMsg, Cw20ReceiveMsg, handle_update_config, handle_set_token_info,
  handle_increasing_ntrn_incentives, receive_cw20,
}
use neutron_tge_contracts.Lockdrop.Lockups.{handle_increase_lockup, handle_withdraw_from_lockup}
use neutron_tge_contracts.Lockdrop.Staking.{update_pool_on_rewards}
use neutron_tge_contracts.Lockdrop.Claim.{
  handle_claim_rewards_and_unlock_for_lockup, callback_withdraw_user_rewards,
}
use neutron_tge_contracts.Lockdrop.Migration.{
  handle_migrate_liquidity_to_pcl_pools, callback_init_migrate_lockup_to_pcl_pools,
  callback_transfer_all_rewards, callback_withdraw_user_lockup,
  callback_migrate_user_lockup_to_pcl_pair,
}

pub data ExecuteMsg : Type 0 where
  increase_lockup_for : ℕ → PoolType → ℕ → ℕ → ExecuteMsg
  receive : Cw20ReceiveMsg → ExecuteMsg
  increase_ntrn_incentives : ExecuteMsg
  update_config : UpdateConfigMsg → ExecuteMsg
  set_token_info : ℕ → ℕ → ℕ → ExecuteMsg
  withdraw_from_lockup : ℕ → PoolType → ℕ → ℕ → ExecuteMsg
  claim_rewards_and_optionally_unlock : PoolType → ℕ → Bool → ExecuteMsg
  callback_msg : CallbackMsg → ExecuteMsg
  propose_new_owner_msg : ℕ → ℕ → ExecuteMsg
  drop_ownership_proposal_msg claim_ownership_msg : ExecuteMsg
  migrate_liquidity_to_pcl_pools : Option ℕ → ExecuteMsg

module _ (cw : Cosmwasm) (chain : Chain) (astroport : Astroport) (ownership : Ownership)
    (untrn : Denom) where
  unfoldable pub callback_step : Env → CallbackMsg → Store → Outcome
  callback_step env (update_pool_on_dual_rewards_claim pool_type prev_ntrn_balance prev_proxy) s =
      update_pool_on_rewards cw chain astroport pool_type prev_ntrn_balance prev_proxy s
  callback_step env (withdraw_user_lockup_rewards pool_type user duration withdraw_lp_stake) s =
      callback_withdraw_user_rewards cw chain astroport untrn env pool_type user duration
        withdraw_lp_stake s
  callback_step env (init_migrate_lockup pool_type user duration) s =
      callback_init_migrate_lockup_to_pcl_pools cw chain astroport env pool_type user duration s
  callback_step env (transfer_all_rewards_before_migration pool_type user duration) s =
      callback_transfer_all_rewards cw chain astroport untrn env pool_type user duration s
  callback_step env (withdraw_user_lockup pool_type user duration generator lp_token lp_amount) s =
      callback_withdraw_user_lockup cw chain astroport untrn env pool_type user duration generator
        lp_token lp_amount s
  callback_step env
        (migrate_user_lockup_to_pcl_pair pool_type user duration ntrn_balance paired paired_balance)
        s =
      callback_migrate_user_lockup_to_pcl_pair cw chain astroport untrn pool_type user duration
        ntrn_balance paired paired_balance s

  unfoldable pub handle_callback : Env → MessageInfo → CallbackMsg → Store → Outcome
  handle_callback env info msg s = do
    ensure (info.sender == env.contract) callback_only
    callback_step env msg s

  unfoldable pub execute : Env → MessageInfo → ExecuteMsg → Store → Outcome
  execute env info (increase_lockup_for user pool_type amount duration) s =
      handle_increase_lockup cw chain astroport env info user pool_type duration amount s
  execute env info (receive msg) s = receive_cw20 cw env info msg s
  execute env info increase_ntrn_incentives s =
      handle_increasing_ntrn_incentives cw untrn env info s
  execute env info (update_config new_config) s = handle_update_config cw info new_config s
  execute env info (set_token_info atom_token usdc_token generator) s =
      handle_set_token_info cw info usdc_token atom_token generator s
  execute env info (withdraw_from_lockup user pool_type duration amount) s =
      handle_withdraw_from_lockup cw chain astroport env info user pool_type duration amount s
  execute env info (claim_rewards_and_optionally_unlock pool_type duration withdraw_lp_stake) s =
      handle_claim_rewards_and_unlock_for_lockup cw chain astroport env info pool_type duration
        withdraw_lp_stake s
  execute env info (callback_msg msg) s = handle_callback env info msg s
  execute env info (propose_new_owner_msg owner expires_in) s = do
    p ← ok_or std_error (ownership.propose_new_owner info env owner expires_in s.config.owner)
    ok (record s { ownership_proposal = some p }, [])
  execute env info drop_ownership_proposal_msg s = do
    _ ← ok_or std_error (ownership.drop_ownership_proposal info s.config.owner)
    ok (record s { ownership_proposal = none }, [])
  execute env info claim_ownership_msg s = do
    new_owner ← ok_or std_error (ownership.claim_ownership info env s.ownership_proposal)
    ok (
      record s { ownership_proposal = none; config = record (s.config) { owner = new_owner } },
      [],
    )
  execute env info (migrate_liquidity_to_pcl_pools user) s =
      handle_migrate_liquidity_to_pcl_pools cw chain astroport env info user s
