-- ===== src/Auction/Execute.antt =====
-- `execute` and `execute_callback` of contracts/auction/src/contract.rs.
use neutron_tge_contracts.Prelude.{ℕ, Option}
use neutron_tge_contracts.Cosmwasm.{Denom, Cosmwasm, MessageInfo, Env}
use neutron_tge_contracts.Auction.Types.{PoolType, PoolInfo, PoolBalance, Store, Outcome}
use neutron_tge_contracts.Auction.Admin.{
  UpdateConfigMsg, execute_update_config, execute_set_token_info,
}
use neutron_tge_contracts.Auction.Deposit.{execute_deposit, execute_withdraw}
use neutron_tge_contracts.Auction.Pool.{
  Querier, execute_set_pool_size, execute_init_pool, execute_finalize_init_pool,
}
use neutron_tge_contracts.Auction.Lock.{execute_lock_lp_tokens, execute_withdraw_lp_tokens}
use neutron_tge_contracts.Auction.Migrate.{execute_migrate_to_vesting}

pub data ExecuteMsg : Type 0 where
  update_config : UpdateConfigMsg → ExecuteMsg
  set_token_info : Option Denom → Option Denom → Option PoolInfo → ExecuteMsg
  deposit : ExecuteMsg
  withdraw : ℕ → ℕ → ExecuteMsg
  init_pool set_pool_size : ExecuteMsg
  lock_lp withdraw_lp : PoolType → ℕ → ℕ → ExecuteMsg
  migrate_to_vesting : ExecuteMsg
  finalize_pool_initialization : PoolBalance → ExecuteMsg

module _ (cw : Cosmwasm) (sqrt : ℕ → ℕ) where
  unfoldable pub execute : Querier → Env → MessageInfo → ExecuteMsg → Store → Outcome
  execute querier env info (update_config new_config) s = execute_update_config cw info new_config s
  execute querier env info (set_token_info usdc_denom atom_denom pool_info) s =
      execute_set_token_info cw info usdc_denom atom_denom pool_info s
  execute querier env info deposit s = execute_deposit env info s
  execute querier env info (withdraw amount_usdc amount_atom) s =
      execute_withdraw cw env info amount_usdc amount_atom s
  execute querier env info init_pool s = execute_init_pool querier env s
  execute querier env info set_pool_size s = execute_set_pool_size cw sqrt querier env s
  execute querier env info (lock_lp asset amount duration) s =
      execute_lock_lp_tokens cw env info asset amount duration s
  execute querier env info (withdraw_lp asset amount duration) s =
      execute_withdraw_lp_tokens env info asset amount duration s
  execute querier env info migrate_to_vesting s = execute_migrate_to_vesting cw env s
  execute querier env info (finalize_pool_initialization prev_lp_balance) s =
      execute_finalize_init_pool querier env info prev_lp_balance s
