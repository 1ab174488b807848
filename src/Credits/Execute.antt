-- ===== src/Credits/Execute.antt =====
-- `execute`, and the queries on an allocation, of contracts/credits/src/contract.rs.
use neutron_tge_contracts.Prelude.{ℕ, min}
use neutron_tge_contracts.Prelude.Map.{lookup}
use neutron_tge_contracts.Prelude.Result.{Result, ok, ◌>>=◌, ok_or, checked_sub}
use neutron_tge_contracts.Cosmwasm.{Denom, Cosmwasm, MessageInfo, Env}
use neutron_tge_contracts.Credits.Types.{
  Allocation, CreditsError, ExecuteMsg, update_config, add_vesting, transfer, withdraw, burn,
  burn_from, mint, Store, Outcome, std_error, panicked,
}
use neutron_tge_contracts.Credits.Token.{Cw20}
use neutron_tge_contracts.Credits.Schedules.{compute_withdrawable_amount}
use neutron_tge_contracts.Credits.Handlers.{
  execute_update_config, execute_add_vesting, execute_transfer, execute_withdraw, execute_burn,
  execute_burn_from, execute_mint,
}

module _ {Token : Type 0} (cw : Cosmwasm) (cw20 : Cw20 Token) (untrn : Denom) where
  unfoldable pub execute : Env → MessageInfo → ExecuteMsg → Store Token → Outcome Token
  execute env info (update_config config) s = execute_update_config cw cw20 untrn info config s
  execute env info (add_vesting address amount start_time duration) s =
      execute_add_vesting cw cw20 untrn info address amount start_time duration s
  execute env info (transfer recipient amount) s =
      execute_transfer cw cw20 untrn info recipient amount s
  execute env info withdraw s = execute_withdraw cw cw20 untrn env info s
  execute env info (burn amount) s = execute_burn cw cw20 untrn info amount s
  execute env info (burn_from owner amount) s = execute_burn_from cw cw20 untrn info owner amount s
  execute env info mint s = execute_mint cw cw20 untrn info s

  -- What can be withdrawn by the schedule, and what of it the balance covers.
  unfoldable pub query_withdrawable_amount : Env → ℕ → Store Token → Result CreditsError ℕ
  query_withdrawable_amount env address s = do
    owner ← ok_or std_error (cw.addr_validate address)
    allocation ← ok_or std_error (lookup owner s.allocations)
    max_amount ←
        compute_withdrawable_amount cw allocation.allocated_amount allocation.withdrawn_amount
          allocation.schedule env.time
    actual_balance ← ok_or std_error (cw20.balance s.token owner)
    ok (min max_amount actual_balance)

  unfoldable pub query_vested_amount : Env → ℕ → Store Token → Result CreditsError ℕ
  query_vested_amount env address s = do
    owner ← ok_or std_error (cw.addr_validate address)
    allocation ← ok_or std_error (lookup owner s.allocations)
    max_amount ←
        compute_withdrawable_amount cw allocation.allocated_amount allocation.withdrawn_amount
          allocation.schedule env.time
    actual_balance ← ok_or std_error (cw20.balance s.token owner)
    checked_sub panicked actual_balance (min max_amount actual_balance)

  unfoldable pub query_allocation : ℕ → Store Token → Result CreditsError Allocation
  query_allocation address s = do
    owner ← ok_or std_error (cw.addr_validate address)
    ok_or std_error (lookup owner s.allocations)
