-- ===== src/Vesting/Register.antt =====
-- `register_vesting_accounts` of packages/vesting-base/src/handlers.rs.
pub mod Totals
pub mod Accept
use neutron_tge_contracts.Prelude.{ℕ, Option, none, some, List, [], ◌∷◌, ◌++◌, ◌==◌, unwrap_or}
use neutron_tge_contracts.Prelude.Map.{Map, lookup, insert}
use neutron_tge_contracts.Prelude.Result.{Result, ok, ◌>>=◌, ◌>>◌, ensure, ok_or, checked_add}
use neutron_tge_contracts.Cosmwasm.{Cosmwasm}
use neutron_tge_contracts.Vesting.Types.{
  VestingSchedule, VestingAccount, VestingInfo, VestingState, ContractError, std_error, overflow,
  vesting_schedule_amount_error, Store, Outcome,
}
use neutron_tge_contracts.Vesting.Amounts.{add_granted, assert_vesting_schedules}

-- The new schedules stand before those that the account has; what is released stays.
abbrev pub extend_info : Option VestingInfo → List VestingSchedule → VestingInfo
extend_info none schedules = record { schedules = schedules; released_amount = 0 }
extend_info (some old) schedules = record {
  schedules = schedules ++ old.schedules;
  released_amount = old.released_amount;
}

-- `s.unwrap_or_default()`
abbrev pub zero_state : VestingState
zero_state = record { total_granted = 0; total_released = 0 }

module _ (cw : Cosmwasm) where
  -- One round of the loop: the sum so far, and the accounts.
  unfoldable pub register_account :
      VestingAccount → ℕ → Map VestingInfo → Result ContractError (ℕ × Map VestingInfo)
  register_account account to_deposit infos = do
    address ← ok_or std_error (cw.addr_validate account.address)
    assert_vesting_schedules address account.schedules
    total ← add_granted to_deposit account.schedules
    ok (total, insert address (extend_info (lookup address infos) account.schedules) infos)

  unfoldable pub register_accounts :
      List VestingAccount → ℕ → Map VestingInfo → Result ContractError (ℕ × Map VestingInfo)
  register_accounts [] to_deposit infos = ok (to_deposit, infos)
  register_accounts (account ∷ rest) to_deposit infos = do
    (total, infos') ← register_account account to_deposit infos
    register_accounts rest total infos'

  unfoldable pub register_vesting_accounts : List VestingAccount → ℕ → Store → Outcome
  register_vesting_accounts accounts amount s = do
    (to_deposit, infos) ← register_accounts accounts 0 s.vesting_info
    ensure (to_deposit == amount) vesting_schedule_amount_error
    let state = unwrap_or zero_state s.vesting_state
    total ← checked_add overflow state.total_granted to_deposit
    ok (
      record s {
        vesting_info = infos;
        vesting_state = some (record state { total_granted = total });
      },
      [],
    )
