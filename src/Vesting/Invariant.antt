-- ===== src/Vesting/Invariant.antt =====
-- The invariant of the storage: the totals are the sums over the accounts, each account's
-- schedules are valid, and nobody has been paid more than was granted.
use neutron_tge_contracts.Prelude.{ℕ, ◌≤◌, ◌≡◌, sum_of, All, unwrap_or}
use neutron_tge_contracts.Prelude.Map.{sum_values, AllValues}
use neutron_tge_contracts.Prelude.Result.{u128_max}
use neutron_tge_contracts.Vesting.Types.{VestingInfo, VestingState, Store}
use neutron_tge_contracts.Vesting.Amounts.{granted}
use neutron_tge_contracts.Vesting.Amounts.Vested.{IsValid}
use neutron_tge_contracts.Vesting.Register.{zero_state}

-- The amount granted to an account.
abbrev pub granted_to : VestingInfo → ℕ
granted_to info = sum_of granted info.schedules

abbrev pub released_to : VestingInfo → ℕ
released_to info = info.released_amount

pub record IsCovered (info : VestingInfo) : Type 0 where
  pub valid : All IsValid info.schedules
  pub covered : info.released_amount ≤ granted_to info

abbrev pub state_of : Store → VestingState
state_of s = unwrap_or zero_state s.vesting_state

pub record IsSound (s : Store) : Type 0 where
  pub granted_total : sum_values granted_to s.vesting_info ≡ (state_of s).total_granted
  pub released_total : sum_values released_to s.vesting_info ≡ (state_of s).total_released
  pub accounts : AllValues IsCovered s.vesting_info
  pub in_range : (state_of s).total_granted ≤ u128_max
