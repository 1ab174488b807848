-- ===== src/Vesting/Flow.antt =====
-- What a call of the vesting library does to the grants, the releases and the money.
pub mod Register
pub mod Claim
pub mod Managed
pub mod Execute
use neutron_tge_contracts.Prelude.{ℕ, ◌+◌, ◌≡◌, List, sum_of}
use neutron_tge_contracts.Vesting.Types.{Store, Transfer, VestingState}
use neutron_tge_contracts.Vesting.Invariant.{state_of, IsSound}

abbrev pub paid : List Transfer → ℕ
paid = sum_of (λ t. t.amount)

-- The storage stays sound, and what is owed (granted and not released) grows by what came in
-- less what is paid out. Both sides have the releases and payments added, since the numbers are
-- natural.
pub record Flows (received : ℕ) (s : Store) (result : Store × List Transfer) : Type 0 where
  pub sound : IsSound result.0
  pub balance :
      (state_of result.0).total_granted + (state_of s).total_released + paid result.1
      ≡ (state_of s).total_granted + (state_of result.0).total_released + received
