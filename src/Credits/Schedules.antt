-- ===== src/Credits/Schedules.antt =====
-- `compute_withdrawable_amount` of contracts/credits/src/contract.rs.
pub mod Vested
use neutron_tge_contracts.Prelude.{ℕ, ltb, if◌then◌else◌}
use neutron_tge_contracts.Prelude.Result.{Result, ok, ◌>>=◌, ok_or, add_u64, checked_sub}
use neutron_tge_contracts.Cosmwasm.{Cosmwasm}
use neutron_tge_contracts.Credits.Types.{Schedule, CreditsError, overflow, panicked}

module _ (cw : Cosmwasm) where
  unfoldable pub linear_amount : ℕ → Schedule → ℕ → Result CreditsError ℕ
  linear_amount allocated schedule now = do
    passed ← checked_sub panicked now schedule.start_time
    ok_or panicked (cw.multiply_ratio allocated passed schedule.duration)

  unfoldable pub vested_amount : ℕ → Schedule → ℕ → Result CreditsError ℕ
  vested_amount allocated schedule now = do
    cliff_end ← add_u64 panicked schedule.start_time schedule.cliff
    if ltb now cliff_end then ok 0 else (do
      schedule_end ← add_u64 panicked schedule.start_time schedule.duration
      if ltb now schedule_end then linear_amount allocated schedule now else ok allocated)

  unfoldable pub compute_withdrawable_amount : ℕ → ℕ → Schedule → ℕ → Result CreditsError ℕ
  compute_withdrawable_amount allocated withdrawn schedule now = do
    vested ← vested_amount allocated schedule now
    checked_sub overflow vested withdrawn
