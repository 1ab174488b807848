-- ===== src/Vesting/Amounts.antt =====
-- The amounts of a vesting account: `compute_available_amount` and `assert_vesting_schedules` of
-- packages/vesting-base/src/handlers.rs, and the sums over the schedules that several handlers make.
pub mod Vested
pub mod Laws
use neutron_tge_contracts.Prelude.{
  ℕ, min, Bool, true, ◌&&◌, not, Option, none, some, List, [], ◌∷◌, ltb, ◌==◌, if◌then◌else◌,
}
use neutron_tge_contracts.Prelude.Result.{
  Result, ok, ◌>>=◌, ◌>>◌, ensure, ok_or, checked_add, checked_sub,
}
use neutron_tge_contracts.Cosmwasm.{Addr, Cosmwasm}
use neutron_tge_contracts.Vesting.Types.{
  VestingSchedule, VestingSchedulePoint, VestingInfo, ContractError, overflow, panicked,
  vesting_schedule_error,
}

-- The amount that a schedule grants in all: that of its end point, or of its only point.
abbrev pub granted_by : VestingSchedulePoint → Option VestingSchedulePoint → ℕ
granted_by start none = start.amount
granted_by start (some e) = e.amount

abbrev pub granted : VestingSchedule → ℕ
granted sch = granted_by sch.start_point sch.end_point

-- The loop `total = total.checked_add(..)?` over the schedules.
unfoldable pub add_granted : ℕ → List VestingSchedule → Result ContractError ℕ
add_granted total [] = ok total
add_granted total (sch ∷ rest) = do
  next ← checked_add overflow total (granted sch)
  add_granted next rest

abbrev pub is_valid_end : VestingSchedulePoint → Option VestingSchedulePoint → Bool
is_valid_end start none = true
is_valid_end start (some e) = ltb start.time e.time && ltb start.amount e.amount

unfoldable pub assert_vesting_schedules :
    Addr → List VestingSchedule → Result ContractError (Unit {0})
assert_vesting_schedules addr [] = ok tt
assert_vesting_schedules addr (sch ∷ rest) =
    ensure (is_valid_end sch.start_point sch.end_point) (vesting_schedule_error addr)
    >> assert_vesting_schedules addr rest

module _ (cw : Cosmwasm) where
  -- The share of the part between the points that has passed at `now`, added to `available`.
  unfoldable pub add_release :
      ℕ → VestingSchedulePoint → Option VestingSchedulePoint → ℕ → Result ContractError ℕ
  add_release now start none available = ok available
  add_release now start (some e) available = do
    passed_time ← checked_sub panicked (min now e.time) start.time
    time_period ← checked_sub panicked e.time start.time
    if not (passed_time == 0) && not (time_period == 0)
        then (do
          amount ← checked_sub overflow e.amount start.amount
          release_amount ← ok_or panicked (cw.multiply_ratio passed_time amount time_period)
          checked_add overflow available release_amount)
        else ok available

  -- One round of the loop.
  unfoldable pub add_available : ℕ → VestingSchedule → ℕ → Result ContractError ℕ
  unfolding add_release
  add_available now sch available = if ltb now sch.start_point.time then ok available else (do
    started ← checked_add overflow available sch.start_point.amount
    add_release now sch.start_point sch.end_point started)

  unfoldable pub sum_available : ℕ → List VestingSchedule → ℕ → Result ContractError ℕ
  sum_available now [] available = ok available
  sum_available now (sch ∷ rest) available = do
    next ← add_available now sch available
    sum_available now rest next

  unfoldable pub compute_available_amount : ℕ → VestingInfo → Result ContractError ℕ
  compute_available_amount now info = do
    available ← sum_available now info.schedules 0
    checked_sub overflow available info.released_amount
