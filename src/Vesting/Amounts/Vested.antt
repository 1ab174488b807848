-- ===== src/Vesting/Amounts/Vested.antt =====
-- What has vested at a time, as a formula, and that the code computes it.
use neutron_tge_contracts.Prelude.{
  ℕ, ◌+◌, ◌-◌, ◌*◌, ◌/◌, ◌≤◌, ◌<◌, ◌≡◌, refl, min, Option, none, some, List, [], ◌∷◌, arith, ltb,
  if◌then◌else◌, sum_of, All, Bool-cases, inl, inr,
}
use neutron_tge_contracts.Prelude.Ratio.{ratio_le, ratio_mono, ratio_full, ratio_zero}
use neutron_tge_contracts.Prelude.Result.{ok, ◌>>=◌, u128_max, checked_add, checked_sub}
use neutron_tge_contracts.Cosmwasm.{Cosmwasm, IsExact}
use neutron_tge_contracts.Vesting.Types.{
  VestingSchedule, VestingSchedulePoint, VestingInfo, overflow,
}
use neutron_tge_contracts.Vesting.Amounts.{
  granted, granted_by, add_release, add_available, sum_available, compute_available_amount,
}

-- A schedule with an end point ends after it starts, with more than it starts with.
abbrev pub IsValidEnd : VestingSchedulePoint → Option VestingSchedulePoint → Type 0
IsValidEnd start none = Unit
IsValidEnd start (some e) = (start.time < e.time) × (start.amount < e.amount)

abbrev pub IsValid : VestingSchedule → Type 0
IsValid sch = IsValidEnd sch.start_point sch.end_point

-- The straight line from the start point to the end point, rounded down.
abbrev pub line : ℕ → VestingSchedulePoint → VestingSchedulePoint → ℕ
line now start e =
    start.amount + (min now e.time - start.time) * (e.amount - start.amount) / (e.time - start.time)

abbrev pub vested_to : ℕ → VestingSchedulePoint → Option VestingSchedulePoint → ℕ
vested_to now start none = start.amount
vested_to now start (some e) = line now start e

-- Nothing before the start, then the line.
unfoldable pub vested : ℕ → VestingSchedule → ℕ
vested now sch =
    if ltb now sch.start_point.time then 0 else vested_to now sch.start_point sch.end_point

pub vested_to-le-granted :
    (now : ℕ) (start : VestingSchedulePoint) (end : Option VestingSchedulePoint)
    → IsValidEnd start end
    → vested_to now start end ≤ granted_by start end
vested_to-le-granted now start none valid = omega arith
vested_to-le-granted now start (some e) valid =
    ground (
      arith,
      ratio_le (min now e.time - start.time) (e.amount - start.amount) (e.time - start.time),
    )

pub vested-le-granted :
    (now : ℕ) (sch : VestingSchedule) → IsValid sch → vested now sch ≤ granted sch
unfolding vested
vested-le-granted now sch valid =
    ground (arith, vested_to-le-granted now sch.start_point sch.end_point valid)

vested_to_mono :
    (now later : ℕ) (start : VestingSchedulePoint) (end : Option VestingSchedulePoint)
    → now ≤ later
    → IsValidEnd start end
    → vested_to now start end ≤ vested_to later start end
vested_to_mono now later start none h valid = omega arith
vested_to_mono now later start (some e) h valid = omega (
  arith,
  ratio_mono (min now e.time - start.time) (min later e.time - start.time) (e.amount - start.amount)
      (e.time - start.time) (omega arith) (omega arith),
)

-- What has vested does not shrink as time passes.
pub vested_mono :
    (now later : ℕ) (sch : VestingSchedule)
    → now ≤ later
    → IsValid sch
    → vested now sch ≤ vested later sch
unfolding vested
vested_mono now later sch h valid =
    ground (arith, vested_to_mono now later sch.start_point sch.end_point h valid)

-- The time from which a schedule has vested in full.
abbrev pub full_time : VestingSchedulePoint → Option VestingSchedulePoint → ℕ
full_time start none = start.time
full_time start (some e) = e.time

abbrev pub IsOver : ℕ → VestingSchedule → Type 0
IsOver now sch = full_time sch.start_point sch.end_point ≤ now

vested_to_full :
    (now : ℕ) (start : VestingSchedulePoint) (end : Option VestingSchedulePoint)
    → IsValidEnd start end
    → full_time start end ≤ now
    → (start.time ≤ now) × (vested_to now start end ≡ granted_by start end)
vested_to_full now start none valid over = (over, refl)
vested_to_full now start (some e) valid over =
    let capped : min now e.time ≡ e.time = omega arith in
    (
      omega arith,
      rw capped
          (omega (arith, ratio_full (e.amount - start.amount) (e.time - start.time) (omega arith))),
    )

pub vested_full :
    (now : ℕ) (sch : VestingSchedule) → IsValid sch → IsOver now sch → vested now sch ≡ granted sch
unfolding vested
vested_full now sch valid over =
    ground (arith, vested_to_full now sch.start_point sch.end_point valid over)

module _ (cw : Cosmwasm) (exact : IsExact cw) where
  add_release_lem :
      (now : ℕ) (start e : VestingSchedulePoint) (available : ℕ)
      → start.time ≤ now
      → start.time < e.time
      → start.amount < e.amount
      → available + (e.amount - start.amount) ≤ u128_max
      → add_release cw now start (some e) available
        ≡ ok (available + (line now start e - start.amount))
  unfolding add_release ◌>>=◌
  add_release_lem now start e available started ordered grows fits =
      let passed = min now e.time - start.time in
      let amount = e.amount - start.amount in
      let period = e.time - start.time in
      ground (
        arith,
        exact.multiply_ratio_total passed amount period,
        ratio_le passed amount period,
        ratio_zero amount period,
      )

  add_started :
      (now : ℕ) (start : VestingSchedulePoint) (end : Option VestingSchedulePoint) (available : ℕ)
      → start.time ≤ now
      → IsValidEnd start end
      → available + granted_by start end ≤ u128_max
      → (do
        started ← checked_add overflow available start.amount
        add_release cw now start end started)
        ≡ ok (available + vested_to now start end)
  unfolding ◌>>=◌
  add_started now start none available begun valid fits = unfold add_release ◌>>=◌ in ground arith
  add_started now start (some e) available begun valid fits =
      ground (arith, add_release_lem now start e (available + start.amount))

  add_available_lem :
      (now : ℕ) (sch : VestingSchedule) (available : ℕ)
      → IsValid sch
      → available + granted sch ≤ u128_max
      → add_available cw now sch available ≡ ok (available + vested now sch)
  unfolding add_available vested
  add_available_lem now sch available valid fits =
      elim (Bool-cases (ltb now sch.start_point.time)) [
        | inl before ↦ rw before (ground arith)
        | inr after ↦
            rw after
              (add_started now sch.start_point sch.end_point available (ground arith) valid fits)
      ]

  sum_available_lem :
      (now : ℕ) (schedules : List VestingSchedule) (available : ℕ)
      → All IsValid schedules
      → available + sum_of granted schedules ≤ u128_max
      → sum_available cw now schedules available ≡ ok (available + sum_of (vested now) schedules)
  unfolding sum_available ◌>>=◌
  sum_available_lem now [] available valid fits = ground arith
  sum_available_lem now (sch ∷ rest) available valid fits =
      rw (add_available_lem now sch available valid.0 (omega arith)) (
        ground (
          arith,
          vested-le-granted now sch valid.0,
          sum_available_lem now rest (available + vested now sch) valid.1,
        ))

  -- The amount that can be claimed is what has vested less what is released, and the call fails
  -- exactly when more is released than has vested.
  pub compute_available_amount_lem :
      (now : ℕ) (info : VestingInfo)
      → All IsValid info.schedules
      → sum_of granted info.schedules ≤ u128_max
      → compute_available_amount cw now info
        ≡ checked_sub overflow (sum_of (vested now) info.schedules) info.released_amount
  unfolding compute_available_amount ◌>>=◌
  compute_available_amount_lem now info valid fits =
      rw (sum_available_lem now info.schedules 0 valid (omega arith)) (ground arith)
