-- ===== src/Credits/Schedules/Vested.antt =====
-- The vested part of an allocation, as a formula of the time.
use neutron_tge_contracts.Prelude.{ℕ, ◌+◌, ◌-◌, ◌*◌, ◌/◌, ◌≤◌, ◌<◌, ◌≡◌, arith, ltb, if◌then◌else◌}
use neutron_tge_contracts.Prelude.Ratio.{ratio_le, ratio_mono}
use neutron_tge_contracts.Prelude.Result.{ok, ◌>>=◌, checked_sub, u64_max, u128_max}
use neutron_tge_contracts.Cosmwasm.{Cosmwasm, IsExact}
use neutron_tge_contracts.Credits.Types.{Schedule, overflow}
use neutron_tge_contracts.Credits.Schedules.{
  linear_amount, vested_amount, compute_withdrawable_amount,
}

-- The sums of times fit in 64 bits.
pub record IsInRange (schedule : Schedule) : Type 0 where
  pub cliff_end : schedule.start_time + schedule.cliff ≤ u64_max
  pub schedule_end : schedule.start_time + schedule.duration ≤ u64_max

abbrev pub linear : ℕ → Schedule → ℕ → ℕ
linear allocated schedule now = allocated * (now - schedule.start_time) / schedule.duration

-- Nothing before the cliff, then a straight line from the start, then everything.
unfoldable pub vested_at : ℕ → Schedule → ℕ → ℕ
vested_at allocated schedule now =
    if ltb now (schedule.start_time + schedule.cliff)
    then 0
    else if ltb now (schedule.start_time + schedule.duration)
    then linear allocated schedule now
    else allocated

linear-le-allocated :
    (allocated : ℕ) (schedule : Schedule) (now : ℕ)
    → now < schedule.start_time + schedule.duration
    → linear allocated schedule now ≤ allocated
linear-le-allocated allocated schedule now h =
    ground (arith, ratio_le (now - schedule.start_time) allocated schedule.duration)

pub vested_at-le-allocated :
    (allocated : ℕ) (schedule : Schedule) (now : ℕ) → vested_at allocated schedule now ≤ allocated
unfolding vested_at
vested_at-le-allocated allocated schedule now =
    ground (arith, linear-le-allocated allocated schedule now)

linear_mono :
    (allocated : ℕ) (schedule : Schedule) (now later : ℕ)
    → now ≤ later
    → now < schedule.start_time + schedule.duration
    → schedule.start_time ≤ now
    → linear allocated schedule now ≤ linear allocated schedule later
linear_mono allocated schedule now later h inside begun = ground (
  arith,
  ratio_mono (now - schedule.start_time) (later - schedule.start_time) allocated schedule.duration,
)

vested_at_mono :
    (allocated : ℕ) (schedule : Schedule) (now later : ℕ)
    → now ≤ later
    → vested_at allocated schedule now ≤ vested_at allocated schedule later
unfolding vested_at
vested_at_mono allocated schedule now later h =
    ground
      (arith, linear-le-allocated allocated schedule now, linear_mono allocated schedule now later)

module _ (cw : Cosmwasm) (exact : IsExact cw) where
  linear_amount_lem :
      (allocated : ℕ) (schedule : Schedule) (now : ℕ)
      → schedule.start_time ≤ now
      → now < schedule.start_time + schedule.duration
      → allocated ≤ u128_max
      → linear_amount cw allocated schedule now ≡ ok (linear allocated schedule now)
  unfolding linear_amount ◌>>=◌
  linear_amount_lem allocated schedule now begun inside fits = ground (
    arith,
    linear-le-allocated allocated schedule now,
    exact.multiply_ratio_total allocated (now - schedule.start_time) schedule.duration,
  )

  -- For a schedule and an amount in range: what can be withdrawn is the vested part, by the
  -- formula, less what is withdrawn, and the call fails exactly when more is withdrawn than that.
  pub compute_withdrawable_amount_lem :
      (allocated withdrawn : ℕ) (schedule : Schedule) (now : ℕ)
      → IsInRange schedule
      → allocated ≤ u128_max
      → compute_withdrawable_amount cw allocated withdrawn schedule now
        ≡ checked_sub overflow (vested_at allocated schedule now) withdrawn
  unfolding compute_withdrawable_amount vested_amount vested_at ◌>>=◌
  compute_withdrawable_amount_lem allocated withdrawn schedule now range fits =
      ground (arith, range.cliff_end, range.schedule_end, linear_amount_lem allocated schedule now)

  -- For a schedule and an amount in range: if the amount that can be withdrawn is defined at a
  -- time, it is defined at every later time and is no smaller there, and with what is withdrawn
  -- it is within the allocation.
  pub withdrawable_mono :
      (allocated withdrawn : ℕ) (schedule : Schedule) (now later a : ℕ)
      → IsInRange schedule
      → allocated ≤ u128_max
      → now ≤ later
      → compute_withdrawable_amount cw allocated withdrawn schedule now ≡ ok a
      → (b : ℕ) × (compute_withdrawable_amount cw allocated withdrawn schedule later ≡ ok b)
        × (a ≤ b)
        × (b + withdrawn ≤ allocated)
  withdrawable_mono allocated withdrawn schedule now later a range fits after e =
      let grows = vested_at_mono allocated schedule now later after in
      let within = vested_at-le-allocated allocated schedule later in
      let now_eq = compute_withdrawable_amount_lem allocated withdrawn schedule now range fits in
      let later_eq =
        compute_withdrawable_amount_lem allocated withdrawn schedule later range fits in
      (
        vested_at allocated schedule later - withdrawn,
        ground (arith, grows, now_eq, later_eq),
        ground (arith, grows, now_eq),
        ground (arith, grows, now_eq, within),
      )
