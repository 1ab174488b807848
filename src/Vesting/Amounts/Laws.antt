-- ===== src/Vesting/Amounts/Laws.antt =====
-- The laws of the amount that an account may claim.
use neutron_tge_contracts.Prelude.{ℕ, ◌+◌, ◌-◌, ◌≤◌, ◌≡◌, List, [], ◌∷◌, arith, sum_of, All}
use neutron_tge_contracts.Prelude.Result.{ok, u128_max}
use neutron_tge_contracts.Cosmwasm.{Cosmwasm, IsExact}
use neutron_tge_contracts.Vesting.Types.{VestingSchedule, VestingInfo}
use neutron_tge_contracts.Vesting.Amounts.{granted, compute_available_amount}
use neutron_tge_contracts.Vesting.Amounts.Vested.{
  IsValid, vested, vested-le-granted, vested_mono, IsOver, vested_full,
  compute_available_amount_lem,
}

pub sum-vested-le-granted :
    (now : ℕ) (schedules : List VestingSchedule)
    → All IsValid schedules
    → sum_of (vested now) schedules ≤ sum_of granted schedules
sum-vested-le-granted now [] valid = omega arith
sum-vested-le-granted now (sch ∷ rest) valid =
    omega (arith, vested-le-granted now sch valid.0, sum-vested-le-granted now rest valid.1)

sum-vested_mono :
    (now later : ℕ) (schedules : List VestingSchedule)
    → now ≤ later
    → All IsValid schedules
    → sum_of (vested now) schedules ≤ sum_of (vested later) schedules
sum-vested_mono now later [] h valid = omega arith
sum-vested_mono now later (sch ∷ rest) h valid =
    omega (arith, vested_mono now later sch h valid.0, sum-vested_mono now later rest h valid.1)

sum-vested_full :
    (now : ℕ) (schedules : List VestingSchedule)
    → All IsValid schedules
    → All (IsOver now) schedules
    → sum_of (vested now) schedules ≡ sum_of granted schedules
sum-vested_full now [] valid over = omega arith
sum-vested_full now (sch ∷ rest) valid over =
    omega (arith, vested_full now sch valid.0 over.0, sum-vested_full now rest valid.1 over.1)

module _ (cw : Cosmwasm) (exact : IsExact cw) (info : VestingInfo)
    (valid : All IsValid info.schedules) (fits : sum_of granted info.schedules ≤ u128_max) where
  -- For an account with valid schedules whose grants fit in 128 bits: what the code finds to be
  -- available, together with what is already released, never exceeds what is granted.
  pub available-le-granted :
      (now a : ℕ)
      → compute_available_amount cw now info ≡ ok a
      → a + info.released_amount ≤ sum_of granted info.schedules
  available-le-granted now a h = ground (
    arith,
    compute_available_amount_lem cw exact now info valid fits,
    sum-vested-le-granted now info.schedules valid,
  )

  -- For such an account: if the amount is defined at a time, it is defined at every later
  -- time, and is no smaller there.
  pub available_mono :
      (now later a : ℕ)
      → now ≤ later
      → compute_available_amount cw now info ≡ ok a
      → (b : ℕ) × (compute_available_amount cw later info ≡ ok b) × (a ≤ b)
  available_mono now later a h e =
      let grows = sum-vested_mono now later info.schedules h valid in
      let now_eq = compute_available_amount_lem cw exact now info valid fits in
      let later_eq = compute_available_amount_lem cw exact later info valid fits in
      (
        sum_of (vested later) info.schedules - info.released_amount,
        ground (arith, grows, now_eq, later_eq),
        ground (arith, grows, now_eq),
      )

  -- For such an account, released within its grants: once every schedule is over, the whole
  -- rest of the grants is available.
  pub available_full :
      (now : ℕ)
      → All (IsOver now) info.schedules
      → info.released_amount ≤ sum_of granted info.schedules
      → compute_available_amount cw now info
        ≡ ok (sum_of granted info.schedules - info.released_amount)
  available_full now over covered = ground (
    arith,
    compute_available_amount_lem cw exact now info valid fits,
    sum-vested_full now info.schedules valid over,
  )
