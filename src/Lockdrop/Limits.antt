-- ===== src/Lockdrop/Limits.antt =====
-- What may be withdrawn from a position of the lockdrop, and when.
pub mod Stored
pub mod Withdraw
use neutron_tge_contracts.Prelude.{
  ℕ, ◌+◌, ◌-◌, ◌*◌, ◌/◌, ◌≤◌, ◌<◌, ◌≡◌, refl, sym, ◌∙◌, some, arith, ltb, leb, if◌then◌else◌,
}
use neutron_tge_contracts.Prelude.Ratio.{ratio_full}
use neutron_tge_contracts.Prelude.Result.{
  ok, err, ◌>>=◌, u64_max, ok_or-eq-ok, Ensures, Ensures-bind, Ensures-pure,
}
use neutron_tge_contracts.Cosmwasm.{Cosmwasm, IsExact, decimal_one}
use neutron_tge_contracts.Auction.Windows.Percent.{linear_part, linear_part_half}
use neutron_tge_contracts.Lockdrop.Types.{Config, panicked, overflow}
use neutron_tge_contracts.Lockdrop.Chain.{Astroport, IsAstroport}
use neutron_tge_contracts.Lockdrop.Amounts.{
  linear_percent, calculate_max_withdrawal_percent_allowed, max_withdrawal, lock_end, windows_end,
}

abbrev pub locked_at : Config → ℕ
locked_at config = config.init_timestamp + config.lock_window

-- The end of the first half of the withdrawal window.
abbrev pub half_at : Config → ℕ
half_at config = locked_at config + config.withdrawal_window / 2

abbrev pub closed_at : Config → ℕ
closed_at config = locked_at config + config.withdrawal_window

-- No sum or product that the windows need is out of the range of 64 bits.
pub record HasWindows (config : Config) : Type 0 where
  pub sum : closed_at config ≤ u64_max
  pub product : 100 * config.withdrawal_window ≤ u64_max

-- In units of 10^-18: everything, then half, then linearly down to nothing.
unfoldable pub max_percent_at : ℕ → Config → ℕ
max_percent_at now config =
    if ltb now (locked_at config)
    then 1000000000000000000
    else if leb now (half_at config)
    then 500000000000000000
    else if ltb now (closed_at config)
    then linear_part (closed_at config - now) (closed_at config - half_at config)
    else 0

-- Once the lock window is over, at most half.
pub max_percent_at-half :
    (now : ℕ) (config : Config)
    → locked_at config ≤ now
    → max_percent_at now config ≤ 500000000000000000
unfolding max_percent_at
max_percent_at-half now config h =
    ground (arith, linear_part_half (closed_at config - now) (closed_at config - half_at config))

module _ (cw : Cosmwasm) (exact : IsExact cw) where
  linear_share :
      (left span : ℕ)
      → left < span
      → 100 * span ≤ u64_max
      → linear_percent cw left span ≡ ok (linear_part left span)
  unfolding linear_percent ◌>>=◌
  linear_share left span h fits =
      ground (arith, linear_part_half left span, exact.from_ratio_total (50 * left) (100 * span))

  pub max_percent_lem :
      (now : ℕ) (config : Config)
      → HasWindows config
      → calculate_max_withdrawal_percent_allowed cw now config ≡ ok (max_percent_at now config)
  unfolding calculate_max_withdrawal_percent_allowed max_percent_at ◌>>=◌
  max_percent_lem now config range = ground (
    arith,
    exact.from_ratio_total 100 100,
    exact.from_ratio_total 50 100,
    exact.from_ratio_total 0 100,
    linear_share (closed_at config - now) (closed_at config - half_at config),
  )

  pub max_withdrawal_floor :
      (astroport : Astroport) (lp_units percent : ℕ)
      → IsAstroport astroport
      → Ensures
          (λ r. r ≡ lp_units * percent / decimal_one)
          (max_withdrawal cw astroport lp_units percent)
  unfolding max_withdrawal
  max_withdrawal_floor astroport lp_units percent is_astroport = Ensures-bind λ units u.
      Ensures-bind λ allowed a.
        let scaled : units ≡ lp_units * decimal_one =
          is_astroport.to_decimal_exact lp_units units
            (ok_or-eq-ok panicked (astroport.to_decimal lp_units) u) in
        let product : allowed ≡ units * percent / decimal_one =
          exact.checked_mul_decimal_floor units percent allowed
            (ok_or-eq-ok overflow (cw.checked_mul_decimal units percent) a) in
        let regroup : lp_units * decimal_one * percent ≡ decimal_one * (lp_units * percent) =
          omega arith in
        let cancelled : units * percent / decimal_one ≡ lp_units * percent =
          rw (scaled, regroup) (ratio_full (lp_units * percent) decimal_one (ground arith)) in
        Ensures-pure (rw (exact.floor_decimal_floor allowed, product, cancelled) refl)

pub windows_end-eq :
    (config : Config) (closed : ℕ) → windows_end config ≡ ok closed → closed ≡ closed_at config
unfolding ◌>>=◌
windows_end-eq config closed e = ground arith

pub windows_end_lem :
    (config : Config) → HasWindows config → windows_end config ≡ ok (closed_at config)
unfolding ◌>>=◌
windows_end_lem config range = ground (arith, range.sum)

pub lock_end_lem : (config : Config) → HasWindows config → lock_end config ≡ ok (locked_at config)
lock_end_lem config range = ground (arith, range.sum)
