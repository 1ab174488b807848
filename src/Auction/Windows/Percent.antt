-- ===== src/Auction/Windows/Percent.antt =====
-- The share of a deposit that may be withdrawn, as a formula of the time.
use native.Mathlib.Nat.{div-le_of_le-mul}
use neutron_tge_contracts.Prelude.{
  ℕ, ◌+◌, ◌-◌, ◌*◌, ◌/◌, ◌≤◌, ◌<◌, ◌≡◌, arith, ltb, leb, if◌then◌else◌,
}
use neutron_tge_contracts.Prelude.Ratio.{ratio_mono}
use neutron_tge_contracts.Prelude.Result.{ok, ◌>>=◌, u64_max}
use neutron_tge_contracts.Cosmwasm.{Cosmwasm, IsExact, decimal_one}
use neutron_tge_contracts.Auction.Types.{Config}
use neutron_tge_contracts.Auction.Windows.{linear_percent, allowed_withdrawal_percent}

abbrev pub deposit_end : Config → ℕ
deposit_end config = config.init_timestamp + config.deposit_window

-- The end of the first half of the withdrawal window.
abbrev pub half_end : Config → ℕ
half_end config = deposit_end config + config.withdrawal_window / 2

abbrev pub windows_end : Config → ℕ
windows_end config = deposit_end config + config.withdrawal_window

-- No sum or product that the windows need is out of the range of 64 bits.
pub record HasRange (config : Config) : Type 0 where
  pub sum : windows_end config ≤ u64_max
  pub product : 100 * config.withdrawal_window ≤ u64_max

abbrev pub linear_part : ℕ → ℕ → ℕ
linear_part left span = 50 * left * decimal_one / (100 * span)

-- In units of 10^-18: everything, then half, then linearly down to nothing.
unfoldable pub percent_at : ℕ → Config → ℕ
percent_at now config =
    if ltb now (deposit_end config)
    then 1000000000000000000
    else if leb now (half_end config)
    then 500000000000000000
    else if ltb now (windows_end config)
    then linear_part (windows_end config - now) (windows_end config - half_end config)
    else 0

pub linear_part_half : (left span : ℕ) → left ≤ span → linear_part left span ≤ 500000000000000000
linear_part_half left span h = div-le_of_le-mul (100 * span) (omega arith)

linear_part_mono :
    (left less span : ℕ) → 0 < span → less ≤ left → linear_part less span ≤ linear_part left span
linear_part_mono left less span pos h =
    ratio_mono (50 * less) (50 * left) decimal_one (100 * span) (omega arith) (omega arith)

percent_at_antitone :
    (now later : ℕ) (config : Config)
    → now ≤ later
    → percent_at later config ≤ percent_at now config
unfolding percent_at
percent_at_antitone now later config h =
    let span = windows_end config - half_end config in
    ground (
      arith,
      linear_part_half (windows_end config - now) span,
      linear_part_half (windows_end config - later) span,
      linear_part_mono (windows_end config - now) (windows_end config - later) span,
    )

module _ (cw : Cosmwasm) (exact : IsExact cw) where
  linear_percent_lem :
      (left span : ℕ)
      → left < span
      → 100 * span ≤ u64_max
      → linear_percent cw left span ≡ ok (linear_part left span)
  unfolding linear_percent ◌>>=◌
  linear_percent_lem left span h fits =
      ground (arith, linear_part_half left span, exact.from_ratio_total (50 * left) (100 * span))

  -- If the windows are in range, the code computes this formula, and never fails.
  pub allowed_withdrawal_percent_lem :
      (now : ℕ) (config : Config)
      → HasRange config
      → allowed_withdrawal_percent cw now config ≡ ok (percent_at now config)
  unfolding allowed_withdrawal_percent percent_at ◌>>=◌
  allowed_withdrawal_percent_lem now config range = ground (
    arith,
    exact.from_ratio_total 100 100,
    exact.from_ratio_total 50 100,
    exact.from_ratio_total 0 100,
    linear_percent_lem (windows_end config - now) (windows_end config - half_end config),
  )

  -- If the windows are in range: as time passes, no larger part of a deposit may be withdrawn.
  pub allowed_withdrawal_percent_antitone :
      (now later p q : ℕ) (config : Config)
      → HasRange config
      → now ≤ later
      → allowed_withdrawal_percent cw now config ≡ ok p
      → allowed_withdrawal_percent cw later config ≡ ok q
      → q ≤ p
  allowed_withdrawal_percent_antitone now later p q config range after e e' = ground (
    arith,
    allowed_withdrawal_percent_lem now config range,
    allowed_withdrawal_percent_lem later config range,
    percent_at_antitone now later config after,
  )
