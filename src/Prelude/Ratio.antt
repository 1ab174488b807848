-- ===== src/Prelude/Ratio.antt =====
-- Laws of `a * n / d`, the ratio that rounds down.
use native.Mathlib.Nat.{
  mul-le-mul_right, div-le_of_le-mul, div-mul-le_self, le-div_iff_mul-le, mul-div_right, le_trans,
}
use neutron_tge_contracts.Prelude.{ℕ, ◌+◌, ◌*◌, ◌/◌, ◌≤◌, ◌<◌, ◌≡◌, arith}

pub ratio_le : (a n d : ℕ) → a ≤ d → a * n / d ≤ n
ratio_le a n d h = div-le_of_le-mul d (mul-le-mul_right n h)

pub ratio_mono : (a b n d : ℕ) → 0 < d → a ≤ b → a * n / d ≤ b * n / d
ratio_mono a b n d pos h =
    (le-div_iff_mul-le pos).1 (le_trans (div-mul-le_self (a * n) d) (mul-le-mul_right n h))

pub ratio_full : (n d : ℕ) → 0 < d → d * n / d ≡ n
ratio_full n d pos = mul-div_right n pos

pub ratio_zero : (n d : ℕ) → 0 < d → 0 * n / d ≡ 0
ratio_zero n d pos = omega (arith, ratio_le 0 n d)

pub ratio_add : (a b n d : ℕ) → 0 < d → a * n / d + b * n / d ≤ (a + b) * n / d
ratio_add a b n d pos =
    (le-div_iff_mul-le pos).1 (omega (arith, div-mul-le_self (a * n) d, div-mul-le_self (b * n) d))
