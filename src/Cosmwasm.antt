-- ===== src/Cosmwasm.antt =====
-- What the contracts take from `cosmwasm_std`. Addresses and denominations are texts that the
-- contracts only compare and hand on, so they are numbers here. The arithmetic of ratios and the
-- validation of addresses are functions of that crate: parameters, with their documented laws.
use neutron_tge_contracts.Prelude.{ℕ, ◌*◌, ◌/◌, ◌≤◌, ◌<◌, ◌≡◌, Option, some, List}
use neutron_tge_contracts.Prelude.Result.{u128_max}

abbrev pub Addr : Type 0
Addr = ℕ

abbrev pub Denom : Type 0
Denom = ℕ

pub record Coin : Type 0 where
  pub denom : Denom
  pub amount : ℕ

-- `MessageInfo`: who calls, and the coins that come with the call.
pub record MessageInfo : Type 0 where
  pub sender : Addr
  pub funds : List Coin

-- `Env`: the block's time in seconds and its height, and the contract's own address.
pub record Env : Type 0 where
  pub time : ℕ
  pub height : ℕ
  pub contract : Addr

-- The number of units of 10^-18 in a `Decimal` of one.
abbrev pub decimal_one : ℕ
decimal_one = 1000000000000000000

-- A `Decimal` is given by its units of 10^-18; `none` is a panic or an error of the crate.
pub record Cosmwasm : Type 0 where
  -- `Api::addr_validate`
  pub addr_validate : ℕ → Option Addr
  -- `Uint128::multiply_ratio`
  pub multiply_ratio : ℕ → ℕ → ℕ → Option ℕ
  -- `Decimal::from_ratio`
  pub from_ratio : ℕ → ℕ → Option ℕ
  -- `Uint128 * Decimal`
  pub mul_decimal : ℕ → ℕ → Option ℕ
  -- `Decimal::from_str` of a whole number
  pub decimal_of : ℕ → Option ℕ
  -- `Decimal / Decimal`
  pub div_decimal : ℕ → ℕ → Option ℕ
  -- `Decimal::to_uint_floor`
  pub floor_decimal : ℕ → ℕ
  -- `Decimal::checked_mul`
  pub checked_mul_decimal : ℕ → ℕ → Option ℕ
  -- `Decimal256::from_ratio`
  pub from_ratio256 : ℕ → ℕ → Option ℕ

-- The documented results: each rounds down, and is refused if the denominator is 0 or the result
-- is out of range.
pub record IsExact (cw : Cosmwasm) : Type 0 where
  pub multiply_ratio_floor :
      (a n d r : ℕ) → cw.multiply_ratio a n d ≡ some r → (r ≡ a * n / d) × (0 < d)
  pub multiply_ratio_total :
      (a n d : ℕ) → 0 < d → a * n / d ≤ u128_max → cw.multiply_ratio a n d ≡ some (a * n / d)
  pub from_ratio_floor :
      (n d r : ℕ) → cw.from_ratio n d ≡ some r → (r ≡ n * decimal_one / d) × (0 < d)
  pub from_ratio_total :
      (n d : ℕ)
      → 0 < d
      → n * decimal_one / d ≤ u128_max
      → cw.from_ratio n d ≡ some (n * decimal_one / d)
  pub mul_decimal_floor : (a x r : ℕ) → cw.mul_decimal a x ≡ some r → r ≡ a * x / decimal_one
  pub mul_decimal_total :
      (a x : ℕ) → a * x / decimal_one ≤ u128_max → cw.mul_decimal a x ≡ some (a * x / decimal_one)
  pub decimal_of_exact : (n r : ℕ) → cw.decimal_of n ≡ some r → r ≡ n * decimal_one
  pub div_decimal_floor :
      (a b r : ℕ) → cw.div_decimal a b ≡ some r → (r ≡ a * decimal_one / b) × (0 < b)
  pub floor_decimal_floor : (x : ℕ) → cw.floor_decimal x ≡ x / decimal_one
  pub checked_mul_decimal_floor :
      (a b r : ℕ) → cw.checked_mul_decimal a b ≡ some r → r ≡ a * b / decimal_one
  pub checked_mul_decimal_total :
      (a b : ℕ)
      → a * b / decimal_one ≤ u128_max
      → cw.checked_mul_decimal a b ≡ some (a * b / decimal_one)
  pub from_ratio256_floor :
      (n d r : ℕ) → cw.from_ratio256 n d ≡ some r → (r ≡ n * decimal_one / d) × (0 < d)
