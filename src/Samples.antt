-- ===== src/Samples.antt =====
-- Concrete functions in place of those of `cosmwasm_std`, with their laws.
use neutron_tge_contracts.Prelude.{
  ℕ, ◌*◌, ◌/◌, refl, Option, none, some, arith, leb, ◌==◌, if◌then◌else◌,
}
use neutron_tge_contracts.Prelude.Result.{u128_max}
use neutron_tge_contracts.Cosmwasm.{Cosmwasm, IsExact, decimal_one}

abbrev checked_ratio : ℕ → ℕ → ℕ → Option ℕ
checked_ratio a n d =
    if d == 0 then none else if leb (a * n / d) u128_max then some (a * n / d) else none

-- Every address but 0 is valid.
abbrev pub exact_cw : Cosmwasm
exact_cw = record {
  addr_validate = λ n. if n == 0 then none else some n;
  multiply_ratio = checked_ratio;
  from_ratio = λ n d. checked_ratio n decimal_one d;
  mul_decimal = λ a x. checked_ratio a x decimal_one;
  decimal_of = λ n. if leb (n * decimal_one) u128_max then some (n * decimal_one) else none;
  div_decimal = λ a b. checked_ratio a decimal_one b;
  floor_decimal = λ x. x / decimal_one;
  checked_mul_decimal = λ a b. checked_ratio a b decimal_one;
  from_ratio256 = λ n d. if d == 0 then none else some (n * decimal_one / d);
}

pub exact_cw-IsExact : IsExact exact_cw
exact_cw-IsExact = record {
  multiply_ratio_floor = λ a n d r h. (ground arith, ground arith);
  multiply_ratio_total = λ a n d positive fits. ground arith;
  from_ratio_floor = λ n d r h. (ground arith, ground arith);
  from_ratio_total = λ n d positive fits. ground arith;
  mul_decimal_floor = λ a x r h. ground arith;
  mul_decimal_total = λ a x fits. ground arith;
  decimal_of_exact = λ n r h. ground arith;
  div_decimal_floor = λ a b r h. (ground arith, ground arith);
  floor_decimal_floor = λ x. refl;
  checked_mul_decimal_floor = λ a b r h. ground arith;
  checked_mul_decimal_total = λ a b fits. ground arith;
  from_ratio256_floor = λ n d r h. (ground arith, ground arith);
}
