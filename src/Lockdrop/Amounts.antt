-- ===== src/Lockdrop/Amounts.antt =====
-- The amounts of contracts/lockdrop/src/contract.rs: the part that may be withdrawn, the weights and
-- the rewards; and `checked_mul_uint256` of packages/astroport_periphery/src/utils.rs.
use neutron_tge_contracts.Prelude.{
  ℕ, ◌+◌, ◌-◌, ◌*◌, ◌/◌, ◌||◌, List, [], ◌∷◌, ltb, leb, ◌==◌, if◌then◌else◌,
}
use neutron_tge_contracts.Prelude.Result.{
  Result, ok, err, ◌>>=◌, ◌>>◌, reject_if, ok_or, bounded_by, add_u64, mul_u64, u128_max, u256_max,
}
use neutron_tge_contracts.Cosmwasm.{Cosmwasm, decimal_one}
use neutron_tge_contracts.Lockdrop.Types.{
  LockupRewardsInfo, Config, LockdropError, std_error, overflow, panicked, invalid_duration,
}
use neutron_tge_contracts.Lockdrop.Chain.{Astroport}

-- The end of the lock window, and that of the withdrawal window.
abbrev pub lock_end : Config → Result LockdropError ℕ
lock_end config = add_u64 panicked config.init_timestamp config.lock_window

abbrev pub windows_end : Config → Result LockdropError ℕ
windows_end config = do locked ← lock_end config; add_u64 panicked locked config.withdrawal_window

-- `Decimal256::checked_mul_uint256`
unfoldable pub checked_mul_uint256 : ℕ → ℕ → Result LockdropError ℕ
checked_mul_uint256 decimal other =
    if decimal == 0 || other == 0
    then ok 0
    else bounded_by u128_max overflow (other * decimal / decimal_one)

-- `lp_units.full_mul(balance).checked_div(total)?.try_into()?`
unfoldable pub lp_share : ℕ → ℕ → ℕ → Result LockdropError ℕ
lp_share lp_units balance total = do
  reject_if (total == 0) std_error
  bounded_by u128_max std_error (lp_units * balance / total)

unfoldable pub find_coefficient : ℕ → List LockupRewardsInfo → Result LockdropError ℕ
find_coefficient duration [] = err invalid_duration
find_coefficient duration (info ∷ rest) =
    if info.duration == duration then ok info.coefficient else find_coefficient duration rest

unfoldable pub calculate_weight : ℕ → ℕ → Config → Result LockdropError ℕ
calculate_weight amount duration config = do
  coefficient ← find_coefficient duration config.lockup_rewards_info
  lock_weight ← bounded_by u256_max panicked (decimal_one + coefficient)
  checked_mul_uint256 lock_weight amount

module _ (cw : Cosmwasm) where
  unfoldable pub linear_percent : ℕ → ℕ → Result LockdropError ℕ
  linear_percent time_left span = do
    numerator ← mul_u64 panicked 50 time_left
    denominator ← mul_u64 panicked 100 span
    ok_or panicked (cw.from_ratio numerator denominator)

  unfoldable pub calculate_max_withdrawal_percent_allowed : ℕ → Config → Result LockdropError ℕ
  calculate_max_withdrawal_percent_allowed now config = do
    cutoff_init_point ← add_u64 panicked config.init_timestamp config.lock_window
    if ltb now cutoff_init_point then ok_or panicked (cw.from_ratio 100 100) else (do
      cutoff_second_point ← add_u64 panicked cutoff_init_point (config.withdrawal_window / 2)
      if leb now cutoff_second_point then ok_or panicked (cw.from_ratio 50 100) else (do
        cutoff_final ← add_u64 panicked cutoff_init_point config.withdrawal_window
        if ltb now cutoff_final
            then linear_percent (cutoff_final - now) (cutoff_final - cutoff_second_point)
            else ok_or panicked (cw.from_ratio 0 100)))

  -- The most that may be withdrawn of a position.
  unfoldable pub max_withdrawal : Astroport → ℕ → ℕ → Result LockdropError ℕ
  max_withdrawal astroport lp_units percent = do
    units ← ok_or panicked (astroport.to_decimal lp_units)
    allowed ← ok_or overflow (cw.checked_mul_decimal units percent)
    ok (cw.floor_decimal allowed)

  -- A share of rewards per token, for an amount of tokens, rounded down.
  unfoldable pub rewards_for : Astroport → ℕ → ℕ → Result LockdropError ℕ
  rewards_for astroport per_share amount = do
    tokens ← ok_or panicked (astroport.to_decimal amount)
    rewards ← ok_or overflow (cw.checked_mul_decimal per_share tokens)
    ok (cw.floor_decimal rewards)

  unfoldable pub calculate_astro_incentives_for_lockup : ℕ → ℕ → ℕ → ℕ → ℕ → Result LockdropError ℕ
  calculate_astro_incentives_for_lockup weighted total_weighted pool_share total_share incentives =
      if total_share == 0 || total_weighted == 0 then ok 0 else (do
        numerator ← bounded_by u256_max overflow (pool_share * weighted)
        denominator ← bounded_by u256_max overflow (total_share * total_weighted)
        share ← ok_or panicked (cw.from_ratio256 numerator denominator)
        checked_mul_uint256 share incentives)
