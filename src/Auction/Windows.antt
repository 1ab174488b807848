-- ===== src/Auction/Windows.antt =====
-- The time windows of contracts/auction/src/contract.rs.
pub mod Percent
use neutron_tge_contracts.Prelude.{ℕ, ◌-◌, ◌/◌, Bool, true, false, ltb, leb, if◌then◌else◌}
use neutron_tge_contracts.Prelude.Result.{Result, ok, ◌>>=◌, ok_or, add_u64, mul_u64}
use neutron_tge_contracts.Cosmwasm.{Cosmwasm}
use neutron_tge_contracts.Auction.Types.{Config, AuctionError, panicked}

-- The sum is not computed before the start.
unfoldable pub is_deposit_open : ℕ → Config → Result AuctionError Bool
is_deposit_open now config =
    if leb config.init_timestamp now
    then (do
      window_end ← add_u64 panicked config.init_timestamp config.deposit_window
      ok (ltb now window_end))
    else ok false

unfoldable pub are_windows_closed : ℕ → Config → Result AuctionError Bool
are_windows_closed now config = do
  deposit_end ← add_u64 panicked config.init_timestamp config.deposit_window
  window_end ← add_u64 panicked deposit_end config.withdrawal_window
  ok (leb window_end now)

unfoldable pub is_lock_window_closed : ℕ → Config → Result AuctionError Bool
is_lock_window_closed now config = do
  deposit_end ← add_u64 panicked config.init_timestamp config.deposit_window
  window_end ← add_u64 panicked deposit_end config.withdrawal_window
  lock_window_end ← add_u64 panicked window_end config.lp_tokens_lock_window
  ok (leb lock_window_end now)

module _ (cw : Cosmwasm) where
  -- The linear part: `50 * time_left / (100 * (final - second))`.
  unfoldable pub linear_percent : ℕ → ℕ → Result AuctionError ℕ
  linear_percent time_left span = do
    numerator ← mul_u64 panicked 50 time_left
    denominator ← mul_u64 panicked 100 span
    ok_or panicked (cw.from_ratio numerator denominator)

  unfoldable pub allowed_withdrawal_percent : ℕ → Config → Result AuctionError ℕ
  allowed_withdrawal_percent now config = do
    cutoff_init_point ← add_u64 panicked config.init_timestamp config.deposit_window
    if ltb now cutoff_init_point then ok_or panicked (cw.from_ratio 100 100) else (do
      cutoff_second_point ← add_u64 panicked cutoff_init_point (config.withdrawal_window / 2)
      if leb now cutoff_second_point then ok_or panicked (cw.from_ratio 50 100) else (do
        cutoff_final ← add_u64 panicked cutoff_init_point config.withdrawal_window
        if ltb now cutoff_final
            then linear_percent (cutoff_final - now) (cutoff_final - cutoff_second_point)
            else ok_or panicked (cw.from_ratio 0 100)))
