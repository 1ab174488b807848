-- ===== src/Vesting/Register/Accept.antt =====
-- Which registrations succeed.
use neutron_tge_contracts.Prelude.{
  ℕ, ◌+◌, ◌≤◌, ◌≡◌, refl, true, Option, none, some, List, [], ◌∷◌, arith, sum_of, All,
}
use neutron_tge_contracts.Prelude.Map.{Map, lookup, insert}
use neutron_tge_contracts.Prelude.Result.{ok, ◌>>=◌, u128_max}
use neutron_tge_contracts.Cosmwasm.{Addr, Cosmwasm}
use neutron_tge_contracts.Vesting.Types.{
  VestingSchedulePoint, VestingSchedule, VestingAccount, VestingInfo, Store, Transfer,
}
use neutron_tge_contracts.Vesting.Amounts.{
  granted, is_valid_end, add_granted, assert_vesting_schedules,
}
use neutron_tge_contracts.Vesting.Amounts.Vested.{IsValidEnd, IsValid}
use neutron_tge_contracts.Vesting.Register.{
  extend_info, register_account, register_accounts, register_vesting_accounts,
}
use neutron_tge_contracts.Vesting.Register.Totals.{account_grant}
use neutron_tge_contracts.Vesting.Invariant.{state_of}

pub add_granted_accepts :
    (total : ℕ) (schedules : List VestingSchedule)
    → total + sum_of granted schedules ≤ u128_max
    → add_granted total schedules ≡ ok (total + sum_of granted schedules)
unfolding add_granted ◌>>=◌
add_granted_accepts total [] h = ground arith
add_granted_accepts total (sch ∷ rest) h =
    ground (arith, add_granted_accepts (total + granted sch) rest)

is_valid_end_complete :
    (start : VestingSchedulePoint) (end : Option VestingSchedulePoint)
    → IsValidEnd start end
    → is_valid_end start end ≡ true
is_valid_end_complete start none h = refl
is_valid_end_complete start (some e) h = ground arith

assert_accepts :
    (addr : Addr) (schedules : List VestingSchedule)
    → All IsValid schedules
    → assert_vesting_schedules addr schedules ≡ ok tt
unfolding assert_vesting_schedules ◌>>=◌
assert_accepts addr [] h = refl
assert_accepts addr (sch ∷ rest) h =
    rw (is_valid_end_complete sch.start_point sch.end_point h.0) (assert_accepts addr rest h.1)

-- An account whose address and schedules pass the checks.
pub record IsAcceptable (cw : Cosmwasm) (account : VestingAccount) : Type 0 where
  pub known : cw.addr_validate account.address ≡ some account.address
  pub valid : All IsValid account.schedules

module _ (cw : Cosmwasm) where
  register_account_accepts :
      (account : VestingAccount) (total : ℕ) (m : Map VestingInfo)
      → IsAcceptable cw account
      → total + account_grant account ≤ u128_max
      → register_account cw account total m
        ≡ ok (
          total + account_grant account,
          insert account.address (extend_info (lookup account.address m) account.schedules) m,
        )
  unfolding register_account ◌>>=◌
  register_account_accepts account total m h fits = rw (
    h.known,
    assert_accepts account.address account.schedules h.valid,
    add_granted_accepts total account.schedules fits,
  )

  register_accounts_accepts :
      (accounts : List VestingAccount) (total : ℕ) (m : Map VestingInfo)
      → All (IsAcceptable cw) accounts
      → total + sum_of account_grant accounts ≤ u128_max
      → (m' : Map VestingInfo) × (register_accounts cw accounts total m
          ≡ ok (total + sum_of account_grant accounts, m'))
  unfolding register_accounts ◌>>=◌
  register_accounts_accepts [] total m h fits = (m, ground arith)
  register_accounts_accepts (account ∷ rest) total m h fits =
      let m' =
        insert account.address (extend_info (lookup account.address m) account.schedules) m in
      let (m'', e) =
        register_accounts_accepts rest (total + account_grant account) m' h.1 (omega arith) in
      (m'', rw (register_account_accepts account total m h.0 (omega arith)) (ground (arith, e)))

  -- A registration of accounts that pass the checks succeeds with their sum as the amount, if the
  -- total stays in range.
  pub register_accepts :
      (accounts : List VestingAccount) (s : Store)
      → All (IsAcceptable cw) accounts
      → (state_of s).total_granted + sum_of account_grant accounts ≤ u128_max
      → (r : Store × List Transfer) × (register_vesting_accounts cw accounts
            (sum_of account_grant accounts)
            s
          ≡ ok r)
        × ((state_of r.0).total_granted
            ≡ (state_of s).total_granted + sum_of account_grant accounts)
  unfolding register_vesting_accounts ◌>>=◌
  register_accepts accounts s h fits =
      let (m', e) = register_accounts_accepts accounts 0 s.vesting_info h (omega arith) in
      (
        (
          record s {
            vesting_info = m';
            vesting_state = some (record (state_of s) {
              total_granted = (state_of s).total_granted + sum_of account_grant accounts;
            });
          },
          [],
        ),
        ground (arith, e),
        refl,
      )
