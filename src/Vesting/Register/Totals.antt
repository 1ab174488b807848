-- ===== src/Vesting/Register/Totals.antt =====
-- What a registration adds to the accounts and to the totals.
use neutron_tge_contracts.Prelude.{
  ℕ, ◌+◌, ◌≡◌, refl, Option, none, some, List, [], ◌∷◌, arith, sum_of, sum_of-append, All,
  All-append,
}
use neutron_tge_contracts.Prelude.Map.{
  Map, lookup, insert, sum_values, sum-insert, measure_at, AllValues, AllValues-lookup,
  AllValues-insert,
}
use neutron_tge_contracts.Prelude.Result.{ok, ◌>>=◌, Ensures, Ensures-bind, Ensures-pure}
use neutron_tge_contracts.Cosmwasm.{Addr, Cosmwasm}
use neutron_tge_contracts.Vesting.Types.{VestingSchedule, VestingAccount, VestingInfo}
use neutron_tge_contracts.Vesting.Amounts.{granted, add_granted, assert_vesting_schedules}
use neutron_tge_contracts.Vesting.Amounts.Vested.{IsValid}
use neutron_tge_contracts.Vesting.Register.{extend_info, register_account, register_accounts}
use neutron_tge_contracts.Vesting.Invariant.{granted_to, released_to, IsCovered}

pub add_granted_lem :
    (total : ℕ) (schedules : List VestingSchedule) (result : ℕ)
    → add_granted total schedules ≡ ok result
    → result ≡ total + sum_of granted schedules
unfolding add_granted ◌>>=◌
add_granted_lem total [] result h = ground arith
add_granted_lem total (sch ∷ rest) result h =
    ground (arith, add_granted_lem (total + granted sch) rest result)

pub assert_vesting_schedules-IsValid :
    (addr : Addr) (schedules : List VestingSchedule)
    → assert_vesting_schedules addr schedules ≡ ok tt
    → All IsValid schedules
unfolding assert_vesting_schedules ◌>>=◌
assert_vesting_schedules-IsValid addr [] h = tt
assert_vesting_schedules-IsValid addr (sch ∷ rest) h =
    (ground arith, assert_vesting_schedules-IsValid addr rest (ground arith))

extend_info-IsCovered :
    (old : Option VestingInfo) (schedules : List VestingSchedule)
    → ((info : VestingInfo) → old ≡ some info → IsCovered info)
    → All IsValid schedules
    → IsCovered (extend_info old schedules)
extend_info-IsCovered none schedules known valid = record { valid = valid; covered = omega arith }
extend_info-IsCovered (some info) schedules known valid = record {
  valid = All-append IsValid schedules info.schedules valid (known info refl).valid;
  covered =
      omega (arith, (known info refl).covered, sum_of-append granted schedules info.schedules);
}

granted_to-extend_info :
    (old : Option VestingInfo) (schedules : List VestingSchedule)
    → granted_to (extend_info old schedules) ≡ sum_of granted schedules + measure_at granted_to old
granted_to-extend_info none schedules = omega arith
granted_to-extend_info (some info) schedules = sum_of-append granted schedules info.schedules

released_to-extend_info :
    (old : Option VestingInfo) (schedules : List VestingSchedule)
    → released_to (extend_info old schedules) ≡ measure_at released_to old
released_to-extend_info none schedules = refl
released_to-extend_info (some info) schedules = refl

abbrev pub account_grant : VestingAccount → ℕ
account_grant account = sum_of granted account.schedules

-- The accounts `m'` are `m` with `amount` more granted.
pub record Adds (amount : ℕ) (m m' : Map VestingInfo) : Type 0 where
  pub more_granted : sum_values granted_to m' ≡ sum_values granted_to m + amount
  pub same_released : sum_values released_to m' ≡ sum_values released_to m
  pub covered : AllValues IsCovered m'

abbrev AddsTo : ℕ → ℕ → Map VestingInfo → ℕ × Map VestingInfo → Type 0
AddsTo to_deposit amount m (total, m') = (total ≡ to_deposit + amount) × Adds amount m m'

insert-Adds :
    (address : Addr) (schedules : List VestingSchedule) (m : Map VestingInfo)
    → AllValues IsCovered m
    → All IsValid schedules
    → Adds
        (sum_of granted schedules)
        m
        (insert address (extend_info (lookup address m) schedules) m)
insert-Adds address schedules m sound valid =
    let old = lookup address m in
    let info = extend_info old schedules in
    record {
      more_granted =
          omega (arith, sum-insert granted_to address info m, granted_to-extend_info old schedules);
      same_released =
          omega
            (arith, sum-insert released_to address info m, released_to-extend_info old schedules);
      covered =
          AllValues-insert IsCovered address info m
            (extend_info-IsCovered old schedules
              (λ known e. AllValues-lookup IsCovered address known m sound e) valid)
            sound;
    }

Adds-trans :
    {a b : ℕ} {m m' m'' : Map VestingInfo} → Adds a m m' → Adds b m' m'' → Adds (a + b) m m''
Adds-trans p q = record {
  more_granted = omega (arith, p.more_granted, q.more_granted);
  same_released = omega (arith, p.same_released, q.same_released);
  covered = q.covered;
}

module _ (cw : Cosmwasm) where
  register_account-Adds :
      (account : VestingAccount) (to_deposit : ℕ) (m : Map VestingInfo)
      → AllValues IsCovered m
      → Ensures
          (AddsTo to_deposit (account_grant account) m)
          (register_account cw account to_deposit m)
  unfolding register_account
  register_account-Adds account to_deposit m sound = Ensures-bind λ address _.
      Ensures-bind λ _ valid. Ensures-bind λ total e. Ensures-pure (
        add_granted_lem to_deposit account.schedules total e,
        insert-Adds address account.schedules m sound
            (assert_vesting_schedules-IsValid address account.schedules valid),
      )

  -- A registration grants the sum over the accounts that it lists, and releases nothing.
  pub register_accounts-Adds :
      (accounts : List VestingAccount) (to_deposit : ℕ) (m : Map VestingInfo)
      → AllValues IsCovered m
      → Ensures
          (AddsTo to_deposit (sum_of account_grant accounts) m)
          (register_accounts cw accounts to_deposit m)
  unfolding register_accounts
  register_accounts-Adds [] to_deposit m sound =
      Ensures-pure
        (omega arith, record { more_granted = omega arith; same_released = refl; covered = sound })
  register_accounts-Adds (account ∷ rest) to_deposit m sound = Ensures-bind λ (total, m') e.
      let first = (register_account-Adds account to_deposit m sound).holds (total, m') e in
      record {
        holds = λ r e'.
            let later = (register_accounts-Adds rest total m' first.1.covered).holds r e' in
            (omega (arith, first.0, later.0), Adds-trans first.1 later.1);
      }
