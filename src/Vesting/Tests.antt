-- ===== src/Vesting/Tests.antt =====
-- The vesting library on concrete data, and the theorems at such data.
use neutron_tge_contracts.Prelude.{
  ℕ, ◌+◌, ◌-◌, ◌≤◌, ◌≡◌, refl, sym, true, false, ◌&&◌, Option, none, some, List, [], ◌∷◌, arith,
  leb, ◌==◌, if◌then◌else◌, sum_of, All,
}
use neutron_tge_contracts.Prelude.Map.{lookup, insert, sum_values, AllValues}
use neutron_tge_contracts.Prelude.Result.{Result, ok, err, ◌>>=◌, checked_sub}
use neutron_tge_contracts.Cosmwasm.{Addr, Denom, Coin, MessageInfo, Env}
use neutron_tge_contracts.Samples.{exact_cw, exact_cw-IsExact}
use neutron_tge_contracts.Vesting.Types.{
  native_token, VestingSchedule, VestingAccount, VestingInfo, OwnershipProposal, ContractError,
  unauthorized, payment_error, overflow, Store, Transfer,
}
use neutron_tge_contracts.Vesting.Amounts.{
  assert_vesting_schedules, add_granted, add_release, add_available, sum_available,
  compute_available_amount,
}
use neutron_tge_contracts.Vesting.Amounts.Vested.{IsValid, vested, compute_available_amount_lem}
use neutron_tge_contracts.Vesting.Amounts.Laws.{
  available-le-granted, available_mono, available_full,
}
use neutron_tge_contracts.Vesting.Register.{
  register_account, register_accounts, register_vesting_accounts,
}
use neutron_tge_contracts.Vesting.Register.Totals.{account_grant}
use neutron_tge_contracts.Vesting.Register.Accept.{IsAcceptable, register_accepts}
use neutron_tge_contracts.Vesting.Claim.{claim, pay_claim}
use neutron_tge_contracts.Vesting.Claim.Payout.{ClaimsOf, claim-Claims}
use neutron_tge_contracts.Vesting.Execute.{
  claim_msg, register_vesting_accounts_msg, claim_ownership_msg, Calls, AreChecked, register_native,
  execute,
}
use neutron_tge_contracts.Vesting.Invariant.{granted_to, released_to, IsCovered, IsSound, state_of}
use neutron_tge_contracts.Vesting.Flow.{Flows}
use neutron_tge_contracts.Vesting.Flow.Execute.{execute-Flows}
use neutron_tge_contracts.Vesting.Authority.{ConfigStep, execute-ConfigStep}
use neutron_tge_contracts.Vesting.Queries.{
  query_vesting_available_amount, query_unclaimed_amount_at_height,
  query_total_unclaimed_amount_at_height,
}
use neutron_tge_contracts.Vesting.Queries.Sums.{
  unclaimed, query_total_unclaimed_lem, query_unclaimed_lem, claim-query,
}
use neutron_tge_contracts.Vesting.Runs.{Call, Ledger, opening, run, run_solvent}

abbrev claim_ownership_of : MessageInfo → Env → Option OwnershipProposal → Result ContractError Addr
claim_ownership_of info env none = err unauthorized
claim_ownership_of info env (some p) =
    if info.sender == p.owner && leb env.time p.ttl then ok p.owner else err unauthorized

abbrev must_pay_of : List Coin → Denom → Result ContractError ℕ
must_pay_of (coin ∷ []) denom = if coin.denom == denom then ok coin.amount else err payment_error
must_pay_of _ denom = err payment_error

abbrev sample_calls : Calls
sample_calls = record {
  check = λ asset. ok tt;
  propose_new_owner = λ info env new_owner expires_in owner.
      if info.sender == owner
      then ok (record { owner = new_owner; ttl = env.time + expires_in })
      else err unauthorized;
  drop_ownership_proposal = λ info owner. if info.sender == owner then ok tt else err unauthorized;
  claim_ownership = claim_ownership_of;
  must_pay = λ info denom. must_pay_of info.funds denom;
}

claim_by_proposed_of :
    (info : MessageInfo) (env : Env) (proposal : Option OwnershipProposal) (new_owner : Addr)
    → claim_ownership_of info env proposal ≡ ok new_owner
    → (p : OwnershipProposal) × (proposal ≡ some p)
      × (info.sender ≡ p.owner)
      × (new_owner ≡ p.owner)
      × (env.time ≤ p.ttl)
claim_by_proposed_of info env none new_owner h = cc
claim_by_proposed_of info env (some p) new_owner h =
    (p, refl, ground arith, ground arith, ground arith)

pays_one_coin_of :
    (funds : List Coin) (denom amount : ℕ)
    → must_pay_of funds denom ≡ ok amount
    → funds ≡ record { denom = denom; amount = amount } ∷ []
pays_one_coin_of [] denom amount h = cc
pays_one_coin_of (coin ∷ []) denom amount h =
    let same : coin.denom ≡ denom = ground arith in
    let all : coin.amount ≡ amount = ground arith in rw (sym same, sym all) refl
pays_one_coin_of (coin ∷ another ∷ rest) denom amount h = cc

sample_calls-AreChecked : AreChecked sample_calls
sample_calls-AreChecked = record {
  propose_by_owner = λ info env new_owner expires_in owner p h. ground arith;
  drop_by_owner = λ info owner h. ground arith;
  claim_by_proposed = claim_by_proposed_of;
  pays_one_coin = λ info denom amount h. pays_one_coin_of info.funds denom amount h;
}

abbrev at_time : ℕ → Env
at_time now = record { time = now; height = 1; contract = 99 }

abbrev from_sender : Addr → MessageInfo
from_sender addr = record { sender = addr; funds = [] }

-- 1000 from time 100 to time 200.
abbrev schedule : VestingSchedule
schedule = record {
  start_point = record { time = 100; amount = 0 };
  end_point = some (record { time = 200; amount = 1000 });
}

abbrev account : VestingAccount
account = record { address = 5; schedules = schedule ∷ [] }

abbrev fresh_store : Store
fresh_store = record {
  config = record {
    owner = 1;
    vesting_token = some (native_token 7);
    token_info_manager = 2;
    extensions = record { historical = false; managed = true; with_managers = false };
  };
  ownership_proposal = none;
  vesting_managers = [];
  vesting_state = none;
  vesting_info = [];
}

-- The account has claimed 500 at time 150.
abbrev holding : ℕ → VestingInfo
holding released = record { schedules = schedule ∷ []; released_amount = released }

abbrev store_after : ℕ → Store
store_after released = record fresh_store {
  vesting_state = some (record { total_granted = 1000; total_released = released });
  vesting_info = (5, holding released) ∷ [];
}

abbrev schedule-IsValid : All IsValid (schedule ∷ [])
schedule-IsValid = ((omega arith, omega arith), tt)

store_after-IsSound : (released : ℕ) → released ≤ 1000 → IsSound (store_after released)
store_after-IsSound released h = record {
  granted_total = refl;
  released_total = omega arith;
  accounts = (record { valid = schedule-IsValid; covered = h }, tt);
  in_range = omega arith;
}

abbrev payment : ℕ → Transfer
payment amount = record { asset = native_token 7; amount = amount; recipient = 5 }

claims_half :
    claim exact_cw (at_time 150) (from_sender 5) none none (store_after 0)
    ≡ ok (store_after 500, payment 500 ∷ [])
unfolding claim pay_claim compute_available_amount sum_available add_available add_release lookup
    insert ◌>>=◌
claims_half = refl

-- A registration, a claim by the account, and a claim that fails.
abbrev sample_run : List Call
sample_run =
    record {
      env = at_time 50;
      info = record { sender = 1; funds = record { denom = 7; amount = 1000 } ∷ [] };
      msg = register_vesting_accounts_msg (account ∷ []);
    }
    ∷ record { env = at_time 150; info = from_sender 5; msg = claim_msg none none }
    ∷ record { env = at_time 160; info = from_sender 8; msg = claim_msg none none }
    ∷ []

abbrev sample_end : Ledger
sample_end =
    run exact_cw exact_cw-IsExact sample_calls sample_calls-AreChecked sample_run
      (opening fresh_store)

run_solvent_example :
    (sample_end.total_received
      ≡ sample_end.total_paid
        + (sum_values granted_to sample_end.store.vesting_info
            - sum_values released_to sample_end.store.vesting_info))
    × (sum_values released_to sample_end.store.vesting_info
        ≤ sum_values granted_to sample_end.store.vesting_info)
    × AllValues IsCovered sample_end.store.vesting_info
run_solvent_example =
    run_solvent exact_cw exact_cw-IsExact sample_calls sample_calls-AreChecked sample_run
      fresh_store (refl, refl)

sample_end_lem :
    sample_end ≡ record { store = store_after 500; total_received = 1000; total_paid = 500 }
unfolding run execute claim pay_claim register_native register_vesting_accounts register_accounts
    register_account assert_vesting_schedules add_granted compute_available_amount sum_available
    add_available lookup insert ◌>>=◌
sample_end_lem = refl

execute_claims :
    execute exact_cw sample_calls
      (at_time 150)
      (from_sender 5)
      (claim_msg none none)
      (store_after 0)
    ≡ ok (store_after 500, payment 500 ∷ [])
unfolding execute
execute_claims = claims_half

execute-Flows_example : Flows 0 (store_after 0) (store_after 500, payment 500 ∷ [])
execute-Flows_example =
    (execute-Flows exact_cw exact_cw-IsExact sample_calls sample_calls-AreChecked (at_time 150)
        (from_sender 5) (claim_msg none none) (store_after 0)
        (store_after-IsSound 0 (omega arith))).holds
      (store_after 500, payment 500 ∷ []) execute_claims

compute_available_amount_example :
    compute_available_amount exact_cw 150 (holding 200)
    ≡ checked_sub overflow (sum_of (vested 150) (schedule ∷ [])) 200
compute_available_amount_example =
    compute_available_amount_lem exact_cw exact_cw-IsExact 150 (holding 200) schedule-IsValid
      (omega arith)

available_half : compute_available_amount exact_cw 150 (holding 200) ≡ ok 300
unfolding compute_available_amount sum_available add_available add_release ◌>>=◌
available_half = refl

available-le-granted_example : 300 + 200 ≤ 1000
available-le-granted_example =
    available-le-granted exact_cw exact_cw-IsExact (holding 200) schedule-IsValid (omega arith) 150
      300 available_half

available_mono_example :
    (b : ℕ) × (compute_available_amount exact_cw 180 (holding 200) ≡ ok b) × (300 ≤ b)
available_mono_example =
    available_mono exact_cw exact_cw-IsExact (holding 200) schedule-IsValid (omega arith) 150 180
      300 (omega arith) available_half

available_full_example : compute_available_amount exact_cw 250 (holding 200) ≡ ok 800
available_full_example =
    available_full exact_cw exact_cw-IsExact (holding 200) schedule-IsValid (omega arith) 250
      (omega arith, tt) (omega arith)

claim-Claims_example :
    ClaimsOf exact_cw
      (at_time 150)
      (from_sender 5)
      none
      none
      (store_after 0)
      (store_after 500, payment 500 ∷ [])
claim-Claims_example =
    (claim-Claims exact_cw (at_time 150) (from_sender 5) none none (store_after 0)).holds
      (store_after 500, payment 500 ∷ []) claims_half

-- The owner has proposed 3 as the next owner.
abbrev store_with_proposal : Store
store_with_proposal = record fresh_store {
  ownership_proposal = some (record { owner = 3; ttl = 200 });
}

abbrev store_with_owner : Addr → Store
store_with_owner addr = record fresh_store { config = record (fresh_store.config) { owner = addr } }

execute_takes_over :
    execute exact_cw sample_calls
      (at_time 150)
      (from_sender 3)
      claim_ownership_msg
      store_with_proposal
    ≡ ok (store_with_owner 3, [])
unfolding execute ◌>>=◌
execute_takes_over = refl

execute-ConfigStep_example :
    ConfigStep
      (at_time 150)
      (from_sender 3)
      claim_ownership_msg
      store_with_proposal
      (store_with_owner 3, [])
execute-ConfigStep_example =
    (execute-ConfigStep exact_cw sample_calls sample_calls-AreChecked (at_time 150) (from_sender 3)
        claim_ownership_msg store_with_proposal).holds
      (store_with_owner 3, []) execute_takes_over

account-IsAcceptable : All (IsAcceptable exact_cw) (account ∷ [])
account-IsAcceptable = (record { known = refl; valid = schedule-IsValid }, tt)

register_accepts_example :
    (r : Store × List Transfer) × (register_vesting_accounts exact_cw
        (account ∷ [])
        (sum_of account_grant (account ∷ []))
        (store_after 500)
      ≡ ok r)
    × ((state_of r.0).total_granted ≡ 2000)
register_accepts_example =
    register_accepts exact_cw (account ∷ []) (store_after 500) account-IsAcceptable (omega arith)

abbrev historical_store : Store
historical_store = record fresh_store {
  config = record (fresh_store.config) {
    extensions = record { historical = true; managed = true; with_managers = false };
  };
}

query_total_unclaimed_example :
    query_total_unclaimed_amount_at_height (store_after 500) historical_store
    ≡ ok (sum_values unclaimed (store_after 500).vesting_info)
query_total_unclaimed_example =
    query_total_unclaimed_lem (store_after 500) historical_store
      (store_after-IsSound 500 (omega arith)) refl

found_account : lookup 5 (store_after 500).vesting_info ≡ some (holding 500)
unfolding lookup
found_account = refl

query_unclaimed_example :
    query_unclaimed_amount_at_height exact_cw 5 (store_after 500) historical_store ≡ ok 500
query_unclaimed_example =
    query_unclaimed_lem exact_cw 5 (holding 500) (store_after 500) historical_store
      (store_after-IsSound 500 (omega arith)) refl refl found_account

claim-query_example :
    query_vesting_available_amount exact_cw (at_time 150) 5 (store_after 0) ≡ ok 500
claim-query_example =
    claim-query exact_cw (at_time 150) (from_sender 5) none (store_after 0)
      (store_after 500, payment 500 ∷ []) refl claims_half
