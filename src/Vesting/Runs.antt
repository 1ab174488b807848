-- ===== src/Vesting/Runs.antt =====
-- A run of calls on the vesting library: a call that fails is rolled back and moves nothing.
use neutron_tge_contracts.Prelude.{ℕ, ◌+◌, ◌-◌, ◌≤◌, ◌≡◌, refl, none, List, [], ◌∷◌, arith}
use neutron_tge_contracts.Prelude.Map.{Map, sum_values, AllValues}
use neutron_tge_contracts.Prelude.Result.{Result, ok, err, Ensures}
use neutron_tge_contracts.Cosmwasm.{Cosmwasm, IsExact, MessageInfo, Env}
use neutron_tge_contracts.Vesting.Types.{VestingInfo, ContractError, Store, Transfer}
use neutron_tge_contracts.Vesting.Execute.{ExecuteMsg, Calls, AreChecked, execute}
use neutron_tge_contracts.Vesting.Invariant.{granted_to, released_to, IsCovered, state_of, IsSound}
use neutron_tge_contracts.Vesting.Flow.{Flows, paid}
use neutron_tge_contracts.Vesting.Flow.Execute.{received, execute-Flows}

pub record Call : Type 0 where
  pub env : Env
  pub info : MessageInfo
  pub msg : ExecuteMsg

-- The storage, with the vesting tokens that have come in and gone out.
pub record Ledger : Type 0 where
  pub store : Store
  pub total_received : ℕ
  pub total_paid : ℕ

abbrev pub commit : Call → Ledger → Result ContractError (Store × List Transfer) → Ledger
commit call l (ok (s, transfers)) = record {
  store = s;
  total_received = l.total_received + received l.store call.info call.msg;
  total_paid = l.total_paid + paid transfers;
}
commit call l (err e) = l

-- A storage before the first registration.
abbrev pub IsFresh : Store → Type 0
IsFresh s = (s.vesting_state ≡ none) × (s.vesting_info ≡ [])

abbrev pub opening : Store → Ledger
opening s = record { store = s; total_received = 0; total_paid = 0 }

pub record IsBalanced (l : Ledger) : Type 0 where
  pub sound : IsSound l.store
  pub balanced :
      (state_of l.store).total_granted + l.total_paid
      ≡ (state_of l.store).total_released + l.total_received

IsBalanced-opening : (s : Store) → IsFresh s → IsBalanced (opening s)
IsBalanced-opening s fresh = record {
  sound = record {
    granted_total = rw (fresh.0, fresh.1) refl;
    released_total = rw (fresh.0, fresh.1) refl;
    accounts = rw fresh.1 tt;
    in_range = rw fresh.0 (omega arith);
  };
  balanced = rw fresh.0 (omega arith);
}

pub released-le-granted :
    (m : Map VestingInfo)
    → AllValues IsCovered m
    → sum_values released_to m ≤ sum_values granted_to m
released-le-granted [] h = omega arith
released-le-granted ((k, v) ∷ m) h = omega (arith, h.0.covered, released-le-granted m h.1)

module _ (cw : Cosmwasm) (exact : IsExact cw) (calls : Calls) (checked : AreChecked calls) where
  unfoldable pub run : List Call → Ledger → Ledger
  run [] l = l
  run (call ∷ rest) l =
      run rest (commit call l (execute cw calls call.env call.info call.msg l.store))

  commit-IsBalanced :
      (call : Call) (l : Ledger) (r : Result ContractError (Store × List Transfer))
      → Ensures (Flows (received l.store call.info call.msg) l.store) r
      → IsBalanced l
      → IsBalanced (commit call l r)
  commit-IsBalanced call l (err e) flows h = h
  commit-IsBalanced call l (ok r) flows h =
      let step = flows.holds r refl in
      record { sound = step.sound; balanced = omega (arith, step.balance, h.balanced) }

  run-IsBalanced : (calls : List Call) (l : Ledger) → IsBalanced l → IsBalanced (run calls l)
  unfolding run
  run-IsBalanced [] l h = h
  run-IsBalanced (call ∷ rest) l h = run-IsBalanced rest _ (
      commit-IsBalanced call l _
        (execute-Flows cw exact calls checked call.env call.info call.msg l.store h.sound) h)

  -- From a storage with no registration, over any calls in any order, failing ones included: the
  -- tokens received are those paid out and those owed, which are the grants less the releases
  -- summed over the accounts; and no account is released more than it is granted in all. Received
  -- is, at each call, what the contract of the vesting token that is stored then reports, or the
  -- coins of its denomination that come with a registration; what any other contract reports and
  -- any other coin counts as nothing.
  pub run_solvent :
      (calls : List Call) (s : Store)
      → IsFresh s
      → let l = run calls (opening s) in
        (l.total_received
          ≡ l.total_paid
            + (sum_values granted_to l.store.vesting_info
                - sum_values released_to l.store.vesting_info))
        × (sum_values released_to l.store.vesting_info ≤ sum_values granted_to l.store.vesting_info)
        × AllValues IsCovered l.store.vesting_info
  run_solvent calls s fresh =
      let h = run-IsBalanced calls (opening s) (IsBalanced-opening s fresh) in
      let l = run calls (opening s) in
      let below = released-le-granted l.store.vesting_info h.sound.accounts in
      (
        omega (arith, h.balanced, h.sound.granted_total, h.sound.released_total, below),
        below,
        h.sound.accounts,
      )
