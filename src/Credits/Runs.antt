-- ===== src/Credits/Runs.antt =====
-- A run of calls on the credits contract: a call that fails is rolled back and moves nothing.
use neutron_tge_contracts.Prelude.{ℕ, ◌+◌, ◌≤◌, ◌≡◌, refl, List, [], ◌∷◌, arith}
use neutron_tge_contracts.Prelude.Result.{Result, ok, err, Ensures, Ensures-bind, Ensures-pure}
use neutron_tge_contracts.Cosmwasm.{Denom, Cosmwasm, MessageInfo, Env}
use neutron_tge_contracts.Credits.Types.{CreditsError, ExecuteMsg, Payment, Store}
use neutron_tge_contracts.Credits.Token.{Cw20, IsToken}
use neutron_tge_contracts.Credits.Handlers.{instantiate}
use neutron_tge_contracts.Credits.Execute.{execute}
use neutron_tge_contracts.Credits.Backing.{untrn_in, paid, IsBacked, execute-IsBacked}

pub record Call : Type 0 where
  pub env : Env
  pub info : MessageInfo
  pub msg : ExecuteMsg

-- The storage, with the untrn that has come in and gone out.
pub record Ledger (Token : Type 0) : Type 0 where
  pub store : Store Token
  pub total_received : ℕ
  pub total_paid : ℕ

abbrev pub opening : {Token : Type 0} → Store Token → Ledger Token
opening s = record { store = s; total_received = 0; total_paid = 0 }

abbrev pub commit :
    {Token : Type 0}
    → Denom
    → Call
    → Ledger Token
    → Result CreditsError (Store Token × List Payment)
    → Ledger Token
commit untrn call l (ok (s, payments)) = record {
  store = s;
  total_received = l.total_received + untrn_in untrn call.info.funds;
  total_paid = l.total_paid + paid payments;
}
commit untrn call l (err e) = l

module _ {Token : Type 0} (cw : Cosmwasm) (cw20 : Cw20 Token) (untrn : Denom) where
  unfoldable pub run : List Call → Ledger Token → Ledger Token
  run [] l = l
  run (call ∷ rest) l =
      run rest (commit untrn call l (execute cw cw20 untrn call.env call.info call.msg l.store))

  abbrev pub IsSolvent : Ledger Token → Type 0
  IsSolvent l = cw20.total_supply l.store.token + l.total_paid ≤ l.total_received

module _ {Token : Type 0} (cw : Cosmwasm) (cw20 : Cw20 Token) (untrn : Denom)
    (laws : IsToken cw20) where
  commit-IsSolvent :
      (call : Call) (l : Ledger Token) (r : Result CreditsError (Store Token × List Payment))
      → Ensures (IsBacked cw cw20 untrn laws (untrn_in untrn call.info.funds) l.store) r
      → IsSolvent cw cw20 untrn l
      → IsSolvent cw cw20 untrn (commit untrn call l r)
  commit-IsSolvent call l (err e) backed h = h
  commit-IsSolvent call l (ok r) backed h = omega (arith, backed.holds r refl, h)

  run-IsSolvent :
      (calls : List Call) (l : Ledger Token)
      → IsSolvent cw cw20 untrn l
      → IsSolvent cw cw20 untrn (run cw cw20 untrn calls l)
  unfolding run
  run-IsSolvent [] l h = h
  run-IsSolvent (call ∷ rest) l h = run-IsSolvent rest _ (
      commit-IsSolvent call l _
        (execute-IsBacked cw cw20 untrn laws call.env call.info call.msg l.store) h)

  instantiate_supply :
      (dao : ℕ) → Ensures (λ s. cw20.total_supply s.token ≡ 0) (instantiate cw cw20 untrn dao)
  unfolding instantiate
  instantiate_supply dao = Ensures-bind λ addr _. Ensures-pure (laws.create_supply addr)

  -- From the instantiation on, over any calls in any order, failing ones included: the supply of
  -- cNTRN and the untrn paid out are together at most the untrn received, so that the contract
  -- holds at least one untrn for each cNTRN.
  pub run_backed :
      (dao : ℕ) (s : Store Token) (calls : List Call)
      → instantiate cw cw20 untrn dao ≡ ok s
      → let l = run cw cw20 untrn calls (opening s) in
        cw20.total_supply l.store.token + l.total_paid ≤ l.total_received
  run_backed dao s calls h =
      let empty = (instantiate_supply dao).holds s h in
      run-IsSolvent calls (opening s) (omega (arith, empty))
