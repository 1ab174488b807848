-- ===== src/Airdrop/Runs.antt =====
-- Runs of calls on the airdrop: who is paid, and how much.
use neutron_tge_contracts.Prelude.{
  ℕ, ◌≡◌, refl, sym, ◌∙◌, Bool, true, false, Option, none, some, List, [], ◌∷◌, ◌++◌, arith, ◌==◌,
  ◌⊎◌, inl, inr, All, sum_of, Bool-cases,
}
use neutron_tge_contracts.Prelude.Map.{Map, lookup, insert, lookup-insert}
use neutron_tge_contracts.Prelude.Result.{Result, ok, err, Ensures, Ensures-bind, Ensures-pure}
use neutron_tge_contracts.Cosmwasm.{Addr, Denom, Cosmwasm, MessageInfo, Env}
use neutron_tge_contracts.Airdrop.Types.{
  Store, AirdropError, InstantiateMsg, ExecuteMsg, Msg, Hashing,
}
use neutron_tge_contracts.Airdrop.Execute.{instantiate, execute}
use neutron_tge_contracts.Airdrop.Steps.{transfers_of, IsProved, IsQuiet, PaysOne, execute-Steps}

pub record Call : Type 0 where
  pub env : Env
  pub info : MessageInfo
  pub msg : ExecuteMsg

-- The storage, with all transfers so far, the last one first.
pub record Ledger : Type 0 where
  pub store : Store
  pub payments : List (Addr × ℕ)

abbrev pub opening : Store → Ledger
opening s = record { store = s; payments = [] }

abbrev pub commit : Ledger → Result AirdropError (Store × List Msg) → Ledger
commit l (ok (s, messages)) = record { store = s; payments = transfers_of messages ++ l.payments }
commit l (err e) = l

-- A call that fails changes nothing.
module _ (cw : Cosmwasm) (hashing : Hashing) (balance : Addr → Option ℕ) (untrn : Denom) where
  unfoldable pub run : List Call → Ledger → Ledger
  run [] l = l
  run (call ∷ rest) l =
      run rest (commit l (execute cw hashing balance untrn call.env call.info call.msg l.store))

module _ (cw : Cosmwasm) (hashing : Hashing) where
  abbrev pub PaidOnce : List (Addr × ℕ) → Type 0
  PaidOnce [] = Unit
  PaidOnce (e ∷ payments) =
      All (λ (f : Addr × ℕ). (f.0 == e.0) ≡ false) payments × PaidOnce payments

  -- No address is paid twice, each payment is proved, and the payments sum to what is counted.
  pub record IsFair (root : ℕ) (l : Ledger) : Type 0 where
    pub same_root : l.store.merkle_root ≡ root
    pub total : sum_of (λ (e : Addr × ℕ). e.1) l.payments ≡ l.store.amount_claimed
    pub recorded : All (λ (e : Addr × ℕ). lookup e.0 l.store.claims ≡ some true) l.payments
    pub once : PaidOnce l.payments
    pub proved : All (λ (e : Addr × ℕ). IsProved cw hashing root e.0 e.1) l.payments

  recorded-insert :
      (a : Addr) (claims claims' : Map Bool) (payments : List (Addr × ℕ))
      → claims' ≡ insert a true claims
      → All (λ (e : Addr × ℕ). lookup e.0 claims ≡ some true) payments
      → All (λ (e : Addr × ℕ). lookup e.0 claims' ≡ some true) payments
  recorded-insert a claims claims' [] same h = tt
  recorded-insert a claims claims' (e ∷ payments) same h = (
    rw same (ground (arith, lookup-insert a e.0 true claims, h.0)),
    recorded-insert a claims claims' payments same h.1,
  )

  -- A new address is none of those that are recorded.
  new_address :
      (a : Addr) (claims : Map Bool) (payments : List (Addr × ℕ))
      → lookup a claims ≡ none
      → All (λ (e : Addr × ℕ). lookup e.0 claims ≡ some true) payments
      → All (λ (e : Addr × ℕ). (e.0 == a) ≡ false) payments
  new_address a claims [] new h = tt
  new_address a claims (e ∷ payments) new h = (
    elim (Bool-cases (e.0 == a)) [
      | inl here ↦ let same : e.0 ≡ a = ground arith in let found = h.0 in cc
      | inr there ↦ there
    ],
    new_address a claims payments new h.1,
  )

  commit-IsFair :
      (root : ℕ) (l : Ledger) (r : Result AirdropError (Store × List Msg))
      → Ensures (λ r. IsQuiet cw hashing l.store r ⊎ PaysOne cw hashing l.store r) r
      → IsFair root l
      → IsFair root (commit l r)
  commit-IsFair root l (err e) steps h = h
  commit-IsFair root l (ok (s, messages)) steps h = elim (steps.holds (s, messages) refl) [
    | inl q ↦ rw q.no_transfers (record {
      same_root = q.same_root ∙ h.same_root;
      total = h.total ∙ sym q.same_amount;
      recorded = rw q.same_claims h.recorded;
      once = h.once;
      proved = h.proved;
    })
    | inr c ↦ rw c.one_transfer (record {
      same_root = c.same_root ∙ h.same_root;
      total = omega (arith, h.total, c.more_amount);
      recorded = (
        rw c.more_claims
            (ground (arith, lookup-insert c.recipient c.recipient true l.store.claims)),
        recorded-insert c.recipient l.store.claims s.claims l.payments c.more_claims h.recorded,
      );
      once = (new_address c.recipient l.store.claims l.payments c.is_new h.recorded, h.once);
      proved = (rw h.same_root at c.is_proved, h.proved);
    })
  ]

  calls-IsFair :
      (balance : Addr → Option ℕ) (untrn : Denom) (root : ℕ) (calls : List Call) (l : Ledger)
      → IsFair root l
      → IsFair root (run cw hashing balance untrn calls l)
  unfolding run
  calls-IsFair balance untrn root [] l h = h
  calls-IsFair balance untrn root (call ∷ rest) l h = calls-IsFair balance untrn root rest _ (
      commit-IsFair root l _
        (execute-Steps cw hashing balance untrn call.env call.info call.msg l.store) h)

  instantiate-IsFair :
      (info : MessageInfo) (msg : InstantiateMsg)
      → Ensures (λ s. IsFair msg.merkle_root (opening s)) (instantiate cw hashing info msg)
  unfolding instantiate
  instantiate-IsFair info msg = Ensures-bind λ _ _. Ensures-bind λ _ _. Ensures-bind λ _ _.
      Ensures-bind λ _ _.
        Ensures-pure
          (record { same_root = refl; total = refl; recorded = tt; once = tt; proved = tt })

  -- Over any calls from an instantiation, from whomever and failing ones included: no address is
  -- paid twice, each payment is of an address and an amount that a proof leads from to the Merkle
  -- root of the instantiation, and the payments sum to the amount that the contract counts as
  -- claimed.
  pub run-IsFair :
      (balance : Addr → Option ℕ) (untrn : Denom) (info : MessageInfo) (msg : InstantiateMsg)
      (s : Store) (calls : List Call)
      → instantiate cw hashing info msg ≡ ok s
      → IsFair msg.merkle_root (run cw hashing balance untrn calls (opening s))
  run-IsFair balance untrn info msg s calls h =
      calls-IsFair balance untrn msg.merkle_root calls (opening s)
        ((instantiate-IsFair info msg).holds s h)
