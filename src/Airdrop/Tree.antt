-- ===== src/Airdrop/Tree.antt =====
-- The Merkle tree that the root stands for: whoever is in it can claim.
use neutron_tge_contracts.Prelude.{
  ℕ, ◌+◌, ◌≤◌, ◌≡◌, refl, ap, ◌∙◌, true, false, none, some, List, [], ◌∷◌, ◌++◌, arith, ◌==◌, leb,
  ltb,
}
use neutron_tge_contracts.Prelude.Map.{lookup, lookup-insert}
use neutron_tge_contracts.Prelude.Result.{
  ok, ◌>>=◌, >>=-eq-ok, ok_or, ok_or-eq-ok, Yields, Yields-bind, Yields-pure, u64_max, u128_max,
}
use neutron_tge_contracts.Cosmwasm.{Addr, Cosmwasm, MessageInfo, Env}
use neutron_tge_contracts.Airdrop.Types.{Store, wrong_hex, Msg, transfer, add_vesting, Hashing}
use neutron_tge_contracts.Airdrop.Execute.{join, fold_proof, execute_claim}

pub data Tree : Type 0 where
  leaf : Addr → ℕ → Tree
  node : Tree → Tree → Tree

module _ (cw : Cosmwasm) (hashing : Hashing) where
  unfoldable pub root_hash : Tree → ℕ
  root_hash (leaf recipient amount) = hashing.digest_claim recipient amount
  root_hash (node left right) = join cw hashing (root_hash left) (root_hash right)

  -- The texts are the hashes of the siblings on the way from a leaf to the root.
  pub data LeadsUp (recipient amount : ℕ) : Tree → List ℕ → Type 0 where
    at_leaf : LeadsUp recipient amount (leaf recipient amount) []
    from_left :
        (left right : Tree) (proof : List ℕ) (sibling : ℕ)
        → LeadsUp recipient amount left proof
        → hashing.decode sibling ≡ some (root_hash right)
        → LeadsUp recipient amount (node left right) (proof ++ sibling ∷ [])
    from_right :
        (left right : Tree) (proof : List ℕ) (sibling : ℕ)
        → LeadsUp recipient amount right proof
        → hashing.decode sibling ≡ some (root_hash left)
        → LeadsUp recipient amount (node left right) (proof ++ sibling ∷ [])

  join_comm : (a b : ℕ) → join cw hashing a b ≡ join cw hashing b a
  join_comm a b = ground arith

  fold-step :
      (hash : ℕ) (proof : List ℕ) (sibling top other : ℕ)
      → fold_proof cw hashing hash proof ≡ ok top
      → hashing.decode sibling ≡ some other
      → fold_proof cw hashing hash (proof ++ sibling ∷ []) ≡ ok (join cw hashing top other)
  unfolding fold_proof ◌>>=◌
  fold-step hash [] sibling top other h d = let same : hash ≡ top = cc in rw (d, same) refl
  fold-step hash (p ∷ proof) sibling top other h d =
      let (b, e, rest) =
        >>=-eq-ok (ok_or wrong_hex (hashing.decode p))
          (λ proof_buf. fold_proof cw hashing (join cw hashing hash proof_buf) proof) h in
      rw (ok_or-eq-ok wrong_hex (hashing.decode p) e)
        (fold-step (join cw hashing hash b) proof sibling top other rest d)

  -- The proof leads from the leaf to the root.
  LeadsUp-fold :
      (recipient amount : ℕ) (tree : Tree) (proof : List ℕ)
      → LeadsUp recipient amount tree proof
      → fold_proof cw hashing (hashing.digest_claim recipient amount) proof ≡ ok (root_hash tree)
  unfolding fold_proof root_hash
  LeadsUp-fold recipient amount _ _ at_leaf = refl
  LeadsUp-fold recipient amount _ _ (from_left left right proof sibling h d) =
      fold-step (hashing.digest_claim recipient amount) proof sibling (root_hash left)
        (root_hash right) (LeadsUp-fold recipient amount left proof h) d
  LeadsUp-fold recipient amount _ _ (from_right left right proof sibling h d) =
      fold-step (hashing.digest_claim recipient amount) proof sibling (root_hash right)
        (root_hash left) (LeadsUp-fold recipient amount right proof h) d
      ∙ ap ok (join_comm (root_hash right) (root_hash left))

  -- The storage and the messages of a claim.
  pub record IsPaidTo (info : MessageInfo) (amount : ℕ) (s : Store) (r : Store × List Msg)
      : Type 0 where
    pub messages :
        r.1
        ≡ transfer s.config.credits_address info.sender amount
          ∷ add_vesting s.config.credits_address info.sender amount s.vesting_start
              s.vesting_duration
          ∷ []
    pub is_claimed : lookup info.sender r.0.claims ≡ some true
    pub more_claimed : r.0.amount_claimed ≡ s.amount_claimed + amount

  -- The airdrop is open: from its start to the end of the vesting, and not paused.
  pub record IsRunning (now : ℕ) (s : Store) : Type 0 where
    pub is_begun : s.airdrop_start ≤ now
    pub is_not_over : now ≤ s.vesting_start + s.vesting_duration
    pub in_range : s.vesting_start + s.vesting_duration ≤ u64_max
    pub is_not_paused : s.paused ≡ false

  -- Let the stored root be that of a tree, and the airdrop be open. Then a claim succeeds for each
  -- leaf of the tree whose address is the sender's and has not claimed, with the proof made of the
  -- siblings on the way to the root, unless the sum of what is claimed would leave 128 bits. It
  -- sends the amount of the leaf, sets up its vesting by the schedule of the airdrop, records the
  -- address and counts the amount.
  pub claim_available :
      (env : Env) (info : MessageInfo) (amount : ℕ) (tree : Tree) (proof : List ℕ) (s : Store)
      → hashing.decode s.merkle_root ≡ some (root_hash tree)
      → LeadsUp info.sender amount tree proof
      → IsRunning env.time s
      → lookup info.sender s.claims ≡ none
      → s.amount_claimed + amount ≤ u128_max
      → Yields (IsPaidTo info amount s) (execute_claim cw hashing env info amount proof s)
  unfolding execute_claim
  claim_available env info amount tree proof s rooted h running new fits =
      let begun : ltb env.time s.airdrop_start ≡ false = ground (arith, running.is_begun) in
      let expiration = s.vesting_start + s.vesting_duration in
      let in_range : leb expiration u64_max ≡ true = ground (arith, running.in_range) in
      let open_still : ltb expiration env.time ≡ false = ground (arith, running.is_not_over) in
      let same : (root_hash tree == root_hash tree) ≡ true = ground arith in
      let counted : leb (s.amount_claimed + amount) u128_max ≡ true = ground (arith, fits) in
      Yields-bind _ tt (rw begun refl) (
        Yields-bind _ expiration (rw in_range refl) (
          Yields-bind _ tt (rw open_still refl) (
            Yields-bind _ tt (rw running.is_not_paused refl) (
              Yields-bind _ tt (rw new refl) (
                Yields-bind _ (root_hash tree) (LeadsUp-fold info.sender amount tree proof h) (
                  Yields-bind _ (root_hash tree) (rw rooted refl) (
                    Yields-bind _ tt (rw same refl) (
                      Yields-bind _ (s.amount_claimed + amount) (rw counted refl) (
                        Yields-pure (record {
                          messages = refl;
                          is_claimed =
                              ground (arith, lookup-insert info.sender info.sender true s.claims);
                          more_claimed = refl;
                        }))))))))))
