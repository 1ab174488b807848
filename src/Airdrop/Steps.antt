-- ===== src/Airdrop/Steps.antt =====
-- What a message of the airdrop does to the claims: nothing, or one proved payment.
use neutron_tge_contracts.Prelude.{
  ℕ, ◌+◌, ◌≡◌, refl, true, false, Option, none, some, List, [], ◌∷◌, arith, ◌⊎◌, inl, inr, is_some,
}
use neutron_tge_contracts.Prelude.Map.{lookup, insert}
use neutron_tge_contracts.Prelude.Result.{
  ok, ok_or-eq-ok, Ensures, Ensures-bind, Ensures-mono, Ensures-pure,
}
use neutron_tge_contracts.Cosmwasm.{Addr, Denom, Cosmwasm, MessageInfo, Env}
use neutron_tge_contracts.Airdrop.Types.{
  Store, wrong_hex, ExecuteMsg, claim, withdraw_all, pause, resume, update_reserve, Msg, transfer,
  add_vesting, burn, bank_send, Hashing,
}
use neutron_tge_contracts.Airdrop.Execute.{
  fold_proof, execute_claim, execute_withdraw_all, execute_update_reserve, execute_pause,
  execute_resume, execute,
}

-- The transfers of credits among the messages, with their recipients.
abbrev pub transfers_of : List Msg → List (Addr × ℕ)
transfers_of [] = []
transfers_of (transfer credits recipient amount ∷ messages) =
    (recipient, amount) ∷ transfers_of messages
transfers_of (add_vesting credits address amount start duration ∷ messages) = transfers_of messages
transfers_of (burn credits amount ∷ messages) = transfers_of messages
transfers_of (bank_send recipient denom amount ∷ messages) = transfers_of messages

module _ (cw : Cosmwasm) (hashing : Hashing) where
  -- Some proof leads from the claim to the bytes of the root.
  pub record IsProved (root : ℕ) (recipient amount : ℕ) : Type 0 where
    pub proof : List ℕ
    pub bytes : ℕ
    pub decoded : hashing.decode root ≡ some bytes
    pub leads : fold_proof cw hashing (hashing.digest_claim recipient amount) proof ≡ ok bytes

  pub record IsQuiet (s : Store) (r : Store × List Msg) : Type 0 where
    pub same_root : r.0.merkle_root ≡ s.merkle_root
    pub no_transfers : transfers_of r.1 ≡ []
    pub same_claims : r.0.claims ≡ s.claims
    pub same_amount : r.0.amount_claimed ≡ s.amount_claimed

  pub record PaysOne (s : Store) (r : Store × List Msg) : Type 0 where
    pub recipient : Addr
    pub amount : ℕ
    pub same_root : r.0.merkle_root ≡ s.merkle_root
    pub one_transfer : transfers_of r.1 ≡ (recipient, amount) ∷ []
    pub is_new : lookup recipient s.claims ≡ none
    pub is_proved : IsProved s.merkle_root recipient amount
    pub more_claims : r.0.claims ≡ insert recipient true s.claims
    pub more_amount : r.0.amount_claimed ≡ amount + s.amount_claimed

  unset_of_not : {A : Type 0} (o : Option A) → is_some o ≡ false → o ≡ none
  unset_of_not none h = refl
  unset_of_not (some a) h = cc

  execute_claim-PaysOne :
      (env : Env) (info : MessageInfo) (amount : ℕ) (proof : List ℕ) (s : Store)
      → Ensures (PaysOne s) (execute_claim cw hashing env info amount proof s)
  unfolding execute_claim
  execute_claim-PaysOne env info amount proof s = Ensures-bind λ _ _. Ensures-bind λ _ _.
      Ensures-bind λ _ _. Ensures-bind λ _ _. Ensures-bind λ _ new. Ensures-bind λ hash e.
        Ensures-bind λ root_buf d. Ensures-bind λ _ same. Ensures-bind λ claimed_amount c.
          let is_root : root_buf ≡ hash = ground (arith, same) in
          Ensures-pure (record {
            recipient = info.sender;
            amount = amount;
            same_root = refl;
            one_transfer = refl;
            is_new = unset_of_not (lookup info.sender s.claims) (ground (arith, new));
            is_proved = record {
              proof = proof;
              bytes = hash;
              decoded = ok_or-eq-ok wrong_hex (hashing.decode s.merkle_root) (rw is_root at d);
              leads = e;
            };
            more_claims = refl;
            more_amount = ground arith;
          })

  pub execute-Steps :
      (balance : Addr → Option ℕ) (untrn : Denom) (env : Env) (info : MessageInfo)
      (msg : ExecuteMsg) (s : Store)
      → Ensures (λ r. IsQuiet s r ⊎ PaysOne s r) (execute cw hashing balance untrn env info msg s)
  unfolding execute
  execute-Steps balance untrn env info (claim amount proof) s =
      Ensures-mono (λ r c. inr c) (execute_claim-PaysOne env info amount proof s)
  execute-Steps balance untrn env info withdraw_all s =
      unfold execute_withdraw_all in
      Ensures-bind λ _ _. Ensures-bind λ _ _. Ensures-bind λ _ _. Ensures-bind λ _ _.
        Ensures-bind λ _ _. Ensures-pure (
          inl (record {
            same_root = refl;
            no_transfers = refl;
            same_claims = refl;
            same_amount = refl;
          }))
  execute-Steps balance untrn env info pause s =
      unfold execute_pause in
      Ensures-bind λ _ _. Ensures-bind λ _ _. Ensures-bind λ _ _. Ensures-bind λ _ _. Ensures-pure (
        inl (record {
          same_root = refl;
          no_transfers = refl;
          same_claims = refl;
          same_amount = refl;
        }))
  execute-Steps balance untrn env info resume s =
      unfold execute_resume in
      Ensures-bind λ _ _. Ensures-bind λ _ _. Ensures-bind λ _ _. Ensures-bind λ _ _.
        Ensures-bind λ _ _. Ensures-pure (
          inl (record {
            same_root = refl;
            no_transfers = refl;
            same_claims = refl;
            same_amount = refl;
          }))
  execute-Steps balance untrn env info (update_reserve address) s =
      unfold execute_update_reserve in
      Ensures-bind λ _ _. Ensures-bind λ _ _. Ensures-pure (
        inl (record {
          same_root = refl;
          no_transfers = refl;
          same_claims = refl;
          same_amount = refl;
        }))
