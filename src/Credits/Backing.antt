-- ===== src/Credits/Backing.antt =====
-- Every cNTRN is backed by an untrn that the contract holds.
use neutron_tge_contracts.Prelude.{
  ℕ, ◌+◌, ◌≤◌, ◌≡◌, List, [], ◌∷◌, arith, sum_of, ◌==◌, if◌then◌else◌,
}
use neutron_tge_contracts.Prelude.Result.{
  ok, ◌>>=◌, ok_or-eq-ok, Ensures, Ensures-bind, Ensures-pure,
}
use neutron_tge_contracts.Cosmwasm.{Denom, Coin, Cosmwasm, MessageInfo, Env}
use neutron_tge_contracts.Credits.Types.{
  ExecuteMsg, update_config, add_vesting, transfer, withdraw, burn, burn_from, mint, Payment, Store,
  cw20_error,
}
use neutron_tge_contracts.Credits.Token.{Cw20, IsToken}
use neutron_tge_contracts.Credits.Handlers.{
  try_find_untrns, burn_and_send, execute_update_config, execute_add_vesting, execute_transfer,
  execute_withdraw, execute_burn, execute_burn_from, execute_mint,
}
use neutron_tge_contracts.Credits.Execute.{execute}

abbrev pub untrn_in : Denom → List Coin → ℕ
untrn_in untrn = sum_of (λ (c : Coin). if c.denom == untrn then c.amount else 0)

abbrev pub paid : List Payment → ℕ
paid = sum_of (λ p. p.amount)

find_untrns-le-untrn_in :
    (untrn : Denom) (funds : List Coin) (amount : ℕ)
    → try_find_untrns untrn funds ≡ ok amount
    → amount ≤ untrn_in untrn funds
unfolding ◌>>=◌
find_untrns-le-untrn_in untrn [] amount h = cc
find_untrns-le-untrn_in untrn (coin ∷ rest) amount h = ground arith

module _ {Token : Type 0} (cw : Cosmwasm) (cw20 : Cw20 Token) (untrn : Denom)
    (laws : IsToken cw20) where
  -- What is minted is covered by untrn that comes in, and what goes out is burnt.
  abbrev pub IsBacked : ℕ → Store Token → Store Token × List Payment → Type 0
  IsBacked received s r =
      cw20.total_supply r.0.token + paid r.1 ≤ cw20.total_supply s.token + received

  burn_and_send-IsBacked :
      (info : MessageInfo) (amount received : ℕ) (s : Store Token)
      → Ensures (IsBacked received s) (burn_and_send cw cw20 untrn info amount s)
  unfolding burn_and_send
  burn_and_send-IsBacked info amount received s = Ensures-bind λ token e.
      let burnt =
        laws.burn_supply info amount s.token token
          (ok_or-eq-ok cw20_error (cw20.execute_burn info amount s.token) e) in
      Ensures-pure (omega (arith, burnt))

  -- Whatever the message: if the call succeeds, the supply of cNTRN and the untrn paid out are
  -- together at most the supply before it and the untrn that came with it.
  pub execute-IsBacked :
      (env : Env) (info : MessageInfo) (msg : ExecuteMsg) (s : Store Token)
      → Ensures (IsBacked (untrn_in untrn info.funds) s) (execute cw cw20 untrn env info msg s)
  unfolding execute
  execute-IsBacked env info (update_config config) s =
      unfold execute_update_config in
      Ensures-bind λ _ _. Ensures-bind λ _ _. Ensures-bind λ _ _. Ensures-pure (omega arith)
  execute-IsBacked env info (add_vesting address amount start_time duration) s =
      unfold execute_add_vesting in
      Ensures-bind λ _ _. Ensures-bind λ _ _. Ensures-bind λ _ _.
        Ensures-bind λ _ _. Ensures-bind λ _ _. Ensures-bind λ _ _. Ensures-pure (omega arith)
  execute-IsBacked env info (transfer recipient amount) s =
      unfold execute_transfer in
      Ensures-bind λ _ _. Ensures-bind λ _ _. Ensures-bind λ token e.
        let same =
          laws.transfer_supply info recipient amount s.token token
            (ok_or-eq-ok cw20_error (cw20.execute_transfer info recipient amount s.token) e) in
        Ensures-pure (omega (arith, same))
  execute-IsBacked env info withdraw s =
      unfold execute_withdraw in
      Ensures-bind λ _ _. Ensures-bind λ _ _. Ensures-bind λ allocation _.
        Ensures-bind λ max_amount _. Ensures-bind λ _ _. Ensures-bind λ balance _.
          Ensures-bind λ _ _. Ensures-bind λ withdrawn _. burn_and_send-IsBacked info _ _ _
  execute-IsBacked env info (burn amount) s =
      unfold execute_burn in
      Ensures-bind λ _ _. Ensures-bind λ _ _. burn_and_send-IsBacked info amount _ s
  execute-IsBacked env info (burn_from owner amount) s =
      unfold execute_burn_from in
      Ensures-bind λ _ _. Ensures-bind λ _ _.
        Ensures-bind λ sender _. burn_and_send-IsBacked (record info { sender = sender }) amount _ s
  execute-IsBacked env info mint s =
      unfold execute_mint in
      Ensures-bind λ untrn_amount found. Ensures-bind λ recipient _. Ensures-bind λ token e.
        let minted =
          laws.mint_supply info recipient untrn_amount s.token token
            (ok_or-eq-ok cw20_error (cw20.execute_mint info recipient untrn_amount s.token) e) in
        Ensures-pure
          (omega (arith, minted, find_untrns-le-untrn_in untrn info.funds untrn_amount found))
