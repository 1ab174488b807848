-- ===== src/Vesting/Claim/Payout.antt =====
-- What a claim pays, to whom, and what it leaves for the next one.
use neutron_tge_contracts.Prelude.{
  ℕ, ◌+◌, ◌≤◌, ◌≡◌, refl, true, false, Option, none, some, List, [], ◌∷◌, arith, ◌==◌, unwrap_or,
  if◌then◌else◌,
}
use neutron_tge_contracts.Prelude.Map.{lookup, lookup-insert}
use neutron_tge_contracts.Prelude.Result.{
  ok, ◌>>=◌, ok_or-eq-ok, Ensures, Ensures-bind, Ensures-if, Ensures-pure,
}
use neutron_tge_contracts.Cosmwasm.{Addr, Cosmwasm, MessageInfo, Env}
use neutron_tge_contracts.Vesting.Types.{
  AssetInfo, VestingInfo, Store, Transfer, std_error, vesting_token_is_not_set,
}
use neutron_tge_contracts.Vesting.Amounts.{compute_available_amount}
use neutron_tge_contracts.Vesting.Claim.{choose_amount, pay_claim, claim}

-- The claim of `amount` out of `available`: nothing is written or sent if the amount is 0, and
-- otherwise one transfer goes out and the sender's release and the total grow by it.
pub record Claims (asset : AssetInfo) (sender recipient amount : ℕ) (info : VestingInfo) (s : Store)
    (r : Store × List Transfer) : Type 0 where
  pub transfers : r.1 ≡ (
      if amount == 0
      then []
      else record { asset = asset; amount = amount; recipient = recipient } ∷ [])
  pub own_account :
      lookup sender r.0.vesting_info
      ≡ some (record info { released_amount = info.released_amount + amount })
  pub other_accounts :
      (j : Addr) → (j == sender) ≡ false → lookup j r.0.vesting_info ≡ lookup j s.vesting_info
  pub same_config : r.0.config ≡ s.config

nothing-Claims :
    (asset : AssetInfo) (sender recipient amount : ℕ) (info : VestingInfo) (s : Store)
    → lookup sender s.vesting_info ≡ some info
    → (amount == 0) ≡ true
    → Claims asset sender recipient amount info s (s, [])
nothing-Claims asset sender recipient amount info s known zero_amount =
    let e : amount ≡ 0 = ground arith in
    record {
      transfers = rw zero_amount refl;
      own_account = rw e (ground (arith, known));
      other_accounts = λ j _. refl;
      same_config = refl;
    }

pay_claim-Claims :
    (asset : AssetInfo) (sender recipient amount : ℕ) (info : VestingInfo) (s : Store)
    → (amount == 0) ≡ false
    → Ensures (Claims asset sender recipient amount info s) (
        pay_claim sender amount info
          (record { asset = asset; amount = amount; recipient = recipient })
          s)
unfolding pay_claim
pay_claim-Claims asset sender recipient amount info s positive = Ensures-bind λ released e.
    Ensures-bind λ state _. Ensures-bind λ total _.
      let info' : VestingInfo = record info { released_amount = released } in
      let sum : released ≡ info.released_amount + amount = ground arith in
      Ensures-pure (record {
        transfers = rw positive refl;
        own_account = ground (arith, lookup-insert sender sender info' s.vesting_info);
        other_accounts = λ j differs. ground (arith, lookup-insert sender j info' s.vesting_info);
        same_config = refl;
      })

abbrev pub ClaimsOf :
    Cosmwasm → Env → MessageInfo → Option ℕ → Option ℕ → Store → Store × List Transfer → Type 0
ClaimsOf cw env info recipient amount s r =
    (asset : AssetInfo) × (account : VestingInfo) × (available : ℕ) × (a : ℕ)
    × (s.config.vesting_token ≡ some asset)
    × (lookup info.sender s.vesting_info ≡ some account)
    × (compute_available_amount cw env.time account ≡ ok available)
    × (a ≡ unwrap_or available amount)
    × (a ≤ available)
    × Claims asset info.sender (unwrap_or info.sender recipient) a account s r

choose_amount_lem :
    (amount : Option ℕ) (available a : ℕ)
    → choose_amount amount available ≡ ok a
    → (a ≡ unwrap_or available amount) × (a ≤ available)
choose_amount_lem none available a h = ground arith
choose_amount_lem (some n) available a h = unfold ◌>>=◌ in ground arith

-- A successful claim pays the amount asked for, or all that is available if none is named, and
-- never more than is available. If the amount is not 0, one transfer of it goes to the recipient
-- named or else to the sender, and none otherwise. The sender's release grows by it; no other
-- account and nothing of the configuration changes.
pub claim-Claims :
    (cw : Cosmwasm) (env : Env) (info : MessageInfo) (recipient amount : Option ℕ) (s : Store)
    → Ensures (ClaimsOf cw env info recipient amount s) (claim cw env info recipient amount s)
unfolding claim
claim-Claims cw env info recipient amount s = Ensures-bind λ asset set.
    Ensures-bind λ account found. Ensures-bind λ available e. Ensures-bind λ a chosen.
      let known = ok_or-eq-ok std_error (lookup info.sender s.vesting_info) found in
      let named = ok_or-eq-ok vesting_token_is_not_set s.config.vesting_token set in
      let (which, within) = choose_amount_lem amount available a chosen in
      let to = unwrap_or info.sender recipient in
      Ensures-if (a == 0)
        (λ z. Ensures-pure (
          asset,
          account,
          available,
          a,
          named,
          known,
          e,
          which,
          within,
          nothing-Claims asset info.sender to a account s known z,
        ))
        λ positive. record {
          holds = λ r done. (
            asset,
            account,
            available,
            a,
            named,
            known,
            e,
            which,
            within,
            (pay_claim-Claims asset info.sender to a account s positive).holds r done,
          );
        }
