-- ===== src/Vesting/Flow/Claim.antt =====
-- A claim pays what it records as released.
use neutron_tge_contracts.Prelude.{
  ℕ, ◌+◌, ◌≤◌, ◌≡◌, refl, Option, none, some, arith, ◌==◌, unwrap_or,
}
use neutron_tge_contracts.Prelude.Map.{
  lookup, sum-insert, measure-le-sum, AllValues-lookup, AllValues-insert,
}
use neutron_tge_contracts.Prelude.Result.{
  ok, ◌>>=◌, ok_or-eq-ok, Ensures, Ensures-bind, Ensures-if, Ensures-pure, u128_max,
}
use neutron_tge_contracts.Cosmwasm.{Addr, Cosmwasm, IsExact, MessageInfo, Env}
use neutron_tge_contracts.Vesting.Types.{VestingInfo, Store, Transfer, std_error}
use neutron_tge_contracts.Vesting.Amounts.Laws.{available-le-granted}
use neutron_tge_contracts.Vesting.Claim.{choose_amount, pay_claim, claim}
use neutron_tge_contracts.Vesting.Invariant.{granted_to, released_to, IsCovered, IsSound}
use neutron_tge_contracts.Vesting.Flow.{Flows}

pub choose_amount-le :
    (amount : Option ℕ) (available a : ℕ) → choose_amount amount available ≡ ok a → a ≤ available
choose_amount-le none available a h = ground arith
choose_amount-le (some n) available a h = unfold ◌>>=◌ in ground arith

module _ (sender : Addr) (amount : ℕ) (info : VestingInfo) (transfer : Transfer) (s : Store)
    (sound : IsSound s) (known : lookup sender s.vesting_info ≡ some info)
    (within : amount + info.released_amount ≤ granted_to info)
    (agrees : transfer.amount ≡ amount) where
  pub pay_claim-Flows : Ensures (Flows 0 s) (pay_claim sender amount info transfer s)
  unfolding pay_claim
  pay_claim-Flows = Ensures-bind λ released e. Ensures-bind λ state e'. Ensures-bind λ total e''.
      let info' : VestingInfo = record info { released_amount = released } in
      let old = AllValues-lookup IsCovered sender info s.vesting_info sound.accounts known in
      Ensures-pure (record {
        sound = record {
          granted_total = ground (
            arith,
            known,
            sum-insert granted_to sender info' s.vesting_info,
            sound.granted_total,
          );
          released_total = ground (
            arith,
            known,
            sum-insert released_to sender info' s.vesting_info,
            sound.released_total,
          );
          accounts =
              AllValues-insert IsCovered sender info' s.vesting_info
                (record { valid = old.valid; covered = ground arith }) sound.accounts;
          in_range = ground arith;
        };
        balance = ground arith;
      })

pub claim-Flows :
    (cw : Cosmwasm)
    → IsExact cw
    → (env : Env) (info : MessageInfo) (recipient amount : Option ℕ) (s : Store) → IsSound s
    → Ensures (Flows 0 s) (claim cw env info recipient amount s)
unfolding claim
claim-Flows cw exact env info recipient amount s sound = Ensures-bind λ vesting_token _.
    Ensures-bind λ sender_info found. Ensures-bind λ available e.
      Ensures-bind λ claim_amount chosen.
        let known = ok_or-eq-ok std_error (lookup info.sender s.vesting_info) found in
        let old =
          AllValues-lookup IsCovered info.sender sender_info s.vesting_info sound.accounts known in
        let part = measure-le-sum granted_to info.sender sender_info s.vesting_info known in
        let fits : granted_to sender_info ≤ u128_max =
          omega (arith, part, sound.granted_total, sound.in_range) in
        Ensures-if (claim_amount == 0)
          (λ _. Ensures-pure (record { sound = sound; balance = omega arith }))
          λ _.
            pay_claim-Flows info.sender claim_amount sender_info
              (record {
                asset = vesting_token;
                amount = claim_amount;
                recipient = unwrap_or info.sender recipient;
              })
              s sound known
              (omega (
                arith,
                choose_amount-le amount available claim_amount chosen,
                available-le-granted cw exact sender_info old.valid fits env.time available e,
              ))
              refl
