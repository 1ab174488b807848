-- ===== src/Vesting/Flow/Managed.antt =====
-- A removal pays back what is granted and not released, account by account.
use neutron_tge_contracts.Prelude.{
  ℕ, ◌+◌, ◌≡◌, refl, Option, none, some, List, [], ◌∷◌, arith, sum_of-append,
}
use neutron_tge_contracts.Prelude.Map.{lookup, sum-erase, AllValues-erase}
use neutron_tge_contracts.Prelude.Result.{Ensures, Ensures-bind, Ensures-mono, Ensures-pure}
use neutron_tge_contracts.Cosmwasm.{Addr, Cosmwasm, MessageInfo}
use neutron_tge_contracts.Vesting.Types.{AssetInfo, VestingInfo, Store, Transfer}
use neutron_tge_contracts.Vesting.Managed.{
  claw_back, claw_back_found, remove_accounts, remove_vesting_accounts, handle_execute_managed_msg,
}
use neutron_tge_contracts.Vesting.Register.Totals.{add_granted_lem}
use neutron_tge_contracts.Vesting.Invariant.{granted_to, released_to, IsCovered, state_of, IsSound}
use neutron_tge_contracts.Vesting.Flow.{Flows, paid}

-- `Flows` for a loop that has already built the messages `before`.
pub record Pays (before : List Transfer) (s : Store) (result : Store × List Transfer) : Type 0 where
  pub sound : IsSound result.0
  pub balance :
      (state_of result.0).total_granted + (state_of s).total_released + paid result.1
      ≡ (state_of s).total_granted + (state_of result.0).total_released + paid before

claw_back-Pays :
    (asset : AssetInfo) (recipient address : Addr) (info : VestingInfo) (s : Store)
    (before : List Transfer)
    → IsSound s
    → lookup address s.vesting_info ≡ some info
    → Ensures (Pays before s) (claw_back asset recipient address info s before)
unfolding claw_back
claw_back-Pays asset recipient address info s before sound known = Ensures-bind λ total e.
    Ensures-bind λ amount e'. Ensures-bind λ state e''. Ensures-bind λ granted_left h.
      Ensures-bind λ released_left h'.
        let transfer : Transfer = record {
          asset = asset;
          amount = amount;
          recipient = recipient;
        } in
        let grant = add_granted_lem 0 info.schedules total e in
        let less_granted = sum-erase granted_to address info s.vesting_info known in
        let less_released = sum-erase released_to address info s.vesting_info known in
        Ensures-pure (record {
          sound = record {
            granted_total = ground (arith, grant, less_granted, sound.granted_total);
            released_total = ground (arith, less_released, sound.released_total);
            accounts = AllValues-erase IsCovered address s.vesting_info sound.accounts;
            in_range = ground (arith, sound.in_range);
          };
          balance =
              ground (arith, sum_of-append (λ (t : Transfer). t.amount) before (transfer ∷ []));
        })

claw_back_found-Pays :
    (asset : AssetInfo) (recipient address : Addr) (found : Option VestingInfo) (s : Store)
    (before : List Transfer)
    → IsSound s
    → lookup address s.vesting_info ≡ found
    → Ensures (Pays before s) (claw_back_found asset recipient address found s before)
claw_back_found-Pays asset recipient address none s before sound known =
    Ensures-pure (record { sound = sound; balance = omega arith })
claw_back_found-Pays asset recipient address (some info) s before sound known =
    claw_back-Pays asset recipient address info s before sound known

remove_accounts-Pays :
    (cw : Cosmwasm) (asset : AssetInfo) (recipient : Addr) (accounts : List ℕ) (s : Store)
    (before : List Transfer)
    → IsSound s
    → Ensures (Pays before s) (remove_accounts cw asset recipient accounts s before)
unfolding remove_accounts
remove_accounts-Pays cw asset recipient [] s before sound =
    Ensures-pure (record { sound = sound; balance = omega arith })
remove_accounts-Pays cw asset recipient (account ∷ rest) s before sound = Ensures-bind λ address _.
    Ensures-bind λ (s', before') e.
      let found = lookup address s.vesting_info in
      let first =
        (claw_back_found-Pays asset recipient address found s before sound refl).holds (s', before')
          e in
      Ensures-mono
        (λ r later. record {
          sound = later.sound;
          balance = omega (arith, first.balance, later.balance);
        })
        (remove_accounts-Pays cw asset recipient rest s' before' first.sound)

pub managed-Flows :
    (cw : Cosmwasm) (info : MessageInfo) (accounts : List ℕ) (clawback_account : ℕ) (s : Store)
    → IsSound s
    → Ensures (Flows 0 s) (handle_execute_managed_msg cw info accounts clawback_account s)
unfolding handle_execute_managed_msg remove_vesting_accounts
managed-Flows cw info accounts clawback_account s sound = Ensures-bind λ _ _. Ensures-bind λ _ _.
    Ensures-bind λ vesting_token _. Ensures-bind λ recipient _.
      Ensures-mono (λ r pays. record { sound = pays.sound; balance = omega (arith, pays.balance) })
        (remove_accounts-Pays cw vesting_token recipient accounts s [] sound)
