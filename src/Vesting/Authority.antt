-- ===== src/Vesting/Authority.antt =====
-- Who may change the configuration, and how.
use neutron_tge_contracts.Prelude.{
  ℕ, ◌≤◌, ◌≡◌, refl, ap, ◌⊎◌, Option, none, some, List, [], ◌∷◌, arith, ◌==◌,
}
use neutron_tge_contracts.Prelude.Map.{lookup}
use neutron_tge_contracts.Prelude.Result.{
  Result, Ensures, Ensures-bind, Ensures-if, Ensures-mono, Ensures-pure, Ensures-fail,
}
use neutron_tge_contracts.Cosmwasm.{Addr, Cosmwasm, MessageInfo, Env}
use neutron_tge_contracts.Vesting.Types.{
  AssetInfo, token, native_token, VestingAccount, VestingInfo, OwnershipProposal, ContractError,
  Store, Transfer,
}
use neutron_tge_contracts.Vesting.Register.{register_vesting_accounts}
use neutron_tge_contracts.Vesting.Claim.{claim, pay_claim, set_vesting_token}
use neutron_tge_contracts.Vesting.Managed.{
  claw_back, claw_back_found, remove_accounts, remove_vesting_accounts, handle_execute_managed_msg,
}
use neutron_tge_contracts.Vesting.Managers.{
  ExecuteMsgWithManagers, add_vesting_managers, remove_vesting_managers, update_managers,
  handle_execute_with_managers_msg,
}
use neutron_tge_contracts.Vesting.Execute.{
  ExecuteMsg, claim_msg, receive, register_vesting_accounts_msg, propose_new_owner_msg,
  drop_ownership_proposal_msg, claim_ownership_msg, set_vesting_token_msg, managed_extension,
  with_managers_extension, historical_extension, Calls, AreChecked, receive_cw20, register_native,
  execute,
}

abbrev SameConfig : Store → Store × List Transfer → Type 0
SameConfig s r = r.0.config ≡ s.config

register-SameConfig :
    (cw : Cosmwasm) (accounts : List VestingAccount) (amount : ℕ) (s : Store)
    → Ensures (SameConfig s) (register_vesting_accounts cw accounts amount s)
unfolding register_vesting_accounts
register-SameConfig cw accounts amount s =
    Ensures-bind λ _ _. Ensures-bind λ _ _. Ensures-bind λ _ _. Ensures-pure refl

native-SameConfig :
    (cw : Cosmwasm) (calls : Calls) (asset : AssetInfo) (info : MessageInfo)
    (accounts : List VestingAccount) (s : Store)
    → Ensures (SameConfig s) (register_native cw calls asset info accounts s)
unfolding register_native
native-SameConfig cw calls (token contract) info accounts s = Ensures-fail _
native-SameConfig cw calls (native_token denom) info accounts s =
    Ensures-bind λ _ _. Ensures-bind λ amount _. register-SameConfig cw accounts amount s

claim-SameConfig :
    (cw : Cosmwasm) (env : Env) (info : MessageInfo) (recipient amount : Option ℕ) (s : Store)
    → Ensures (SameConfig s) (claim cw env info recipient amount s)
unfolding claim pay_claim
claim-SameConfig cw env info recipient amount s = Ensures-bind λ _ _. Ensures-bind λ _ _.
    Ensures-bind λ _ _. Ensures-bind λ a _.
      Ensures-if (a == 0) (λ _. Ensures-pure refl)
        λ _. Ensures-bind λ _ _. Ensures-bind λ _ _. Ensures-bind λ _ _. Ensures-pure refl

claw_back-SameConfig :
    (asset : AssetInfo) (recipient address : Addr) (found : Option VestingInfo) (s : Store)
    (before : List Transfer)
    → Ensures (SameConfig s) (claw_back_found asset recipient address found s before)
unfolding claw_back
claw_back-SameConfig asset recipient address none s before = Ensures-pure refl
claw_back-SameConfig asset recipient address (some info) s before = Ensures-bind λ _ _.
    Ensures-bind
      λ _ _. Ensures-bind λ _ _. Ensures-bind λ _ _. Ensures-bind λ _ _. Ensures-pure refl

remove_accounts-SameConfig :
    (cw : Cosmwasm) (asset : AssetInfo) (recipient : Addr) (accounts : List ℕ) (s : Store)
    (before : List Transfer)
    → Ensures (SameConfig s) (remove_accounts cw asset recipient accounts s before)
unfolding remove_accounts
remove_accounts-SameConfig cw asset recipient [] s before = Ensures-pure refl
remove_accounts-SameConfig cw asset recipient (account ∷ rest) s before = Ensures-bind λ address _.
    Ensures-bind λ (s', before') e.
      let found = lookup address s.vesting_info in
      let same =
        (claw_back-SameConfig asset recipient address found s before).holds (s', before') e in
      Ensures-mono (λ r later. cc) (remove_accounts-SameConfig cw asset recipient rest s' before')

managers-SameConfig :
    (cw : Cosmwasm) (info : MessageInfo) (msg : ExecuteMsgWithManagers) (s : Store)
    → Ensures (SameConfig s) (update_managers cw msg info s)
unfolding update_managers
managers-SameConfig cw info (add_vesting_managers managers) s =
    Ensures-bind λ _ _. Ensures-bind λ _ _. Ensures-pure refl
managers-SameConfig cw info (remove_vesting_managers managers) s =
    Ensures-bind λ _ _. Ensures-bind λ _ _. Ensures-pure refl

-- What a successful message may do to the configuration.
abbrev pub ConfigStep : Env → MessageInfo → ExecuteMsg → Store → Store × List Transfer → Type 0
ConfigStep env info claim_ownership_msg s r =
    (p : OwnershipProposal) × (s.ownership_proposal ≡ some p)
    × (info.sender ≡ p.owner)
    × (env.time ≤ p.ttl)
    × (r.0.config ≡ record (s.config) { owner = p.owner })
    × (r.0.ownership_proposal ≡ none)
ConfigStep env info (set_vesting_token_msg asset) s r =
    ((info.sender ≡ s.config.owner) ⊎ (info.sender ≡ s.config.token_info_manager))
    × (s.config.vesting_token ≡ none)
    × (r.0.config ≡ record (s.config) { vesting_token = some asset })
ConfigStep env info _ s r = r.0.config ≡ s.config

set_vesting_token-ConfigStep :
    (check : AssetInfo → Result ContractError (Unit {0})) (env : Env) (info : MessageInfo)
    (asset : AssetInfo) (s : Store)
    → Ensures
        (ConfigStep env info (set_vesting_token_msg asset) s)
        (set_vesting_token check info asset s)
unfolding set_vesting_token
set_vesting_token-ConfigStep check env info asset s = Ensures-bind λ _ allowed.
    Ensures-bind λ _ unset. Ensures-bind λ _ _. Ensures-pure (ground arith, ground arith, refl)

module _ (cw : Cosmwasm) (calls : Calls) (checked : AreChecked calls) where
  -- A successful message changes the configuration in two ways only. `ClaimOwnership` makes the
  -- sender the owner, and needs a stored proposal of that sender which has not expired; it uses
  -- the proposal up. `SetVestingToken` sets a token that was not set, and is the owner's or the
  -- token info manager's. Every other message leaves the configuration as it is.
  pub execute-ConfigStep :
      (env : Env) (info : MessageInfo) (msg : ExecuteMsg) (s : Store)
      → Ensures (ConfigStep env info msg s) (execute cw calls env info msg s)
  unfolding execute
  execute-ConfigStep env info (claim_msg recipient amount) s =
      claim-SameConfig cw env info recipient amount s
  execute-ConfigStep env info (receive msg) s =
      unfold receive_cw20 in
      Ensures-bind λ _ _. Ensures-bind λ _ _.
        Ensures-bind λ _ _. Ensures-bind λ accounts _. register-SameConfig cw accounts msg.amount s
  execute-ConfigStep env info (register_vesting_accounts_msg accounts) s =
      Ensures-bind λ asset _. native-SameConfig cw calls asset info accounts s
  execute-ConfigStep env info (propose_new_owner_msg owner expires_in) s =
      Ensures-bind λ _ _. Ensures-pure refl
  execute-ConfigStep env info drop_ownership_proposal_msg s = Ensures-bind λ _ _. Ensures-pure refl
  execute-ConfigStep env info claim_ownership_msg s = Ensures-bind λ new_owner e.
      let (p, stored, sender, new, in_time) =
        checked.claim_by_proposed info env s.ownership_proposal new_owner e in
      Ensures-pure (p, stored, sender, in_time, ap (λ a. record (s.config) { owner = a }) new, refl)
  execute-ConfigStep env info (set_vesting_token_msg asset) s =
      set_vesting_token-ConfigStep calls.check env info asset s
  execute-ConfigStep env info (managed_extension accounts clawback_account) s =
      unfold handle_execute_managed_msg remove_vesting_accounts in
      Ensures-bind λ _ _. Ensures-bind λ _ _. Ensures-bind λ asset _.
        Ensures-bind λ recipient _. remove_accounts-SameConfig cw asset recipient accounts s []
  execute-ConfigStep env info (with_managers_extension msg) s =
      unfold handle_execute_with_managers_msg in
      Ensures-bind λ _ _. managers-SameConfig cw info msg s
  execute-ConfigStep env info (historical_extension msg) s = absurd msg
