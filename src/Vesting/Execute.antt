-- ===== src/Vesting/Execute.antt =====
-- `execute`, `receive_cw20` and the registration by native coins of
-- packages/vesting-base/src/handlers.rs, and `handle_execute_historical_msg` of ext_historical.rs.
use neutron_tge_contracts.Prelude.{
  ℕ, ◌≤◌, ◌≡◌, Bool, false, not, ◌||◌, Option, none, some, List, [], ◌∷◌, ◌==◌,
}
use neutron_tge_contracts.Prelude.Result.{Result, ok, err, ◌>>=◌, ◌>>◌, ensure, reject_if, ok_or}
use neutron_tge_contracts.Cosmwasm.{Addr, Denom, Cosmwasm, MessageInfo, Env}
use neutron_tge_contracts.Vesting.Types.{
  AssetInfo, token, native_token, VestingAccount, OwnershipProposal, ContractError, std_error,
  panicked, unauthorized, ext_unsupported, Store, Outcome,
}
use neutron_tge_contracts.Vesting.Register.{register_vesting_accounts}
use neutron_tge_contracts.Vesting.Claim.{
  get_vesting_token, is_sender_whitelisted, claim, set_vesting_token,
}
use neutron_tge_contracts.Vesting.Managed.{handle_execute_managed_msg}
use neutron_tge_contracts.Vesting.Managers.{
  ExecuteMsgWithManagers, handle_execute_with_managers_msg,
}

-- `Cw20ReceiveMsg`; `hook` is what its `msg` parses to.
pub record Cw20ReceiveMsg : Type 0 where
  pub sender : ℕ
  pub amount : ℕ
  pub hook : Option (List VestingAccount)

pub data ExecuteMsg : Type 0 where
  claim_msg : Option ℕ → Option ℕ → ExecuteMsg
  receive : Cw20ReceiveMsg → ExecuteMsg
  register_vesting_accounts_msg : List VestingAccount → ExecuteMsg
  propose_new_owner_msg : ℕ → ℕ → ExecuteMsg
  drop_ownership_proposal_msg claim_ownership_msg : ExecuteMsg
  set_vesting_token_msg : AssetInfo → ExecuteMsg
  managed_extension : List ℕ → ℕ → ExecuteMsg
  with_managers_extension : ExecuteMsgWithManagers → ExecuteMsg
  -- `ExecuteMsgHistorical` has no variant.
  historical_extension : ⊥ → ExecuteMsg

-- What the handlers call of the astroport package and of `cw_utils`.
pub record Calls : Type 0 where
  -- `AssetInfo::check`
  pub check : AssetInfo → Result ContractError (Unit {0})
  -- `propose_new_owner(new_owner, expires_in, owner)`: the proposal that it saves.
  pub propose_new_owner : MessageInfo → Env → ℕ → ℕ → Addr → Result ContractError OwnershipProposal
  -- `drop_ownership_proposal(owner)`: whether it removes the proposal.
  pub drop_ownership_proposal : MessageInfo → Addr → Result ContractError (Unit {0})
  -- `claim_ownership`: the new owner that it hands to the callback.
  pub claim_ownership : MessageInfo → Env → Option OwnershipProposal → Result ContractError Addr
  -- `must_pay`
  pub must_pay : MessageInfo → Denom → Result ContractError ℕ

-- What the documentation of those calls says of a success.
pub record AreChecked (calls : Calls) : Type 0 where
  pub propose_by_owner :
      (info : MessageInfo) (env : Env) (new_owner expires_in : ℕ) (owner : Addr)
      (p : OwnershipProposal)
      → calls.propose_new_owner info env new_owner expires_in owner ≡ ok p
      → info.sender ≡ owner
  pub drop_by_owner :
      (info : MessageInfo) (owner : Addr)
      → calls.drop_ownership_proposal info owner ≡ ok tt
      → info.sender ≡ owner
  pub claim_by_proposed :
      (info : MessageInfo) (env : Env) (proposal : Option OwnershipProposal) (new_owner : Addr)
      → calls.claim_ownership info env proposal ≡ ok new_owner
      → (p : OwnershipProposal) × (proposal ≡ some p)
        × (info.sender ≡ p.owner)
        × (new_owner ≡ p.owner)
        × (env.time ≤ p.ttl)
  pub pays_one_coin :
      (info : MessageInfo) (denom : Denom) (amount : ℕ)
      → calls.must_pay info denom ≡ ok amount
      → info.funds ≡ record { denom = denom; amount = amount } ∷ []

-- `token_asset_info(info.sender) != vesting_token`
abbrev pub is_token : AssetInfo → Addr → Bool
is_token (token contract) sender = contract == sender
is_token (native_token denom) sender = false

abbrev pub or_fail : Option (List VestingAccount) → Result ContractError (List VestingAccount)
or_fail = ok_or std_error

module _ (cw : Cosmwasm) (calls : Calls) where
  unfoldable pub receive_cw20 : MessageInfo → Cw20ReceiveMsg → Store → Outcome
  receive_cw20 info msg s = do
    vesting_token ← get_vesting_token s.config
    sender ← ok_or std_error (cw.addr_validate msg.sender)
    reject_if (not (is_sender_whitelisted s sender) || not (is_token vesting_token info.sender))
        unauthorized
    accounts ← or_fail msg.hook
    register_vesting_accounts cw accounts msg.amount s

  unfoldable pub register_native : AssetInfo → MessageInfo → List VestingAccount → Store → Outcome
  register_native (token contract) info accounts s = err unauthorized
  register_native (native_token denom) info accounts s = do
    ensure (is_sender_whitelisted s info.sender) unauthorized
    amount ← calls.must_pay info denom
    register_vesting_accounts cw accounts amount s

  unfoldable pub handle_execute_historical_msg : Store → Outcome
  handle_execute_historical_msg s = do
    ensure s.config.extensions.historical ext_unsupported
    err panicked

  unfoldable pub execute : Env → MessageInfo → ExecuteMsg → Store → Outcome
  execute env info (claim_msg recipient amount) s = claim cw env info recipient amount s
  execute env info (receive msg) s = receive_cw20 info msg s
  execute env info (register_vesting_accounts_msg accounts) s = do
    vesting_token ← get_vesting_token s.config
    register_native vesting_token info accounts s
  execute env info (propose_new_owner_msg owner expires_in) s = do
    p ← calls.propose_new_owner info env owner expires_in s.config.owner
    ok (record s { ownership_proposal = some p }, [])
  execute env info drop_ownership_proposal_msg s = do
    calls.drop_ownership_proposal info s.config.owner
    ok (record s { ownership_proposal = none }, [])
  execute env info claim_ownership_msg s = do
    new_owner ← calls.claim_ownership info env s.ownership_proposal
    ok (
      record s { ownership_proposal = none; config = record (s.config) { owner = new_owner } },
      [],
    )
  execute env info (set_vesting_token_msg asset) s = set_vesting_token calls.check info asset s
  execute env info (managed_extension accounts clawback_account) s =
      handle_execute_managed_msg cw info accounts clawback_account s
  execute env info (with_managers_extension msg) s = handle_execute_with_managers_msg cw info msg s
  execute env info (historical_extension msg) s = handle_execute_historical_msg s
