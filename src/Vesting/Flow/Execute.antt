-- ===== src/Vesting/Flow/Execute.antt =====
-- Every message keeps the storage sound and the money accounted for.
use neutron_tge_contracts.Prelude.{
  ℕ, ◌≡◌, refl, Bool, false, not, ◌||◌, Option, none, some, List, [], arith, sum_of, ◌==◌,
  if◌then◌else◌,
}
use neutron_tge_contracts.Prelude.Result.{
  ok, ok_or-eq-ok, Ensures, Ensures-bind, Ensures-pure, Ensures-fail,
}
use neutron_tge_contracts.Cosmwasm.{Addr, Denom, Coin, Cosmwasm, IsExact, MessageInfo, Env}
use neutron_tge_contracts.Vesting.Types.{
  AssetInfo, token, native_token, VestingAccount, Config, Store,
}
use neutron_tge_contracts.Vesting.Claim.{
  get_vesting_token, is_sender_whitelisted, set_vesting_token,
}
use neutron_tge_contracts.Vesting.Managers.{
  ExecuteMsgWithManagers, add_vesting_managers, remove_vesting_managers, update_managers,
  handle_execute_with_managers_msg,
}
use neutron_tge_contracts.Vesting.Execute.{
  Cw20ReceiveMsg, ExecuteMsg, claim_msg, receive, register_vesting_accounts_msg,
  propose_new_owner_msg, drop_ownership_proposal_msg, claim_ownership_msg, set_vesting_token_msg,
  managed_extension, with_managers_extension, historical_extension, Calls, AreChecked, is_token,
  receive_cw20, register_native, execute,
}
use neutron_tge_contracts.Vesting.Invariant.{IsSound}
use neutron_tge_contracts.Vesting.Flow.{Flows}
use neutron_tge_contracts.Vesting.Flow.Register.{register-Flows}
use neutron_tge_contracts.Vesting.Flow.Claim.{claim-Flows}
use neutron_tge_contracts.Vesting.Flow.Managed.{managed-Flows}

-- What the contract of a `Receive` hook has sent counts if it is the vesting token.
abbrev pub token_received : Option AssetInfo → Addr → ℕ → ℕ
token_received none sender amount = 0
token_received (some (token contract)) sender amount = if contract == sender then amount else 0
token_received (some (native_token denom)) sender amount = 0

-- Of the coins that come with a call, those of the vesting token's denomination.
abbrev pub coins_of : Denom → List Coin → ℕ
coins_of denom funds = sum_of (λ (c : Coin). if c.denom == denom then c.amount else 0) funds

abbrev pub coins_received : Option AssetInfo → List Coin → ℕ
coins_received none funds = 0
coins_received (some (token contract)) funds = 0
coins_received (some (native_token denom)) funds = coins_of denom funds

-- The vesting tokens that come with a message: those that the token contract of the storage
-- reports, and no other contract, or the coins of its denomination with a registration.
abbrev pub received : Store → MessageInfo → ExecuteMsg → ℕ
received s info (receive msg) = token_received s.config.vesting_token info.sender msg.amount
received s info (register_vesting_accounts_msg accounts) =
    coins_received s.config.vesting_token info.funds
received s info _ = 0

-- A storage that differs in the configuration, the proposal or the managers only.
same_accounts-Flows :
    (s s' : Store)
    → s'.vesting_info ≡ s.vesting_info
    → s'.vesting_state ≡ s.vesting_state
    → IsSound s
    → Flows 0 s (s', [])
same_accounts-Flows s s' e e' sound = record {
  sound = record {
    granted_total = rw (e, e') sound.granted_total;
    released_total = rw (e, e') sound.released_total;
    accounts = rw e sound.accounts;
    in_range = rw e' sound.in_range;
  };
  balance = rw e' (omega arith);
}

managers-Flows :
    (cw : Cosmwasm) (info : MessageInfo) (msg : ExecuteMsgWithManagers) (s : Store)
    → IsSound s
    → Ensures (Flows 0 s) (update_managers cw msg info s)
unfolding update_managers
managers-Flows cw info (add_vesting_managers managers) s sound =
    Ensures-bind λ _ _. Ensures-bind λ m _. Ensures-pure (same_accounts-Flows s _ refl refl sound)
managers-Flows cw info (remove_vesting_managers managers) s sound =
    Ensures-bind λ _ _. Ensures-bind λ m _. Ensures-pure (same_accounts-Flows s _ refl refl sound)

get_vesting_token_lem :
    (config : Config) (asset : AssetInfo)
    → get_vesting_token config ≡ ok asset
    → config.vesting_token ≡ some asset
get_vesting_token_lem config asset h = ok_or-eq-ok _ config.vesting_token h

module _ (cw : Cosmwasm) (exact : IsExact cw) (calls : Calls) (checked : AreChecked calls) where
  -- Only the vesting token passes the check of the hook.
  hook_is_counted :
      (asset : AssetInfo) (sender amount : ℕ) (whitelisted : Bool)
      → (not whitelisted || not (is_token asset sender)) ≡ false
      → token_received (some asset) sender amount ≡ amount
  hook_is_counted (token contract) sender amount whitelisted h = ground arith
  hook_is_counted (native_token denom) sender amount whitelisted h = ground arith

  receive-Flows :
      (info : MessageInfo) (msg : Cw20ReceiveMsg) (s : Store)
      → IsSound s
      → Ensures (Flows (received s info (receive msg)) s) (receive_cw20 cw calls info msg s)
  unfolding receive_cw20
  receive-Flows info msg s sound = Ensures-bind λ asset set. Ensures-bind λ sender _.
      Ensures-bind λ _ allowed. Ensures-bind λ accounts _.
        let known = get_vesting_token_lem s.config asset set in
        let passed : (not (is_sender_whitelisted s sender) || not (is_token asset info.sender))
            ≡ false =
          ground (arith, allowed) in
        let counted =
          hook_is_counted asset info.sender msg.amount (is_sender_whitelisted s sender) passed in
        let same : token_received s.config.vesting_token info.sender msg.amount ≡ msg.amount =
          rw known counted in
        rw same (register-Flows cw accounts msg.amount s sound)

  native-Flows :
      (asset : AssetInfo) (info : MessageInfo) (accounts : List VestingAccount) (s : Store)
      → IsSound s
      → Ensures
          (Flows (coins_received (some asset) info.funds) s)
          (register_native cw calls asset info accounts s)
  unfolding register_native
  native-Flows (token contract) info accounts s sound = Ensures-fail _
  native-Flows (native_token denom) info accounts s sound = Ensures-bind λ _ _.
      Ensures-bind λ amount e.
        let pays = checked.pays_one_coin info denom amount e in
        let same : coins_of denom info.funds ≡ amount = rw pays (ground arith) in
        rw same (register-Flows cw accounts amount s sound)

  -- Whatever the message: if the call succeeds on a sound storage, the storage is sound after it,
  -- and granted less released has grown by the vesting tokens received less those paid out. Received
  -- is what the vesting token's own contract reports, or the coins of the vesting token's
  -- denomination that come with a registration; the report of any other contract and any other coin
  -- counts as nothing.
  pub execute-Flows :
      (env : Env) (info : MessageInfo) (msg : ExecuteMsg) (s : Store)
      → IsSound s
      → Ensures (Flows (received s info msg) s) (execute cw calls env info msg s)
  unfolding execute
  execute-Flows env info (claim_msg recipient amount) s sound =
      claim-Flows cw exact env info recipient amount s sound
  execute-Flows env info (receive msg) s sound = receive-Flows info msg s sound
  execute-Flows env info (register_vesting_accounts_msg accounts) s sound =
      Ensures-bind λ asset set.
        let known = get_vesting_token_lem s.config asset set in
        let same : coins_received s.config.vesting_token info.funds
            ≡ coins_received (some asset) info.funds =
          rw known refl in
        rw same (native-Flows asset info accounts s sound)
  execute-Flows env info (propose_new_owner_msg owner expires_in) s sound =
      Ensures-bind λ p _. Ensures-pure (same_accounts-Flows s _ refl refl sound)
  execute-Flows env info drop_ownership_proposal_msg s sound =
      Ensures-bind λ _ _. Ensures-pure (same_accounts-Flows s _ refl refl sound)
  execute-Flows env info claim_ownership_msg s sound =
      Ensures-bind λ o _. Ensures-pure (same_accounts-Flows s _ refl refl sound)
  execute-Flows env info (set_vesting_token_msg asset) s sound =
      unfold set_vesting_token in
      Ensures-bind λ _ _.
        Ensures-bind
          λ _ _. Ensures-bind λ _ _. Ensures-pure (same_accounts-Flows s _ refl refl sound)
  execute-Flows env info (managed_extension accounts clawback_account) s sound =
      managed-Flows cw info accounts clawback_account s sound
  execute-Flows env info (with_managers_extension msg) s sound =
      unfold handle_execute_with_managers_msg in
      Ensures-bind λ _ _. managers-Flows cw info msg s sound
  execute-Flows env info (historical_extension msg) s sound = absurd msg
