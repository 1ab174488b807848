-- ===== src/Vesting/Managed.antt =====
-- The managed extension: packages/vesting-base/src/ext_managed.rs.
use neutron_tge_contracts.Prelude.{ℕ, Option, none, some, List, [], ◌∷◌, ◌++◌, ◌==◌}
use neutron_tge_contracts.Prelude.Map.{lookup, erase}
use neutron_tge_contracts.Prelude.Result.{ok, ◌>>=◌, ◌>>◌, ensure, ok_or, checked_sub}
use neutron_tge_contracts.Cosmwasm.{Addr, Cosmwasm, MessageInfo}
use neutron_tge_contracts.Vesting.Types.{
  AssetInfo, VestingInfo, std_error, overflow, unauthorized, amount_is_not_available,
  ext_unsupported, Store, Transfer, Outcome,
}
use neutron_tge_contracts.Vesting.Amounts.{add_granted}
use neutron_tge_contracts.Vesting.Claim.{get_vesting_token}

-- The round for an account that exists. `paid` are the messages so far.
unfoldable pub claw_back : AssetInfo → Addr → Addr → VestingInfo → Store → List Transfer → Outcome
claw_back asset recipient address info s paid = do
  total_granted ← add_granted 0 info.schedules
  amount ← checked_sub overflow total_granted info.released_amount
  state ← ok_or amount_is_not_available s.vesting_state
  granted_left ← checked_sub overflow state.total_granted total_granted
  released_left ← checked_sub overflow state.total_released info.released_amount
  ok (
    record s {
      vesting_state =
          some (record { total_granted = granted_left; total_released = released_left });
      vesting_info = erase address s.vesting_info;
    },
    paid ++ record { asset = asset; amount = amount; recipient = recipient } ∷ [],
  )

abbrev pub claw_back_found :
    AssetInfo → Addr → Addr → Option VestingInfo → Store → List Transfer → Outcome
claw_back_found asset recipient address none s paid = ok (s, paid)
claw_back_found asset recipient address (some info) s paid =
    claw_back asset recipient address info s paid

module _ (cw : Cosmwasm) where
  unfoldable pub remove_accounts : AssetInfo → Addr → List ℕ → Store → List Transfer → Outcome
  remove_accounts asset recipient [] s paid = ok (s, paid)
  remove_accounts asset recipient (account ∷ rest) s paid = do
    address ← ok_or std_error (cw.addr_validate account)
    (s', paid') ← claw_back_found asset recipient address (lookup address s.vesting_info) s paid
    remove_accounts asset recipient rest s' paid'

  unfoldable pub remove_vesting_accounts : MessageInfo → List ℕ → ℕ → Store → Outcome
  remove_vesting_accounts info accounts clawback_account s = do
    ensure (info.sender == s.config.owner) unauthorized
    vesting_token ← get_vesting_token s.config
    clawback_address ← ok_or std_error (cw.addr_validate clawback_account)
    remove_accounts vesting_token clawback_address accounts s []

  unfoldable pub handle_execute_managed_msg : MessageInfo → List ℕ → ℕ → Store → Outcome
  handle_execute_managed_msg info accounts clawback_account s = do
    ensure s.config.extensions.managed ext_unsupported
    remove_vesting_accounts info accounts clawback_account s
