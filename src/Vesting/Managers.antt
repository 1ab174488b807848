-- ===== src/Vesting/Managers.antt =====
-- The with_managers extension: packages/vesting-base/src/ext_with_managers.rs.
use neutron_tge_contracts.Prelude.{ℕ, List, [], ◌∷◌, ◌==◌, is_some, if◌then◌else◌, map}
use neutron_tge_contracts.Prelude.Map.{Map, lookup, insert, erase}
use neutron_tge_contracts.Prelude.Result.{Result, ok, ◌>>=◌, ◌>>◌, ensure, ok_or}
use neutron_tge_contracts.Cosmwasm.{Addr, Cosmwasm, MessageInfo}
use neutron_tge_contracts.Vesting.Types.{
  ContractError, std_error, unauthorized, ext_unsupported, Store, Outcome,
}

pub data ExecuteMsgWithManagers : Type 0 where
  add_vesting_managers remove_vesting_managers : List ℕ → ExecuteMsgWithManagers

module _ (cw : Cosmwasm) where
  unfoldable pub add_managers : List ℕ → Map (Unit {0}) → Result ContractError (Map (Unit {0}))
  add_managers [] managers = ok managers
  add_managers (m ∷ rest) managers = do
    ma ← ok_or std_error (cw.addr_validate m)
    add_managers rest (if is_some (lookup ma managers) then managers else insert ma tt managers)

  unfoldable pub remove_managers : List ℕ → Map (Unit {0}) → Result ContractError (Map (Unit {0}))
  remove_managers [] managers = ok managers
  remove_managers (m ∷ rest) managers = do
    ma ← ok_or std_error (cw.addr_validate m)
    remove_managers rest (if is_some (lookup ma managers) then erase ma managers else managers)

  unfoldable pub update_managers : ExecuteMsgWithManagers → MessageInfo → Store → Outcome
  update_managers (add_vesting_managers managers) info s = do
    ensure (info.sender == s.config.owner) unauthorized
    managers' ← add_managers managers s.vesting_managers
    ok (record s { vesting_managers = managers' }, [])
  update_managers (remove_vesting_managers managers) info s = do
    ensure (info.sender == s.config.owner) unauthorized
    managers' ← remove_managers managers s.vesting_managers
    ok (record s { vesting_managers = managers' }, [])

  unfoldable pub handle_execute_with_managers_msg :
      MessageInfo → ExecuteMsgWithManagers → Store → Outcome
  unfolding update_managers
  handle_execute_with_managers_msg info msg s = do
    ensure s.config.extensions.with_managers ext_unsupported
    update_managers msg info s

-- `query_vesting_managers`: the keys, ascending.
unfoldable pub query_vesting_managers : Store → List Addr
query_vesting_managers s = map (λ e. e.0) s.vesting_managers
