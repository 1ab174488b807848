-- ===== src/Vesting/Queries.antt =====
-- `build` of packages/vesting-base/src/builder.rs, and the queries of handlers.rs and
-- ext_historical.rs on one account and on the totals. A query at a height reads the storage that
-- was there at it, so it is a function of that storage.
pub mod Sums
use neutron_tge_contracts.Prelude.{
  ℕ, ◌+◌, ◌-◌, ◌≤◌, ◌≡◌, refl, Bool, true, false, Option, none, some, List, [], ◌∷◌, arith, sum_of,
  All,
}
use neutron_tge_contracts.Prelude.Map.{Map, lookup, insert, sum_values, AllValues}
use neutron_tge_contracts.Prelude.Result.{
  Result, ok, err, ◌>>=◌, ◌>>◌, ensure, ok_or, ok_or-eq-ok, checked_add, checked_sub, u128_max,
}
use neutron_tge_contracts.Cosmwasm.{Addr, Cosmwasm, MessageInfo, Env}
use neutron_tge_contracts.Vesting.Types.{
  AssetInfo, VestingSchedule, VestingInfo, VestingState, Extensions, ContractError, std_error,
  overflow, ext_unsupported, Store, Transfer,
}
use neutron_tge_contracts.Vesting.Amounts.{granted, add_granted, compute_available_amount}
use neutron_tge_contracts.Vesting.Claim.{claim}
use neutron_tge_contracts.Vesting.Claim.Payout.{claim-Claims}
use neutron_tge_contracts.Vesting.Managers.{add_managers}
use neutron_tge_contracts.Vesting.Invariant.{granted_to, released_to, IsCovered, state_of, IsSound}

-- `VestingBaseBuilder`, as its methods leave it.
pub record VestingBaseBuilder : Type 0 where
  pub vesting_managers : List ℕ
  pub historical : Bool
  pub managed : Bool
  pub with_managers : Bool

-- The loop of `compute_unclaimed_amount` is that of a registration: `add_granted`.
unfoldable pub compute_unclaimed_amount : VestingInfo → Result ContractError ℕ
compute_unclaimed_amount info = do
  amount ← add_granted 0 info.schedules
  checked_sub overflow amount info.released_amount

abbrev pub unclaimed_of : Option VestingInfo → Result ContractError ℕ
unclaimed_of none = ok 0
unclaimed_of (some info) = compute_unclaimed_amount info

abbrev pub total_unclaimed_of : Option VestingState → Result ContractError ℕ
total_unclaimed_of none = ok 0
total_unclaimed_of (some state) = checked_sub overflow state.total_granted state.total_released

-- `handle_query_historical_msg` before each of its two queries.
abbrev pub historical_query : {A : Type 0} → Store → Result ContractError A → Result ContractError A
historical_query s answer = ensure s.config.extensions.historical ext_unsupported >> answer

-- `if self.with_managers { … }`
abbrev pub kept_managers :
    Bool → Result ContractError (Map (Unit {0})) → Result ContractError (Map (Unit {0}))
kept_managers true saved = saved
kept_managers false saved = ok []

module _ (cw : Cosmwasm) where
  unfoldable pub save_managers : List ℕ → Map (Unit {0}) → Result ContractError (Map (Unit {0}))
  save_managers [] managers = ok managers
  save_managers (m ∷ rest) managers = do
    ma ← ok_or std_error (cw.addr_validate m)
    save_managers rest (insert ma tt managers)

  unfoldable pub build : VestingBaseBuilder → ℕ → ℕ → Result ContractError Store
  build builder owner token_info_manager = do
    owner_address ← ok_or std_error (cw.addr_validate owner)
    manager_address ← ok_or std_error (cw.addr_validate token_info_manager)
    managers ← kept_managers builder.with_managers (save_managers builder.vesting_managers [])
    ok (record {
      config = record {
        owner = owner_address;
        vesting_token = none;
        token_info_manager = manager_address;
        extensions = record {
          historical = builder.historical;
          managed = builder.managed;
          with_managers = builder.with_managers;
        };
      };
      ownership_proposal = none;
      vesting_managers = managers;
      vesting_state = none;
      vesting_info = [];
    })

  unfoldable pub query_vesting_account : ℕ → Store → Result ContractError VestingInfo
  query_vesting_account account s = do
    address ← ok_or std_error (cw.addr_validate account)
    ok_or std_error (lookup address s.vesting_info)

  unfoldable pub query_vesting_available_amount : Env → ℕ → Store → Result ContractError ℕ
  query_vesting_available_amount env account s = do
    address ← ok_or std_error (cw.addr_validate account)
    info ← ok_or std_error (lookup address s.vesting_info)
    compute_available_amount cw env.time info

  -- `past` is the storage at the height.
  unfoldable pub query_unclaimed_amount_at_height : ℕ → Store → Store → Result ContractError ℕ
  query_unclaimed_amount_at_height account past s = historical_query s (do
    address ← ok_or std_error (cw.addr_validate account)
    unclaimed_of (lookup address past.vesting_info))

unfoldable pub query_total_unclaimed_amount_at_height : Store → Store → Result ContractError ℕ
query_total_unclaimed_amount_at_height past s =
    historical_query s (total_unclaimed_of past.vesting_state)
