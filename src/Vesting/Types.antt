-- ===== src/Vesting/Types.antt =====
-- packages/vesting-base/src/types.rs, error.rs, state.rs: the stored data and the errors.
use neutron_tge_contracts.Prelude.{ℕ, Bool, Option, List}
use neutron_tge_contracts.Prelude.Map.{Map}
use neutron_tge_contracts.Prelude.Result.{Result}
use neutron_tge_contracts.Cosmwasm.{Addr, Denom}

-- `AssetInfo` of the astroport package, as messages carry it.
pub data AssetInfo : Type 0 where
  token : Addr → AssetInfo
  native_token : Denom → AssetInfo

pub record Extensions : Type 0 where
  pub historical : Bool
  pub managed : Bool
  pub with_managers : Bool

pub record Config : Type 0 where
  pub owner : Addr
  pub vesting_token : Option AssetInfo
  pub token_info_manager : Addr
  pub extensions : Extensions

pub record VestingState : Type 0 where
  pub total_granted : ℕ
  pub total_released : ℕ

pub record VestingSchedulePoint : Type 0 where
  pub time : ℕ
  pub amount : ℕ

pub record VestingSchedule : Type 0 where
  pub start_point : VestingSchedulePoint
  pub end_point : Option VestingSchedulePoint

pub record VestingAccount : Type 0 where
  pub address : ℕ
  pub schedules : List VestingSchedule

pub record VestingInfo : Type 0 where
  pub schedules : List VestingSchedule
  pub released_amount : ℕ

-- `OwnershipProposal` of the astroport package.
pub record OwnershipProposal : Type 0 where
  pub owner : Addr
  pub ttl : ℕ

-- `std_error` stands for each `StdError` but an overflow, `panicked` for a panic of unchecked
-- arithmetic or of `unimplemented!`.
pub data ContractError : Type 0 where
  std_error overflow panicked payment_error unauthorized amount_is_not_available : ContractError
  vesting_schedule_error : Addr → ContractError
  vesting_schedule_amount_error vesting_token_is_not_set vesting_token_already_set : ContractError
  ext_unsupported : ContractError

-- The storage of the contract. A snapshot map with history has the same current values as one
-- without, so `vesting_info(historical)` and `vesting_state(historical)` are one field each.
pub record Store : Type 0 where
  pub config : Config
  pub ownership_proposal : Option OwnershipProposal
  pub vesting_managers : Map (Unit {0})
  pub vesting_state : Option VestingState
  pub vesting_info : Map VestingInfo

-- A message that `AssetInfo::with_balance(amount).into_msg(recipient)` builds.
pub record Transfer : Type 0 where
  pub asset : AssetInfo
  pub amount : ℕ
  pub recipient : ℕ

-- What a handler leaves: an error, or the new storage and the messages of the response.
abbrev pub Outcome : Type 0
Outcome = Result ContractError (Store × List Transfer)
