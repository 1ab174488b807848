-- ===== src/Credits/Types.antt =====
-- contracts/credits/src/state.rs, error.rs and msg.rs: the stored data, the errors and messages.
use neutron_tge_contracts.Prelude.{ℕ, Option, List}
use neutron_tge_contracts.Prelude.Map.{Map}
use neutron_tge_contracts.Prelude.Result.{Result}
use neutron_tge_contracts.Cosmwasm.{Addr}

pub record Config : Type 0 where
  pub dao_address : Addr
  pub airdrop_address : Option Addr
  pub lockdrop_address : Option Addr
  pub when_withdrawable : Option ℕ

pub record Schedule : Type 0 where
  pub start_time : ℕ
  pub cliff : ℕ
  pub duration : ℕ

pub record Allocation : Type 0 where
  pub allocated_amount : ℕ
  pub withdrawn_amount : ℕ
  pub schedule : Schedule

-- `std_error` stands for each `StdError` but an overflow, `panicked` for a panic of unchecked
-- arithmetic.
pub data CreditsError : Type 0 where
  std_error overflow panicked unauthorized too_early_to_claim no_funds_to_claim : CreditsError
  incorrect_funds_supplied no_funds_supplied airdrop_not_configured : CreditsError
  lockdrop_not_configured when_withdrawable_is_not_configured : CreditsError
  already_vested : ℕ → CreditsError
  cw20_error : CreditsError

pub record UpdateConfigMsg : Type 0 where
  pub airdrop_address : Option ℕ
  pub lockdrop_address : Option ℕ
  pub when_withdrawable : Option ℕ

pub data ExecuteMsg : Type 0 where
  update_config : UpdateConfigMsg → ExecuteMsg
  add_vesting : ℕ → ℕ → ℕ → ℕ → ExecuteMsg
  transfer : ℕ → ℕ → ExecuteMsg
  withdraw : ExecuteMsg
  burn : ℕ → ExecuteMsg
  burn_from : ℕ → ℕ → ExecuteMsg
  mint : ExecuteMsg

-- `BankMsg::Send` of untrn.
pub record Payment : Type 0 where
  pub recipient : Addr
  pub amount : ℕ

-- The storage; `Token` is what `cw20_base` keeps of balances, supply and minter.
pub record Store (Token : Type 0) : Type 0 where
  pub config : Config
  pub allocations : Map Allocation
  pub token : Token

abbrev pub Outcome : Type 0 → Type 0
Outcome Token = Result CreditsError (Store Token × List Payment)
