-- ===== src/Auction/Types.antt =====
-- packages/astroport_periphery/src/auction.rs and contracts/auction/src/state.rs: the stored data,
-- the errors and the messages that the auction sends.
use neutron_tge_contracts.Prelude.{ℕ, Bool, Option, List}
use neutron_tge_contracts.Prelude.Map.{Map}
use neutron_tge_contracts.Prelude.Result.{Result}
use neutron_tge_contracts.Cosmwasm.{Addr, Denom, Coin}
use neutron_tge_contracts.Vesting.Types.{VestingAccount}

pub data PoolType : Type 0 where
  usdc atom : PoolType

pub record PoolInfo : Type 0 where
  pub ntrn_usdc_pool_address : ℕ
  pub ntrn_atom_pool_address : ℕ
  pub ntrn_usdc_lp_token_address : ℕ
  pub ntrn_atom_lp_token_address : ℕ

pub record Config : Type 0 where
  pub owner : Addr
  pub token_info_manager : Addr
  pub reserve_contract_address : Addr
  pub vesting_usdc_contract_address : Addr
  pub vesting_atom_contract_address : Addr
  pub lockdrop_contract_address : Option Addr
  pub price_feed_contract : Addr
  pub pool_info : Option PoolInfo
  pub init_timestamp : ℕ
  pub deposit_window : ℕ
  pub withdrawal_window : ℕ
  pub lp_tokens_lock_window : ℕ
  pub ntrn_denom : Denom
  pub usdc_denom : Option Denom
  pub atom_denom : Option Denom
  pub min_ntrn_amount : ℕ
  pub max_exchange_rate_age : ℕ
  pub vesting_migration_pack_size : ℕ
  pub vesting_lp_duration : ℕ

pub record State : Type 0 where
  pub total_usdc_deposited : ℕ
  pub total_atom_deposited : ℕ
  pub is_rest_lp_vested : Bool
  pub lp_usdc_shares_minted : Option ℕ
  pub lp_atom_shares_minted : Option ℕ
  pub pool_init_timestamp : ℕ
  pub usdc_ntrn_size : ℕ
  pub atom_ntrn_size : ℕ
  pub usdc_lp_size : ℕ
  pub atom_lp_size : ℕ
  pub usdc_lp_locked : ℕ
  pub atom_lp_locked : ℕ

pub record UserInfo : Type 0 where
  pub usdc_deposited : ℕ
  pub atom_deposited : ℕ
  pub withdrawn : Bool
  pub usdc_lp_locked : ℕ
  pub atom_lp_locked : ℕ
  pub is_vested : Bool

pub record UserLpInfo : Type 0 where
  pub atom_lp_amount : ℕ
  pub usdc_lp_amount : ℕ

pub record PoolBalance : Type 0 where
  pub atom : ℕ
  pub usdc : ℕ

-- `StdError`, a constructor for each text; `panicked` is a panic of unchecked arithmetic.
pub data AuctionError : Type 0 where
  invalid_init_timestamp invalid_address only_owner only_denom_manager : AuctionError
  usdc_denom_not_set atom_denom_not_set deposit_window_closed invalid_denom no_coins : AuctionError
  user_not_found already_withdrawn exceeds_limit nothing_withdrawn : AuctionError
  liquidity_already_added windows_open pool_size_already_set query_failed : AuctionError
  invalid_price_data price_data_too_old not_enough_ntrn lp_size_too_big : AuctionError
  pool_size_not_set lock_window_open pool_info_not_set unauthorized : AuctionError
  lockdrop_not_set pool_not_initialized no_users lock_window_closed : AuctionError
  nothing_deposited not_enough_lp overflow panicked : AuctionError

pub data Msg : Type 0 where
  -- `BankMsg::Send`
  bank_send : Addr → Denom → ℕ → Msg
  -- `pair::ExecuteMsg::ProvideLiquidity` with the base and the other asset, and the funds
  provide_liquidity : ℕ → Coin → Coin → List Coin → Msg
  -- `CallbackMsg::FinalizePoolInitialization` to the contract itself
  finalize_pool_initialization : Addr → PoolBalance → Msg
  -- `Cw20ExecuteMsg::Transfer` on a token
  cw20_transfer : ℕ → Addr → ℕ → Msg
  -- `Cw20ExecuteMsg::Send` on a token, with the hook `InitializePool`
  send_to_lockdrop : ℕ → Addr → ℕ → PoolType → ℕ → Msg
  -- `Cw20ExecuteMsg::Send` on a token, with the hook `RegisterVestingAccounts`
  send_to_vesting : ℕ → Addr → ℕ → List VestingAccount → Msg
  -- `lockdrop::ExecuteMsg::IncreaseLockupFor` and `WithdrawFromLockup`
  increase_lockup_for withdraw_from_lockup : Addr → Addr → PoolType → ℕ → ℕ → Msg

-- The storage: the user map is an `IndexedMap`; its index `vested` is a view of it.
pub record Store : Type 0 where
  pub config : Config
  pub state : State
  pub users : Map UserInfo

abbrev pub Outcome : Type 0
Outcome = Result AuctionError (Store × List Msg)
