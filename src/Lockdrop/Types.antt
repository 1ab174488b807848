-- ===== src/Lockdrop/Types.antt =====
-- packages/astroport_periphery/src/lockdrop.rs and contracts/lockdrop/src/state.rs: the stored data,
-- the errors and the messages. `PoolType` is that of `Auction.Types`.
use neutron_tge_contracts.Prelude.{ℕ, Bool, Option, List}
use neutron_tge_contracts.Prelude.Map.{Map}
use neutron_tge_contracts.Prelude.Result.{Result}
use neutron_tge_contracts.Cosmwasm.{Addr, Denom}
use neutron_tge_contracts.Vesting.Types.{AssetInfo, OwnershipProposal}
use neutron_tge_contracts.Auction.Types.{PoolType}

-- `Asset` of the astroport package.
pub record Asset : Type 0 where
  pub asset_info : AssetInfo
  pub amount : ℕ

-- What a `RestrictedVector<AssetInfo, _>` holds.
abbrev pub AssetAmounts : Type 0
AssetAmounts = List (AssetInfo × ℕ)

-- The coefficient is a `Decimal256`, in units of 10^-18.
pub record LockupRewardsInfo : Type 0 where
  pub duration : ℕ
  pub coefficient : ℕ

pub record Config : Type 0 where
  pub owner : Addr
  pub token_info_manager : Addr
  pub credits_contract : Addr
  pub auction_contract : Addr
  pub generator : Option Addr
  pub init_timestamp : ℕ
  pub lock_window : ℕ
  pub withdrawal_window : ℕ
  pub min_lock_duration : ℕ
  pub max_lock_duration : ℕ
  pub lockdrop_incentives : ℕ
  pub max_positions_per_user : ℕ
  pub lockup_rewards_info : List LockupRewardsInfo

pub record PoolInfo : Type 0 where
  pub lp_token : Addr
  pub amount_in_lockups : ℕ
  pub incentives_share : ℕ
  pub weighted_amount : ℕ
  pub generator_ntrn_per_share : ℕ
  pub generator_proxy_per_share : AssetAmounts
  pub is_staked : Bool

pub record UserInfo : Type 0 where
  pub total_ntrn_rewards : ℕ
  pub ntrn_transferred : Bool
  pub lockup_positions_index : ℕ

pub record LockupInfoV1 : Type 0 where
  pub lp_units_locked : ℕ
  pub astroport_lp_transferred : Option ℕ
  pub withdrawal_flag : Bool
  pub ntrn_rewards : ℕ
  pub generator_ntrn_debt : ℕ
  pub generator_proxy_debt : ℕ
  pub unlock_timestamp : ℕ

pub record LockupInfoV2 : Type 0 where
  pub lp_units_locked : ℕ
  pub astroport_lp_transferred : Option ℕ
  pub withdrawal_flag : Bool
  pub ntrn_rewards : ℕ
  pub generator_ntrn_debt : ℕ
  pub generator_proxy_debt : AssetAmounts
  pub unlock_timestamp : ℕ

-- An entry of `lockup_position`, which `LOCKUP_INFO` and `OLD_LOCKUP_INFO` both read.
pub data StoredLockup : Type 0 where
  v1 : LockupInfoV1 → StoredLockup
  v2 : LockupInfoV2 → StoredLockup

-- What is stored for one pool: its entry of `ASSET_POOLS`, the positions by user and duration, and
-- `TOTAL_USER_LOCKUP_AMOUNT` by user.
pub record PoolData : Type 0 where
  pub pool_info : Option PoolInfo
  pub lockups : Map (Map StoredLockup)
  pub user_totals : Map ℕ

-- `total_incentives_share` is the one field of `State`.
pub record Store : Type 0 where
  pub config : Config
  pub total_incentives_share : ℕ
  pub atom_pool : PoolData
  pub usdc_pool : PoolData
  pub users : Map UserInfo
  pub pcl_lockdrop : Option Addr
  pub ownership_proposal : Option OwnershipProposal

-- A constructor for each text of an error; `panicked` is a panic.
pub data LockdropError : Type 0 where
  std_error overflow panicked query_failed unauthorized callback_only : LockdropError
  invalid_init_timestamp invalid_lockup_durations invalid_rewards_info : LockdropError
  invalid_max_positions already_staked generator_not_set lock_window_closed : LockdropError
  untrn_not_found no_tokens_sent unknown_token invalid_duration bad_lockup_duration : LockdropError
  too_many_positions withdrawal_window_closed invalid_withdrawal : LockdropError
  already_withdrawn exceeds_limit windows_open not_unlocked already_claimed : LockdropError
  no_rewards no_second_leg proxy_not_found : LockdropError

pub data CallbackMsg : Type 0 where
  update_pool_on_dual_rewards_claim : PoolType → ℕ → List Asset → CallbackMsg
  withdraw_user_lockup_rewards : PoolType → Addr → ℕ → Bool → CallbackMsg
  init_migrate_lockup : PoolType → Addr → ℕ → CallbackMsg
  transfer_all_rewards_before_migration : PoolType → Addr → ℕ → CallbackMsg
  withdraw_user_lockup : PoolType → Addr → ℕ → Addr → Addr → ℕ → CallbackMsg
  migrate_user_lockup_to_pcl_pair : PoolType → Addr → ℕ → ℕ → Denom → ℕ → CallbackMsg

-- The messages of a response.
pub data Msg : Type 0 where
  bank_send : Addr → Denom → ℕ → Msg
  -- `Asset::into_msg`
  asset_send : Asset → Addr → Msg
  -- messages to the generator: `ClaimRewards` and `Withdraw`
  generator_claim : Addr → Addr → Msg
  generator_withdraw : Addr → Addr → ℕ → Msg
  -- messages to an LP token: `IncreaseAllowance`, `Send` with `Deposit`, `Transfer`, and `Send` with
  -- `WithdrawLiquidity`
  increase_allowance : Addr → Addr → ℕ → ℕ → Msg
  send_to_generator : Addr → Addr → ℕ → Msg
  lp_transfer : Addr → Addr → ℕ → Msg
  withdraw_liquidity : Addr → Addr → ℕ → Msg
  -- `BurnFrom` to the credits contract
  burn_from : Addr → Addr → ℕ → Msg
  -- `MigrateXYKLiquidity` to the PCL lockdrop, with the amounts of untrn and of the paired denom
  migrate_xyk_liquidity :
      Addr → ℕ → Denom → ℕ → PoolType → Addr → ℕ → UserInfo → LockupInfoV2 → Bool → Msg
  callback : Addr → CallbackMsg → Msg

abbrev pub Outcome : Type 0
Outcome = Result LockdropError (Store × List Msg)
