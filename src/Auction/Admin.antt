-- ===== src/Auction/Admin.antt =====
-- `instantiate`, `execute_update_config`, `execute_set_token_info` and `query_user_info` of
-- contracts/auction/src/contract.rs.
use neutron_tge_contracts.Prelude.{
  ℕ, Bool, false, not, ◌&&◌, Option, none, some, [], ◌==◌, ltb, unwrap_or,
}
use neutron_tge_contracts.Prelude.Map.{lookup}
use neutron_tge_contracts.Prelude.Result.{Result, ok, ◌>>=◌, ◌>>◌, ensure, reject_if, ok_or}
use neutron_tge_contracts.Cosmwasm.{Addr, Denom, Cosmwasm, MessageInfo, Env}
use neutron_tge_contracts.Auction.Types.{
  PoolInfo, State, AuctionError, Store, Outcome, invalid_init_timestamp, invalid_address,
  only_owner, only_denom_manager,
}
use neutron_tge_contracts.Auction.Deposit.{no_user}
use neutron_tge_contracts.Auction.Lock.{get_user_lp_info}

pub record InstantiateMsg : Type 0 where
  pub owner : Option ℕ
  pub token_info_manager : ℕ
  pub price_feed_contract : ℕ
  pub lockdrop_contract_address : Option ℕ
  pub reserve_contract_address : ℕ
  pub vesting_usdc_contract_address : ℕ
  pub vesting_atom_contract_address : ℕ
  pub lp_tokens_lock_window : ℕ
  pub init_timestamp : ℕ
  pub deposit_window : ℕ
  pub withdrawal_window : ℕ
  pub max_exchange_rate_age : ℕ
  pub min_ntrn_amount : ℕ
  pub vesting_migration_pack_size : ℕ
  pub vesting_lp_duration : ℕ

pub record UpdateConfigMsg : Type 0 where
  pub owner : Option ℕ
  pub price_feed_contract : Option ℕ
  pub lockdrop_contract_address : Option ℕ
  pub vesting_migration_pack_size : Option ℕ
  pub pool_info : Option PoolInfo

pub record UserInfoResponse : Type 0 where
  pub usdc_deposited : ℕ
  pub atom_deposited : ℕ
  pub withdrawn : Bool
  pub atom_lp_amount : ℕ
  pub usdc_lp_amount : ℕ
  pub atom_lp_locked : ℕ
  pub usdc_lp_locked : ℕ

-- `State::default()`
abbrev pub no_state : State
no_state = record {
  total_usdc_deposited = 0;
  total_atom_deposited = 0;
  is_rest_lp_vested = false;
  lp_usdc_shares_minted = none;
  lp_atom_shares_minted = none;
  pool_init_timestamp = 0;
  usdc_ntrn_size = 0;
  atom_ntrn_size = 0;
  usdc_lp_size = 0;
  atom_lp_size = 0;
  usdc_lp_locked = 0;
  atom_lp_locked = 0;
}

-- `if let Some(x) = update { field = x }`
abbrev pub or_keep {ℓ} : {A : Type ℓ} → Option A → A → A
or_keep update old = unwrap_or old update

abbrev pub or_keep_some {ℓ} : {A : Type ℓ} → Option A → Option A → Option A
or_keep_some none old = old
or_keep_some (some a) old = some a

module _ (cw : Cosmwasm) where
  validate : ℕ → Result AuctionError Addr
  validate a = ok_or invalid_address (cw.addr_validate a)

  -- The validation of an address that may be absent.
  validate_option : Option ℕ → Result AuctionError (Option Addr)
  validate_option none = ok none
  validate_option (some a) = do v ← validate a; ok (some v)

  validate_pools : Option PoolInfo → Result AuctionError (Unit {0})
  validate_pools none = ok tt
  validate_pools (some p) = do
    _ ← validate p.ntrn_usdc_pool_address
    _ ← validate p.ntrn_atom_pool_address
    _ ← validate p.ntrn_usdc_lp_token_address
    _ ← validate p.ntrn_atom_lp_token_address
    ok tt

  -- The denomination `UNTRN_DENOM` is an argument, since texts are numbers here.
  unfoldable pub instantiate :
      Denom → Env → MessageInfo → InstantiateMsg → Result AuctionError Store
  unfolding validate validate_option
  instantiate untrn_denom env info msg = do
    reject_if (ltb msg.init_timestamp env.time) invalid_init_timestamp
    lockdrop ← validate_option msg.lockdrop_contract_address
    owner ← validate_option msg.owner
    token_info_manager ← validate msg.token_info_manager
    price_feed ← validate msg.price_feed_contract
    reserve ← validate msg.reserve_contract_address
    vesting_usdc ← validate msg.vesting_usdc_contract_address
    vesting_atom ← validate msg.vesting_atom_contract_address
    ok (record {
      config = record {
        owner = unwrap_or info.sender owner;
        token_info_manager = token_info_manager;
        reserve_contract_address = reserve;
        vesting_usdc_contract_address = vesting_usdc;
        vesting_atom_contract_address = vesting_atom;
        lockdrop_contract_address = lockdrop;
        price_feed_contract = price_feed;
        pool_info = none;
        init_timestamp = msg.init_timestamp;
        deposit_window = msg.deposit_window;
        withdrawal_window = msg.withdrawal_window;
        lp_tokens_lock_window = msg.lp_tokens_lock_window;
        ntrn_denom = untrn_denom;
        usdc_denom = none;
        atom_denom = none;
        min_ntrn_amount = msg.min_ntrn_amount;
        max_exchange_rate_age = msg.max_exchange_rate_age;
        vesting_migration_pack_size = msg.vesting_migration_pack_size;
        vesting_lp_duration = msg.vesting_lp_duration;
      };
      state = no_state;
      users = [];
    })

  unfoldable pub execute_update_config : MessageInfo → UpdateConfigMsg → Store → Outcome
  unfolding validate validate_option validate_pools
  execute_update_config info msg s = do
    ensure (info.sender == s.config.owner) only_owner
    owner ← validate_option msg.owner
    lockdrop ← validate_option msg.lockdrop_contract_address
    price_feed ← validate_option msg.price_feed_contract
    validate_pools msg.pool_info
    ok (
      record s {
        config = record (s.config) {
          owner = or_keep owner s.config.owner;
          lockdrop_contract_address = or_keep_some lockdrop s.config.lockdrop_contract_address;
          price_feed_contract = or_keep price_feed s.config.price_feed_contract;
          vesting_migration_pack_size =
              or_keep msg.vesting_migration_pack_size s.config.vesting_migration_pack_size;
          pool_info = or_keep_some msg.pool_info s.config.pool_info;
        };
      },
      [],
    )

  unfoldable pub execute_set_token_info :
      MessageInfo → Option Denom → Option Denom → Option PoolInfo → Store → Outcome
  unfolding validate validate_pools
  execute_set_token_info info usdc_denom atom_denom pool_info s = do
    reject_if
        (not (info.sender == s.config.token_info_manager) && not (info.sender == s.config.owner))
        only_denom_manager
    validate_pools pool_info
    ok (
      record s {
        config = record (s.config) {
          usdc_denom = or_keep_some usdc_denom s.config.usdc_denom;
          atom_denom = or_keep_some atom_denom s.config.atom_denom;
          pool_info = or_keep_some pool_info s.config.pool_info;
        };
      },
      [],
    )

  unfoldable pub query_user_info : ℕ → Store → Result AuctionError UserInfoResponse
  unfolding validate
  query_user_info user_address s = do
    address ← validate user_address
    let user = unwrap_or no_user (lookup address s.users)
    lp ← get_user_lp_info cw user s.state
    ok (record {
      usdc_deposited = user.usdc_deposited;
      atom_deposited = user.atom_deposited;
      withdrawn = user.withdrawn;
      atom_lp_amount = lp.atom_lp_amount;
      usdc_lp_amount = lp.usdc_lp_amount;
      atom_lp_locked = user.atom_lp_locked;
      usdc_lp_locked = user.usdc_lp_locked;
    })
