-- ===== src/Lockdrop/Admin.antt =====
-- `instantiate`, `migrate`, the configuration and the pools of contracts/lockdrop/src/contract.rs.
use neutron_tge_contracts.Prelude.{
  ℕ, Bool, true, false, not, ◌&&◌, ◌||◌, Option, none, some, List, [], ◌∷◌, ltb, leb, ◌==◌,
  if◌then◌else◌, is_some, unwrap_or,
}
use neutron_tge_contracts.Prelude.Result.{
  Result, ok, err, ◌>>=◌, ◌>>◌, ensure, reject_if, ok_or, checked_add, add_u64,
}
use neutron_tge_contracts.Cosmwasm.{Addr, Denom, Coin, Cosmwasm, MessageInfo, Env}
use neutron_tge_contracts.Auction.Types.{PoolType}
use neutron_tge_contracts.Lockdrop.Types.{
  LockupRewardsInfo, Config, PoolInfo, PoolData, Store, LockdropError, Msg, increase_allowance,
  send_to_generator, Outcome, std_error, overflow, panicked, unauthorized, invalid_init_timestamp,
  invalid_lockup_durations, invalid_rewards_info, invalid_max_positions, already_staked,
  generator_not_set, lock_window_closed, untrn_not_found, no_tokens_sent, unknown_token,
}
use neutron_tge_contracts.Lockdrop.Storage.{pool_of, set_pool, load_pool_info}
use neutron_tge_contracts.Lockdrop.Amounts.{windows_end}

pub record InstantiateMsg : Type 0 where
  pub owner : Option ℕ
  pub token_info_manager : ℕ
  pub credits_contract : ℕ
  pub auction_contract : ℕ
  pub init_timestamp : ℕ
  pub lock_window : ℕ
  pub withdrawal_window : ℕ
  pub min_lock_duration : ℕ
  pub max_lock_duration : ℕ
  pub max_positions_per_user : ℕ
  pub lockup_rewards_info : List LockupRewardsInfo

pub record UpdateConfigMsg : Type 0 where
  pub auction_contract_address : Option ℕ
  pub generator_address : Option ℕ

-- The fields of `Cw20ReceiveMsg`, with its hook `InitializePool` if it parses as one.
pub record Cw20ReceiveMsg : Type 0 where
  pub sender : ℕ
  pub amount : ℕ
  pub hook : Option (PoolType × ℕ)

abbrev pub check_rewards : List LockupRewardsInfo → Result LockdropError (Unit {0})
check_rewards [] = ok tt
check_rewards (info ∷ rest) =
    reject_if (info.duration == 0) invalid_rewards_info >> check_rewards rest

abbrev pub is_empty_rewards : List LockupRewardsInfo → Bool
is_empty_rewards [] = true
is_empty_rewards (info ∷ rest) = false

-- A pool of `set_token_info`: the positions and the users' totals stay.
abbrev pub new_pool : Addr → PoolData → PoolData
new_pool lp_token p = record p {
  pool_info = some (record {
    lp_token = lp_token;
    amount_in_lockups = 0;
    incentives_share = 0;
    weighted_amount = 0;
    generator_ntrn_per_share = 0;
    generator_proxy_per_share = [];
    is_staked = false;
  });
}

abbrev pub no_pool : PoolData
no_pool = record { pool_info = none; lockups = []; user_totals = [] }

abbrev pub is_staked_in : Option PoolInfo → Bool
is_staked_in none = false
is_staked_in (some info) = info.is_staked

-- `info.funds.iter().find(|c| c.denom == UNTRN_DENOM)`
unfoldable pub find_untrn : Denom → List Coin → Result LockdropError ℕ
find_untrn untrn [] = err untrn_not_found
find_untrn untrn (coin ∷ rest) =
    if coin.denom == untrn then ok coin.amount else find_untrn untrn rest

unfoldable pub stake_messages : Config → ℕ → Addr → ℕ → Result LockdropError (List Msg)
stake_messages config height lp_token amount = do
  generator ← ok_or generator_not_set config.generator
  ok (
      increase_allowance lp_token generator amount height
      ∷ send_to_generator lp_token generator amount
      ∷ [])

module _ (cw : Cosmwasm) where
  unfoldable pub validate : ℕ → Result LockdropError Addr
  validate a = ok_or std_error (cw.addr_validate a)

  validate_option : Option ℕ → Result LockdropError (Option Addr)
  validate_option none = ok none
  validate_option (some a) = do v ← validate a; ok (some v)

  unfoldable pub instantiate : Env → MessageInfo → InstantiateMsg → Result LockdropError Store
  unfolding validate validate_option
  instantiate env info msg = do
    reject_if (ltb msg.init_timestamp env.time) invalid_init_timestamp
    reject_if (ltb msg.max_lock_duration msg.min_lock_duration || msg.min_lock_duration == 0)
        invalid_lockup_durations
    reject_if (is_empty_rewards msg.lockup_rewards_info) invalid_rewards_info
    check_rewards msg.lockup_rewards_info
    reject_if (ltb msg.max_positions_per_user 1) invalid_max_positions
    owner ← validate_option msg.owner
    token_info_manager ← validate msg.token_info_manager
    credits ← validate msg.credits_contract
    auction ← validate msg.auction_contract
    ok (record {
      config = record {
        owner = unwrap_or info.sender owner;
        token_info_manager = token_info_manager;
        credits_contract = credits;
        auction_contract = auction;
        generator = none;
        init_timestamp = msg.init_timestamp;
        lock_window = msg.lock_window;
        withdrawal_window = msg.withdrawal_window;
        min_lock_duration = msg.min_lock_duration;
        max_lock_duration = msg.max_lock_duration;
        lockdrop_incentives = 0;
        max_positions_per_user = msg.max_positions_per_user;
        lockup_rewards_info = msg.lockup_rewards_info;
      };
      total_incentives_share = 0;
      atom_pool = no_pool;
      usdc_pool = no_pool;
      users = [];
      pcl_lockdrop = none;
      ownership_proposal = none;
    })

  unfoldable pub migrate : ℕ → Store → Outcome
  unfolding validate
  migrate pcl_lockdrop s = do
    addr ← validate pcl_lockdrop
    ok (record s { pcl_lockdrop = some addr }, [])

  -- The generator after an update; a set one is kept while LP tokens are staked.
  unfoldable pub update_generator : Option ℕ → Store → Result LockdropError (Option Addr)
  unfolding validate
  update_generator none s = ok s.config.generator
  update_generator (some generator) s = do
    reject_if
        (is_some s.config.generator
          && (is_staked_in s.atom_pool.pool_info || is_staked_in s.usdc_pool.pool_info))
        already_staked
    addr ← validate generator
    ok (some addr)

  unfoldable pub handle_update_config : MessageInfo → UpdateConfigMsg → Store → Outcome
  unfolding validate validate_option
  handle_update_config info msg s = do
    ensure (info.sender == s.config.owner) unauthorized
    auction ← validate_option msg.auction_contract_address
    generator ← update_generator msg.generator_address s
    ok (
      record s {
        config = record (s.config) {
          auction_contract = unwrap_or s.config.auction_contract auction;
          generator = generator;
        };
      },
      [],
    )

  unfoldable pub handle_set_token_info : MessageInfo → ℕ → ℕ → ℕ → Store → Outcome
  unfolding validate
  handle_set_token_info info usdc_token atom_token generator s = do
    reject_if
        (not (info.sender == s.config.owner) && not (info.sender == s.config.token_info_manager))
        unauthorized
    atom_lp ← validate atom_token
    usdc_lp ← validate usdc_token
    generator_addr ← validate generator
    ok (
      record s {
        atom_pool = new_pool atom_lp s.atom_pool;
        usdc_pool = new_pool usdc_lp s.usdc_pool;
        config = record (s.config) { generator = some generator_addr };
      },
      [],
    )

  unfoldable pub handle_increasing_ntrn_incentives : Denom → Env → MessageInfo → Store → Outcome
  handle_increasing_ntrn_incentives untrn env info s = do
    closed ← windows_end s.config
    reject_if (leb closed env.time) lock_window_closed
    amount ← find_untrn untrn info.funds
    incentives ← checked_add overflow s.config.lockdrop_incentives amount
    ok (record s { config = record (s.config) { lockdrop_incentives = incentives } }, [])

  unfoldable pub handle_initialize_pool :
      Env → MessageInfo → PoolType → Addr → ℕ → ℕ → Store → Outcome
  handle_initialize_pool env info pool_type cw20_sender incentives_share amount s = do
    ensure (cw20_sender == s.config.auction_contract) unauthorized
    let p = pool_of pool_type s
    pool_info ← load_pool_info p
    ensure (info.sender == pool_info.lp_token) unknown_token
    height ← add_u64 panicked env.height 1
    messages ← stake_messages s.config height pool_info.lp_token amount
    share ← checked_add overflow s.total_incentives_share incentives_share
    ok (
      set_pool pool_type
          (record p {
            pool_info =
                some (record pool_info { incentives_share = incentives_share; is_staked = true });
          })
          (record s { total_incentives_share = share }),
      messages,
    )

  unfoldable pub receive_cw20 : Env → MessageInfo → Cw20ReceiveMsg → Store → Outcome
  unfolding validate
  receive_cw20 env info msg s = do
    sender ← validate msg.sender
    reject_if (msg.amount == 0) no_tokens_sent
    (pool_type, incentives_share) ← ok_or std_error msg.hook
    handle_initialize_pool env info pool_type sender incentives_share msg.amount s
