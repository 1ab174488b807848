-- ===== src/Auction/Pool.antt =====
-- The pool: `get_lp_size`, `execute_set_pool_size`, `execute_init_pool` and
-- `execute_finalize_init_pool` of contracts/auction/src/contract.rs.
pub mod Sizes
pub mod Split
use neutron_tge_contracts.Prelude.{
  ℕ, ◌*◌, ◌/◌, Bool, true, false, not, ◌&&◌, ◌||◌, Option, none, some, List, [], ◌∷◌, ◌++◌, ltb,
  leb, ◌==◌, if◌then◌else◌, is_some,
}
use neutron_tge_contracts.Prelude.Result.{
  Result, ok, err, ◌>>=◌, ◌>>◌, ensure, reject_if, ok_or, bounded_by, u128_max, checked_add,
  checked_sub,
}
use neutron_tge_contracts.Cosmwasm.{Addr, Denom, Coin, Cosmwasm, MessageInfo, Env}
use neutron_tge_contracts.Auction.Types.{
  PoolType, usdc, atom, PoolInfo, PoolBalance, Config, State, AuctionError, Msg, provide_liquidity,
  finalize_pool_initialization, cw20_transfer, send_to_lockdrop, Store, Outcome,
  liquidity_already_added, windows_open, pool_size_already_set, query_failed, invalid_price_data,
  price_data_too_old, not_enough_ntrn, lp_size_too_big, pool_size_not_set, lock_window_open,
  pool_info_not_set, unauthorized, lockdrop_not_set, overflow, panicked,
}
use neutron_tge_contracts.Auction.Windows.{are_windows_closed, is_lock_window_closed}
use neutron_tge_contracts.Auction.Deposit.{get_denoms}

-- `PriceFeedRate`: a rate and the time at which it was found.
pub record PriceFeedRate : Type 0 where
  pub rate : ℕ
  pub resolve_time : ℕ

-- What the chain and the other contracts answer during a call; `none` is a failed query.
pub record Querier : Type 0 where
  -- `query_balance` of the contract's own NTRN
  pub ntrn_balance : Option ℕ
  -- `GetRate` of the price feed: ATOM, then USDC
  pub exchange_rates : Option (List PriceFeedRate)
  -- `query_token_balance` of the contract, by token
  pub token_balance : ℕ → Option ℕ

-- `MINIMUM_LIQUIDITY_AMOUNT`
abbrev pub minimum_liquidity_amount : ℕ
minimum_liquidity_amount = 1000

abbrev pub two_rates : List PriceFeedRate → Result AuctionError (PriceFeedRate × PriceFeedRate)
two_rates (first ∷ second ∷ []) = ok (first, second)
two_rates _ = err invalid_price_data

-- The four sizes that are stored.
pub record PoolSizes : Type 0 where
  pub usdc_ntrn : ℕ
  pub atom_ntrn : ℕ
  pub atom_lp : ℕ
  pub usdc_lp : ℕ

-- `sqrt` is `U256::integer_sqrt`.
module _ (cw : Cosmwasm) (sqrt : ℕ → ℕ) where
  unfoldable pub get_lp_size : ℕ → ℕ → Result AuctionError ℕ
  get_lp_size token1 token2 = do
    root ← bounded_by u128_max panicked (sqrt (token1 * token2))
    checked_sub lp_size_too_big root minimum_liquidity_amount

  -- The share of the NTRN that goes with USDC, by the value of both deposits in USDC.
  unfoldable pub usdc_share : PriceFeedRate → PriceFeedRate → ℕ → ℕ → Result AuctionError ℕ
  usdc_share atom_rate usdc_rate usdc_amount atom_amount = do
    usdc_to_atom_rate ← ok_or panicked (cw.from_ratio usdc_rate.rate atom_rate.rate)
    atom_decimal ← ok_or overflow (cw.decimal_of atom_amount)
    atom_in_usdc ← ok_or panicked (cw.div_decimal atom_decimal usdc_to_atom_rate)
    all_in_usdc ← checked_add overflow usdc_amount (cw.floor_decimal atom_in_usdc)
    ok_or panicked (cw.from_ratio usdc_amount all_in_usdc)

  unfoldable pub compute_sizes :
      PriceFeedRate → PriceFeedRate → ℕ → ℕ → ℕ → Result AuctionError PoolSizes
  compute_sizes atom_rate usdc_rate ntrn_amount usdc_amount atom_amount = do
    div_ratio ← usdc_share atom_rate usdc_rate usdc_amount atom_amount
    usdc_ntrn ← ok_or panicked (cw.mul_decimal ntrn_amount div_ratio)
    atom_ntrn ← checked_sub panicked ntrn_amount usdc_ntrn
    atom_lp ← get_lp_size atom_ntrn atom_amount
    usdc_lp ← get_lp_size usdc_ntrn usdc_amount
    ok (record {
      usdc_ntrn = usdc_ntrn;
      atom_ntrn = atom_ntrn;
      atom_lp = atom_lp;
      usdc_lp = usdc_lp;
    })

  unfoldable pub execute_set_pool_size : Querier → Env → Store → Outcome
  execute_set_pool_size querier env s = do
    reject_if (is_some s.state.lp_usdc_shares_minted || is_some s.state.lp_atom_shares_minted)
        liquidity_already_added
    closed ← are_windows_closed env.time s.config
    ensure closed windows_open
    reject_if (not (s.state.usdc_ntrn_size == 0) || not (s.state.atom_ntrn_size == 0))
        pool_size_already_set
    ntrn_amount ← ok_or query_failed querier.ntrn_balance
    rates ← ok_or query_failed querier.exchange_rates
    (atom_rate, usdc_rate) ← two_rates rates
    oldest ← checked_sub panicked env.time s.config.max_exchange_rate_age
    reject_if (ltb atom_rate.resolve_time oldest) price_data_too_old
    reject_if (ltb ntrn_amount s.config.min_ntrn_amount) not_enough_ntrn
    sizes ←
        compute_sizes atom_rate usdc_rate ntrn_amount s.state.total_usdc_deposited
          s.state.total_atom_deposited
    ok (
      record s {
        state = record (s.state) {
          usdc_ntrn_size = sizes.usdc_ntrn;
          atom_ntrn_size = sizes.atom_ntrn;
          atom_lp_size = sizes.atom_lp;
          usdc_lp_size = sizes.usdc_lp;
        };
      },
      [],
    )

-- `funds.sort_by(denom)` of two coins, which keeps the order of equal ones.
abbrev pub sort_coins : Coin → Coin → List Coin
sort_coins a b = if ltb b.denom a.denom then b ∷ a ∷ [] else a ∷ b ∷ []

abbrev pub build_provide_liquidity_to_lp_pool_msg : ℕ → ℕ → Denom → ℕ → Denom → Msg
build_provide_liquidity_to_lp_pool_msg pool base_amount base_denom other_amount other_denom =
    let base : Coin = record { denom = base_denom; amount = base_amount } in
    let other : Coin = record { denom = other_denom; amount = other_amount } in
    provide_liquidity pool base other (sort_coins base other)

-- The USDC balance, then the ATOM balance.
unfoldable pub get_lp_balances : Querier → PoolInfo → Result AuctionError (ℕ × ℕ)
get_lp_balances querier pools = do
  usdc_lp ← ok_or query_failed (querier.token_balance pools.ntrn_usdc_lp_token_address)
  atom_lp ← ok_or query_failed (querier.token_balance pools.ntrn_atom_lp_token_address)
  ok (usdc_lp, atom_lp)

unfoldable pub execute_init_pool : Querier → Env → Store → Outcome
execute_init_pool querier env s = do
  (usdc_denom, atom_denom) ← get_denoms s.config
  reject_if (is_some s.state.lp_usdc_shares_minted || is_some s.state.lp_atom_shares_minted)
      liquidity_already_added
  reject_if (s.state.usdc_lp_size == 0 && s.state.atom_lp_size == 0) pool_size_not_set
  closed ← is_lock_window_closed env.time s.config
  ensure closed lock_window_open
  pools ← ok_or pool_info_not_set s.config.pool_info
  (usdc_lp, atom_lp) ← get_lp_balances querier pools
  ok (
    s,
    build_provide_liquidity_to_lp_pool_msg pools.ntrn_usdc_pool_address s.state.usdc_ntrn_size
          s.config.ntrn_denom s.state.total_usdc_deposited usdc_denom
        ∷ build_provide_liquidity_to_lp_pool_msg pools.ntrn_atom_pool_address s.state.atom_ntrn_size
            s.config.ntrn_denom s.state.total_atom_deposited atom_denom
        ∷ finalize_pool_initialization env.contract (record { atom = atom_lp; usdc = usdc_lp })
        ∷ [],
  )

-- The locked tokens of a pool go to the lockdrop contract, if there are any.
abbrev pub send_locked : ℕ → Addr → ℕ → PoolType → ℕ → List Msg
send_locked token lockdrop locked pool_type incentives_share =
    if locked == 0
    then []
    else send_to_lockdrop token lockdrop locked pool_type incentives_share ∷ []

unfoldable pub execute_finalize_init_pool :
    Querier → Env → MessageInfo → PoolBalance → Store → Outcome
execute_finalize_init_pool querier env info prev s = do
  ensure (info.sender == env.contract) unauthorized
  lockdrop ← ok_or lockdrop_not_set s.config.lockdrop_contract_address
  pools ← ok_or pool_info_not_set s.config.pool_info
  (usdc_lp, atom_lp) ← get_lp_balances querier pools
  usdc_minted ← checked_sub panicked usdc_lp prev.usdc
  atom_minted ← checked_sub panicked atom_lp prev.atom
  ok (
    record s {
      state = record (s.state) {
        lp_atom_shares_minted = some atom_minted;
        lp_usdc_shares_minted = some usdc_minted;
        pool_init_timestamp = env.time;
      };
    },
    cw20_transfer pools.ntrn_usdc_lp_token_address s.config.reserve_contract_address
            (usdc_minted / 2)
          ∷ cw20_transfer pools.ntrn_atom_lp_token_address s.config.reserve_contract_address
              (atom_minted / 2)
          ∷ send_locked pools.ntrn_atom_lp_token_address lockdrop s.state.atom_lp_locked atom
              s.state.atom_ntrn_size
        ++ send_locked pools.ntrn_usdc_lp_token_address lockdrop s.state.usdc_lp_locked usdc
            s.state.usdc_ntrn_size,
  )
