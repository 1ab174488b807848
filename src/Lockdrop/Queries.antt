-- ===== src/Lockdrop/Queries.antt =====
-- The queries of contracts/lockdrop/src/contract.rs.
use neutron_tge_contracts.Prelude.{
  ℕ, Bool, false, not, ◌&&◌, Option, none, some, List, [], ◌∷◌, ◌++◌, ◌==◌, if◌then◌else◌,
  unwrap_or,
}
use neutron_tge_contracts.Prelude.Map.{lookup}
use neutron_tge_contracts.Prelude.Result.{Result, ok, ◌>>=◌, ok_or, checked_add, checked_sub}
use neutron_tge_contracts.Cosmwasm.{Addr, Cosmwasm}
use neutron_tge_contracts.Vesting.Types.{AssetInfo, token, native_token}
use neutron_tge_contracts.Auction.Types.{PoolType, usdc, atom}
use neutron_tge_contracts.Lockdrop.Types.{
  Asset, AssetAmounts, PoolInfo, LockupInfoV2, PoolData, Store, LockdropError, std_error, overflow,
  panicked, query_failed, generator_not_set,
}
use neutron_tge_contracts.Lockdrop.Chain.{Chain, Astroport}
use neutron_tge_contracts.Lockdrop.Storage.{pool_of, load_pool_info, compatible_load}
use neutron_tge_contracts.Lockdrop.Amounts.{lp_share, rewards_for}
use neutron_tge_contracts.Lockdrop.Rewards.{position_rewards, user_keys}
use neutron_tge_contracts.Lockdrop.Lockups.{load_user}

pub record StateResponse : Type 0 where
  pub total_incentives_share : ℕ
  pub supported_pairs_list : List PoolType

pub record LockUpInfoResponse : Type 0 where
  pub pool_type : PoolType
  pub lp_units_locked : ℕ
  pub withdrawal_flag : Bool
  pub ntrn_rewards : ℕ
  pub duration : ℕ
  pub generator_ntrn_debt : ℕ
  pub claimable_generator_astro_debt : ℕ
  pub generator_proxy_debt : AssetAmounts
  pub claimable_generator_proxy_debt : AssetAmounts
  pub unlock_timestamp : ℕ
  pub astroport_lp_units : Option ℕ
  pub astroport_lp_token : Addr
  pub astroport_lp_transferred : Option ℕ

pub record UserInfoResponse : Type 0 where
  pub total_ntrn_rewards : ℕ
  pub ntrn_transferred : Bool
  pub lockup_infos : List LockUpInfoResponse
  pub claimable_generator_ntrn_debt : ℕ
  pub lockup_positions_index : ℕ

pub record UserInfoWithListResponse : Type 0 where
  pub total_ntrn_rewards : ℕ
  pub ntrn_transferred : Bool
  pub lockup_infos : List (PoolType × ℕ)
  pub lockup_positions_index : ℕ

-- The LP units of a position, and what can be claimed of the generator for it.
pub record Claimable : Type 0 where
  pub lp_units : ℕ
  pub base : ℕ
  pub by_proxy : AssetAmounts

abbrev pub supported : PoolType → Option PoolInfo → List PoolType
supported pool_type none = []
supported pool_type (some info) = pool_type ∷ []

abbrev pub query_state : Store → StateResponse
query_state s = record {
  total_incentives_share = s.total_incentives_share;
  supported_pairs_list =
      supported atom s.atom_pool.pool_info ++ supported usdc s.usdc_pool.pool_info;
}

abbrev pub locked_in : Option PoolInfo → ℕ
locked_in none = 0
locked_in (some info) = info.amount_in_lockups

-- A query at a height is about the pool that was stored at it.
abbrev pub query_lockup_total_at_height : PoolData → Option ℕ
query_lockup_total_at_height past = some (locked_in past.pool_info)

abbrev pub query_user_lockup_total_at_height : Addr → PoolData → Option ℕ
query_user_lockup_total_at_height user past = lookup user past.user_totals

abbrev pub same_asset : AssetInfo → AssetInfo → Bool
same_asset (token a) (token b) = a == b
same_asset (native_token a) (native_token b) = a == b
same_asset _ _ = false

unfoldable pub find_debt : AssetInfo → AssetAmounts → Option ℕ
find_debt asset [] = none
find_debt asset ((other, debt) ∷ rest) =
    if same_asset asset other then some debt else find_debt asset rest

module _ (cw : Cosmwasm) (chain : Chain) (astroport : Astroport) where
  -- The LP tokens that the contract has of the pool, by a raw query.
  unfoldable pub pool_lp_units : Option Addr → PoolInfo → Result LockdropError ℕ
  pool_lp_units generator pool_info =
      if pool_info.is_staked
      then (do
        address ← ok_or generator_not_set generator
        ok_or query_failed (chain.raw_generator_deposit address pool_info.lp_token))
      else ok_or query_failed (chain.raw_balance pool_info.lp_token)

  -- The loop over the pending proxy rewards.
  unfoldable pub proxy_claims :
      ℕ
      → ℕ
      → AssetAmounts
      → List Asset
      → AssetAmounts
      → AssetAmounts
      → Result LockdropError AssetAmounts
  proxy_claims pool_units lp_units debts [] shares claims = ok claims
  proxy_claims pool_units lp_units debts (reward ∷ rest) shares claims = do
    ratio ← ok_or panicked (cw.from_ratio reward.amount pool_units)
    (shares', share) ← ok_or overflow (astroport.update reward.asset_info ratio shares)
    total ← ok_or overflow (astroport.checked_mul_uint128 share lp_units)
    debt ← checked_sub overflow total (unwrap_or 0 (find_debt reward.asset_info debts))
    (claims', _) ← ok_or overflow (astroport.update reward.asset_info debt claims)
    proxy_claims pool_units lp_units debts rest shares' claims'

  unfoldable pub claimable : PoolInfo → LockupInfoV2 → Store → Result LockdropError Claimable
  claimable pool_info info s = do
    pool_units ← pool_lp_units s.config.generator pool_info
    lp_units ← lp_share info.lp_units_locked pool_units pool_info.amount_in_lockups
    if pool_info.is_staked && not (lp_units == 0)
        then (do
          generator ← ok_or generator_not_set s.config.generator
          pending ← ok_or query_failed (chain.pending_tokens generator pool_info.lp_token)
          ratio ← ok_or panicked (cw.from_ratio pending.pending pool_units)
          per_share ← checked_add overflow pool_info.generator_ntrn_per_share ratio
          total ← rewards_for cw astroport per_share lp_units
          base ← checked_sub overflow total info.generator_ntrn_debt
          by_proxy ←
              proxy_claims pool_units lp_units info.generator_proxy_debt
                (unwrap_or [] pending.pending_on_proxy) pool_info.generator_proxy_per_share []
          ok (record { lp_units = lp_units; base = base; by_proxy = by_proxy }))
        else ok (record { lp_units = lp_units; base = 0; by_proxy = [] })

  abbrev pub claimable_of :
      Option ℕ → PoolInfo → LockupInfoV2 → Store → Result LockdropError Claimable
  claimable_of none pool_info info s = claimable pool_info info s
  claimable_of (some transferred) pool_info info s =
      ok (record { lp_units = transferred; base = 0; by_proxy = [] })

  unfoldable pub query_lockup_info :
      ℕ → PoolType → ℕ → Store → Result LockdropError LockUpInfoResponse
  query_lockup_info user_address pool_type duration s = do
    user ← ok_or std_error (cw.addr_validate user_address)
    pool_info ← load_pool_info (pool_of pool_type s)
    info ← compatible_load chain astroport (pool_of pool_type s) user duration s.config.generator
    c ← claimable_of info.astroport_lp_transferred pool_info info s
    rewards ← position_rewards cw chain astroport s pool_info duration info
    ok (record {
      pool_type = pool_type;
      lp_units_locked = info.lp_units_locked;
      withdrawal_flag = info.withdrawal_flag;
      ntrn_rewards = rewards;
      duration = duration;
      generator_ntrn_debt = info.generator_ntrn_debt;
      claimable_generator_astro_debt = c.base;
      generator_proxy_debt = info.generator_proxy_debt;
      claimable_generator_proxy_debt = c.by_proxy;
      unlock_timestamp = info.unlock_timestamp;
      astroport_lp_units = some c.lp_units;
      astroport_lp_token = pool_info.lp_token;
      astroport_lp_transferred = info.astroport_lp_transferred;
    })

  -- The loop over a user's positions: the responses, the rewards and what can be claimed.
  unfoldable pub query_positions :
      ℕ
      → List (PoolType × ℕ)
      → ℕ
      → ℕ
      → Store
      → Result LockdropError (List LockUpInfoResponse × (ℕ × ℕ))
  query_positions user_address [] rewards debt s = ok ([], (rewards, debt))
  query_positions user_address ((pool_type, duration) ∷ keys) rewards debt s = do
    info ← query_lockup_info user_address pool_type duration s
    rewards' ← checked_add overflow rewards info.ntrn_rewards
    debt' ← checked_add overflow debt info.claimable_generator_astro_debt
    (infos, totals) ← query_positions user_address keys rewards' debt' s
    ok (info ∷ infos, totals)

  unfoldable pub query_user_info : ℕ → Store → Result LockdropError UserInfoResponse
  query_user_info user_address s = do
    user ← ok_or std_error (cw.addr_validate user_address)
    let user_info = load_user user s
    (infos, (rewards, debt)) ← query_positions user_address (user_keys user s) 0 0 s
    ok (record {
      total_ntrn_rewards = rewards;
      ntrn_transferred = user_info.ntrn_transferred;
      lockup_infos = infos;
      claimable_generator_ntrn_debt = debt;
      lockup_positions_index = user_info.lockup_positions_index;
    })

  unfoldable pub query_user_info_with_lockups_list :
      ℕ → Store → Result LockdropError UserInfoWithListResponse
  query_user_info_with_lockups_list user_address s = do
    user ← ok_or std_error (cw.addr_validate user_address)
    let user_info = load_user user s
    ok (record {
      total_ntrn_rewards = user_info.total_ntrn_rewards;
      ntrn_transferred = user_info.ntrn_transferred;
      lockup_infos = user_keys user s;
      lockup_positions_index = user_info.lockup_positions_index;
    })
