-- ===== src/Lockdrop/Storage.antt =====
-- The access to the storage: contracts/lockdrop/src/state.rs with its `CompatibleLoader`.
use neutron_tge_contracts.Prelude.{
  ℕ, Option, none, some, List, [], ◌∷◌, ◌==◌, unwrap_or, if◌then◌else◌,
}
use neutron_tge_contracts.Prelude.Map.{Map, lookup, insert, erase}
use neutron_tge_contracts.Prelude.Result.{Result, ok, err, ◌>>=◌, ok_or}
use neutron_tge_contracts.Cosmwasm.{Addr}
use neutron_tge_contracts.Auction.Types.{PoolType, usdc, atom}
use neutron_tge_contracts.Lockdrop.Types.{
  AssetAmounts, PoolInfo, LockupInfoV1, LockupInfoV2, StoredLockup, v1, v2, PoolData, Store,
  LockdropError, std_error, panicked, query_failed, proxy_not_found,
}
use neutron_tge_contracts.Lockdrop.Chain.{Chain, Astroport}

abbrev pub pool_of : PoolType → Store → PoolData
pool_of atom s = s.atom_pool
pool_of usdc s = s.usdc_pool

abbrev pub set_pool : PoolType → PoolData → Store → Store
set_pool atom p s = record s { atom_pool = p }
set_pool usdc p s = record s { usdc_pool = p }

-- `ASSET_POOLS.load`
abbrev pub load_pool_info : PoolData → Result LockdropError PoolInfo
load_pool_info p = ok_or std_error p.pool_info

-- The positions of a user, by duration.
abbrev pub positions_of : Addr → Map (Map StoredLockup) → Map StoredLockup
positions_of user lockups = unwrap_or [] (lookup user lockups)

abbrev pub position : Addr → ℕ → Map (Map StoredLockup) → Option StoredLockup
position user duration lockups = lookup duration (positions_of user lockups)

abbrev pub save_position : Addr → ℕ → LockupInfoV2 → Map (Map StoredLockup) → Map (Map StoredLockup)
save_position user duration info lockups =
    insert user (insert duration (v2 info) (positions_of user lockups)) lockups

abbrev pub remove_position : Addr → ℕ → Map (Map StoredLockup) → Map (Map StoredLockup)
remove_position user duration lockups =
    insert user (erase duration (positions_of user lockups)) lockups

-- The value that `TOTAL_USER_LOCKUP_AMOUNT.update` saves.
abbrev pub updated_total : Option ℕ → ℕ → (ℕ → Result LockdropError ℕ) → Result LockdropError ℕ
updated_total none absent f = ok absent
updated_total (some total) absent f = f total

abbrev pub first_proxy : List Addr → Result LockdropError Addr
first_proxy [] = err proxy_not_found
first_proxy (proxy ∷ rest) = ok proxy

-- The code's V2 form of a V1 position.
abbrev pub upgraded : LockupInfoV1 → AssetAmounts → LockupInfoV2
upgraded old debt = record {
  lp_units_locked = old.lp_units_locked;
  astroport_lp_transferred = old.astroport_lp_transferred;
  withdrawal_flag = old.withdrawal_flag;
  ntrn_rewards = old.ntrn_rewards;
  generator_ntrn_debt = old.generator_ntrn_debt;
  generator_proxy_debt = debt;
  unlock_timestamp = old.unlock_timestamp;
}

module _ (chain : Chain) (astroport : Astroport) where
  -- The debt of a V1 position, as a vector with the asset of the pool's first proxy.
  unfoldable pub upgraded_debt : Addr → Option PoolInfo → ℕ → Result LockdropError AssetAmounts
  upgraded_debt generator pool debt = if debt == 0 then ok [] else (do
    pool_info ← ok_or std_error pool
    proxies ← ok_or query_failed (chain.proxies generator pool_info.lp_token)
    proxy ← first_proxy proxies
    reward_asset ← ok_or query_failed (chain.raw_proxy_asset generator proxy)
    (updated, _) ← ok_or std_error (astroport.update reward_asset debt [])
    ok updated)

  unfoldable pub upgrade :
      Option PoolInfo → Option Addr → StoredLockup → Result LockdropError LockupInfoV2
  upgrade pool generator (v2 info) = ok info
  upgrade pool generator (v1 old) = do
    address ← ok_or panicked generator
    debt ← upgraded_debt address pool old.generator_proxy_debt
    ok (upgraded old debt)

  unfoldable pub compatible_load :
      PoolData → Addr → ℕ → Option Addr → Result LockdropError LockupInfoV2
  compatible_load p user duration generator = do
    stored ← ok_or std_error (position user duration p.lockups)
    upgrade p.pool_info generator stored

  abbrev pub compatible_found :
      PoolData → Option Addr → Option StoredLockup → Result LockdropError (Option LockupInfoV2)
  compatible_found p generator none = ok none
  compatible_found p generator (some stored) = do
    info ← upgrade p.pool_info generator stored
    ok (some info)

  unfoldable pub compatible_may_load :
      PoolData → Addr → ℕ → Option Addr → Result LockdropError (Option LockupInfoV2)
  compatible_may_load p user duration generator =
      compatible_found p generator (position user duration p.lockups)
