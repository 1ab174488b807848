-- ===== src/Lockdrop/RoundTrip/Open.antt =====
-- What an increase that opens a position leaves.
use neutron_tge_contracts.Prelude.{ℕ, ◌+◌, ◌≡◌, refl, false, none, some, List, [], arith, unwrap_or}
use neutron_tge_contracts.Prelude.Map.{lookup, insert}
use neutron_tge_contracts.Prelude.Result.{ok, ok_or-eq-ok, Ensures, Ensures-bind, Ensures-pure}
use neutron_tge_contracts.Cosmwasm.{Addr, Cosmwasm}
use neutron_tge_contracts.Auction.Types.{PoolType}
use neutron_tge_contracts.Lockdrop.Types.{
  Config, PoolInfo, UserInfo, LockupInfoV2, v2, PoolData, Store, Msg, std_error,
}
use neutron_tge_contracts.Lockdrop.Chain.{Chain, Astroport}
use neutron_tge_contracts.Lockdrop.Storage.{
  pool_of, set_pool, positions_of, position, compatible_may_load,
}
use neutron_tge_contracts.Lockdrop.Amounts.{calculate_weight}
use neutron_tge_contracts.Lockdrop.Lockups.{load_user, add_to_pool, increased, add_to_lockup}
use neutron_tge_contracts.Lockdrop.Totals.Lockups.{added_total}

abbrev pub new_position : ℕ → ℕ → LockupInfoV2
new_position amount unlock = record {
  lp_units_locked = amount;
  astroport_lp_transferred = none;
  withdrawal_flag = false;
  ntrn_rewards = 0;
  generator_ntrn_debt = 0;
  generator_proxy_debt = [];
  unlock_timestamp = unlock;
}

-- The storage with a new position in it.
abbrev pub grown_pool : ℕ → ℕ → PoolInfo → PoolInfo
grown_pool amount weight info = record info {
  weighted_amount = info.weighted_amount + weight;
  amount_in_lockups = info.amount_in_lockups + amount;
}

abbrev pub opened_pool : Addr → ℕ → ℕ → ℕ → ℕ → ℕ → PoolInfo → PoolData → PoolData
opened_pool user duration amount weight unlock total info p = record {
  pool_info = some (grown_pool amount weight info);
  lockups =
      insert user (insert duration (v2 (new_position amount unlock)) (positions_of user p.lockups))
        p.lockups;
  user_totals = insert user total p.user_totals;
}

abbrev pub opened_user : Addr → Store → UserInfo
opened_user user s = record (load_user user s) {
  lockup_positions_index = (load_user user s).lockup_positions_index + 1;
}

abbrev pub opened : PoolType → Addr → ℕ → ℕ → ℕ → ℕ → ℕ → PoolInfo → Store → Store
opened pool_type user duration amount weight unlock total info s =
    set_pool pool_type
      (opened_pool user duration amount weight unlock total info (pool_of pool_type s))
      (record s { users = insert user (opened_user user s) s.users })

-- What a successful increase of no position has found and left.
pub record Opens (cw : Cosmwasm) (pool_type : PoolType) (user : Addr) (duration amount : ℕ)
    (s : Store) (r : Store × List Msg) : Type 0 where
  pub info : PoolInfo
  pub weight : ℕ
  pub unlock : ℕ
  pub total : ℕ
  pub loaded : (pool_of pool_type s).pool_info ≡ some info
  pub weighed : calculate_weight amount duration s.config ≡ ok weight
  pub summed : total ≡ unwrap_or 0 (lookup user (pool_of pool_type s).user_totals) + amount
  pub left : r.0 ≡ opened pool_type user duration amount weight unlock total info s

add_to_pool-grown :
    (amount duration : ℕ) (config : Config) (info : PoolInfo)
    → Ensures
        (λ info'.
          (weight : ℕ) × (calculate_weight amount duration config ≡ ok weight)
          × (info' ≡ grown_pool amount weight info))
        (add_to_pool amount duration config info)
unfolding add_to_pool
add_to_pool-grown amount duration config info = Ensures-bind λ weight w. Ensures-bind λ weighted e.
    Ensures-bind λ locked e'.
      let same_weighted : weighted ≡ info.weighted_amount + weight = ground arith in
      let same_locked : locked ≡ info.amount_in_lockups + amount = ground arith in
      Ensures-pure (weight, w, rw (same_weighted, same_locked) refl)

increased-opened :
    (amount duration : ℕ) (config : Config) (user_info : UserInfo)
    → Ensures
        (λ r.
          (unlock : ℕ) × (r.0 ≡ new_position amount unlock)
          × (r.1
              ≡ record user_info { lockup_positions_index = user_info.lockup_positions_index + 1 }))
        (increased none amount duration config user_info)
unfolding increased
increased-opened amount duration config user_info = Ensures-bind λ _ _. Ensures-bind λ index i.
    Ensures-bind λ unlock _.
      let same : index ≡ user_info.lockup_positions_index + 1 = ground arith in
      Ensures-pure (unlock, refl, rw same refl)

module _ (cw : Cosmwasm) (chain : Chain) (astroport : Astroport) where
  pub add_to_lockup-Opens :
      (pool_type : PoolType) (user : Addr) (duration amount : ℕ) (s : Store)
      → position user duration (pool_of pool_type s).lockups ≡ none
      → Ensures
          (Opens cw pool_type user duration amount s)
          (add_to_lockup cw chain astroport pool_type user duration amount s)
  unfolding add_to_lockup compatible_may_load
  add_to_lockup-Opens pool_type user duration amount s new =
      let p = pool_of pool_type s in
      Ensures-bind λ pool_info e. Ensures-bind λ _ _. Ensures-bind λ pool_info' e'.
        Ensures-bind λ found f. Ensures-bind λ (info, user_info) g. Ensures-bind λ total t.
          let grown = (add_to_pool-grown amount duration s.config pool_info).holds pool_info' e' in
          let nothing : found ≡ none = cc (rw new at f) in
          let entered =
            (increased-opened amount duration s.config (load_user user s)).holds (info, user_info)
              (rw nothing at g) in
          Ensures-pure (record {
            info = pool_info;
            weight = grown.0;
            unlock = entered.0;
            total = total;
            loaded = ok_or-eq-ok std_error p.pool_info e;
            weighed = grown.1;
            summed = added_total (lookup user p.user_totals) amount total t;
            left = rw (grown.2, entered.1, entered.2) refl;
          })
