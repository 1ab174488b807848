-- ===== src/Lockdrop/RoundTrip/Removed.antt =====
-- The steps of a withdrawal that removes a position.
use neutron_tge_contracts.Prelude.{
  ℕ, ◌+◌, ◌-◌, ◌<◌, ◌≡◌, refl, true, none, List, [], arith, leb, ◌==◌, if◌then◌else◌, Bool-cases,
  inl, inr,
}
use neutron_tge_contracts.Prelude.Map.{Map, insert, erase, lookup-insert, erase-insert}
use neutron_tge_contracts.Prelude.Result.{ok, ◌>>=◌, Yields, Yields-bind, Yields-pure}
use neutron_tge_contracts.Cosmwasm.{Addr, Cosmwasm}
use neutron_tge_contracts.Auction.Types.{PoolType, usdc, atom}
use neutron_tge_contracts.Lockdrop.Types.{
  Config, PoolInfo, LockupInfoV2, StoredLockup, PoolData, Store, Msg,
}
use neutron_tge_contracts.Lockdrop.Chain.{Chain, Astroport}
use neutron_tge_contracts.Lockdrop.Storage.{
  pool_of, set_pool, positions_of, position, remove_position,
}
use neutron_tge_contracts.Lockdrop.Amounts.{calculate_weight}
use neutron_tge_contracts.Lockdrop.Lockups.{load_user, taken_from_pool, store_position}
use neutron_tge_contracts.Lockdrop.Totals.{total_of}
use neutron_tge_contracts.Lockdrop.RoundTrip.Open.{grown_pool}

pub users-set_pool :
    (pool_type : PoolType) (p : PoolData) (s : Store) → (set_pool pool_type p s).users ≡ s.users
users-set_pool usdc p s = refl
users-set_pool atom p s = refl

-- What may be observed of a store: the pool, everyone's positions and totals in it, the users and
-- the configuration.
pub record IsRestored (pool_type : PoolType) (s : Store) (r : Store × List Msg) : Type 0 where
  pub messages : r.1 ≡ []
  pub same_pool : (pool_of pool_type r.0).pool_info ≡ (pool_of pool_type s).pool_info
  pub same_positions :
      (j : Addr)
      → positions_of j (pool_of pool_type r.0).lockups
        ≡ positions_of j (pool_of pool_type s).lockups
  pub same_totals :
      (j : Addr)
      → total_of j (pool_of pool_type r.0).user_totals
        ≡ total_of j (pool_of pool_type s).user_totals
  pub same_users : (j : Addr) → load_user j r.0 ≡ load_user j s
  pub same_config : r.0.config ≡ s.config

pub positions-insert :
    (user j : Addr) (m : Map StoredLockup) (lockups : Map (Map StoredLockup))
    → positions_of j (insert user m lockups) ≡ (if j == user then m else positions_of j lockups)
positions-insert user j m lockups = elim (Bool-cases (j == user)) [
  | inl here ↦ rw (lookup-insert user j m lockups, here) refl
  | inr there ↦ rw (lookup-insert user j m lockups, there) refl
]

pub restored_positions :
    (user duration : ℕ) (v : StoredLockup) (lockups : Map (Map StoredLockup)) (j : Addr)
    → position user duration lockups ≡ none
    → positions_of j (
        remove_position user duration
          (insert user (insert duration v (positions_of user lockups)) lockups))
      ≡ positions_of j lockups
restored_positions user duration v lockups j new =
    let m = positions_of user lockups in
    let one = insert user (insert duration v m) lockups in
    let own : positions_of user one ≡ insert duration v m =
      ground (arith, positions-insert user user (insert duration v m) lockups) in
    elim (Bool-cases (j == user)) [
      | inl here ↦
          let same : j ≡ user = ground arith in
          rw
            (
              positions-insert user j (erase duration (positions_of user one)) one,
              here,
              own,
              erase-insert duration v m new,
              same,
            )
            refl
      | inr there ↦
          rw
            (
              positions-insert user j (erase duration (positions_of user one)) one,
              there,
              positions-insert user j (insert duration v m) lockups,
              there,
            )
            refl
    ]

module _ (cw : Cosmwasm) (chain : Chain) (astroport : Astroport) where
  pub taken-grown :
      (amount duration weight : ℕ) (config : Config) (info : PoolInfo)
      → calculate_weight amount duration config ≡ ok weight
      → taken_from_pool cw chain astroport amount duration config (grown_pool amount weight info)
        ≡ ok info
  unfolding taken_from_pool ◌>>=◌
  taken-grown amount duration weight config info weighed =
      let fits : leb weight (info.weighted_amount + weight) ≡ true = ground arith in
      let fits' : leb amount (info.amount_in_lockups + amount) ≡ true = ground arith in
      let minus : info.weighted_amount + weight - weight ≡ info.weighted_amount = omega arith in
      let minus' : info.amount_in_lockups + amount - amount ≡ info.amount_in_lockups =
        omega arith in
      rw (weighed, fits, fits', minus, minus') refl

  -- What is left of the position is nothing, so it is removed and counted off.
  abbrev pub Removes : Addr → ℕ → PoolData → Store → PoolData × Store → Type 0
  Removes user duration p s r =
      (r.0 ≡ record p { lockups = remove_position user duration p.lockups })
      × (r.1.config ≡ s.config)
      × ((j : Addr)
          → load_user j r.1 ≡ (
              if j == user
              then record (load_user user s) {
                lockup_positions_index = (load_user user s).lockup_positions_index - 1;
              }
              else load_user j s))

  pub store_position-Removes :
      (user duration : ℕ) (info : LockupInfoV2) (p : PoolData) (s : Store)
      → info.lp_units_locked ≡ 0
      → 0 < (load_user user s).lockup_positions_index
      → Yields
          (Removes user duration p s)
          (store_position cw chain astroport user duration info p s)
  unfolding store_position
  store_position-Removes user duration info p s empty counted =
      let is_empty : (info.lp_units_locked == 0) ≡ true = ground (arith, empty) in
      let index = (load_user user s).lockup_positions_index in
      let some_left : leb 1 index ≡ true = ground arith in
      rw is_empty (
        Yields-bind _ (index - 1) (rw some_left refl) (
          Yields-pure (
            refl,
            refl,
            λ j. elim (Bool-cases (j == user)) [
              | inl here ↦
                  rw
                    (
                      lookup-insert user j
                          (record (load_user user s) { lockup_positions_index = index - 1 })
                          s.users,
                      here,
                    )
                    refl
              | inr there ↦
                  rw
                    (
                      lookup-insert user j
                          (record (load_user user s) { lockup_positions_index = index - 1 })
                          s.users,
                      there,
                    )
                    refl
            ],
          )))
