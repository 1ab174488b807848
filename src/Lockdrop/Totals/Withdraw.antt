-- ===== src/Lockdrop/Totals/Withdraw.antt =====
-- A withdrawal and a closed position keep the amounts that a pool counts.
use neutron_tge_contracts.Prelude.{ℕ, ◌+◌, ◌≡◌, refl, ◌∙◌, Bool, none, some, arith, ◌==◌}
use neutron_tge_contracts.Prelude.Map.{Map, lookup, insert, erase, measure_at}
use neutron_tge_contracts.Prelude.Result.{
  ok, Ensures, Ensures-bind, Ensures-if, Ensures-pure, ok_or-eq-ok,
}
use neutron_tge_contracts.Cosmwasm.{Addr, Cosmwasm, MessageInfo, Env}
use neutron_tge_contracts.Auction.Types.{PoolType}
use neutron_tge_contracts.Lockdrop.Types.{
  Config, PoolInfo, LockupInfoV2, StoredLockup, v2, PoolData, Store, std_error,
}
use neutron_tge_contracts.Lockdrop.Chain.{Chain, Astroport}
use neutron_tge_contracts.Lockdrop.Storage.{pool_of, load_pool_info, positions_of, position}
use neutron_tge_contracts.Lockdrop.Lockups.{
  taken_from_pool, store_position, take_from_lockup, handle_withdraw_from_lockup,
}
use neutron_tge_contracts.Lockdrop.Claim.{close_position}
use neutron_tge_contracts.Lockdrop.Totals.{
  open_units, units_of, units_held, AreCounted, pool_of-IsCounted, set_pool-AreCounted,
  save-IsCounted,
}
use neutron_tge_contracts.Lockdrop.Totals.Positions.{
  IsOpen, LoadsFrom, compatible_load-LoadsFrom, units-insert, units-erase,
}
use neutron_tge_contracts.Lockdrop.Totals.Lockups.{Counted, load_pool_info-locked, taken_total}

module _ (cw : Cosmwasm) (chain : Chain) (astroport : Astroport) where
  pub taken_from_pool-locked :
      (amount duration : ℕ) (config : Config) (info : PoolInfo)
      → Ensures
          (λ info'. info'.amount_in_lockups + amount ≡ info.amount_in_lockups)
          (taken_from_pool cw chain astroport amount duration config info)
  unfolding taken_from_pool
  taken_from_pool-locked amount duration config info =
      Ensures-bind
        λ weight _. Ensures-bind λ weighted _. Ensures-bind λ locked e. Ensures-pure (ground arith)

  -- An emptied position is removed, another is saved.
  record IsStored (user : Addr) (info : LockupInfoV2) (stored : StoredLockup) (p : PoolData)
      (s : Store) (r : PoolData × Store) : Type 0 where
    positions : Map StoredLockup
    same_lockups : r.0.lockups ≡ insert user positions p.lockups
    same_totals : r.0.user_totals ≡ p.user_totals
    same_pools : (r.1.atom_pool ≡ s.atom_pool) × (r.1.usdc_pool ≡ s.usdc_pool)
    units :
        units_held positions + units_of stored
        ≡ units_held (positions_of user p.lockups) + info.lp_units_locked

  store_position-IsStored :
      (user : Addr) (duration : ℕ) (info : LockupInfoV2) (stored : StoredLockup) (p : PoolData)
      (s : Store)
      → position user duration p.lockups ≡ some stored
      → info.astroport_lp_transferred ≡ none
      → Ensures
          (IsStored user info stored p s)
          (store_position cw chain astroport user duration info p s)
  unfolding store_position
  store_position-IsStored user duration info stored p s found is_open =
      let m = positions_of user p.lockups in
      let measured : measure_at units_of (lookup duration m) ≡ units_of stored = rw found refl in
      let opened : open_units info ≡ info.lp_units_locked = rw is_open refl in
      Ensures-if (info.lp_units_locked == 0)
        (λ is_empty. Ensures-bind λ index _. Ensures-pure (record {
          positions = erase duration m;
          same_lockups = refl;
          same_totals = refl;
          same_pools = (refl, refl);
          units = ground (arith, is_empty, units-erase duration stored m found);
        }))
        (λ _. Ensures-pure (record {
          positions = insert duration (v2 info) m;
          same_lockups = refl;
          same_totals = refl;
          same_pools = (refl, refl);
          units = omega (arith, opened, measured, units-insert duration info m);
        }))

  take_from_lockup-AreCounted :
      (pool_type : PoolType) (user : Addr) (duration amount : ℕ) (pool_info : PoolInfo)
      (info : LockupInfoV2) (flag : Bool) (s : Store)
      → load_pool_info (pool_of pool_type s) ≡ ok pool_info
      → LoadsFrom (pool_of pool_type s) user duration info
      → info.astroport_lp_transferred ≡ none
      → AreCounted s
      → Ensures Counted
          (take_from_lockup cw chain astroport pool_type user duration amount pool_info info flag s)
  unfolding take_from_lockup
  take_from_lockup-AreCounted pool_type user duration amount pool_info info flag s e
        (stored, found, read) is_open h =
      let p = pool_of pool_type s in
      let opened : open_units info ≡ info.lp_units_locked = rw is_open refl in
      Ensures-bind λ units u. Ensures-bind λ pool_info' e'. Ensures-bind λ (p', s') t.
        Ensures-bind λ total v.
          let left : LockupInfoV2 = record info {
            lp_units_locked = units;
            withdrawal_flag = flag;
          } in
          let kept =
            (store_position-IsStored user duration left stored p s found is_open).holds (p', s')
              t in
          let counted = pool_of-IsCounted pool_type s h in
          let locked =
            (taken_from_pool-locked amount duration s.config pool_info).holds pool_info' e' in
          let shrunk : units_held kept.positions + amount
              ≡ units_held (positions_of user p.lockups) =
            ground (arith, kept.units, opened, read.same_units, u) in
          Ensures-pure (
            set_pool-AreCounted pool_type _ s'
              (rw kept.same_lockups (
                rw kept.same_totals (
                  save-IsCounted user kept.positions total p (some pool_info')
                    (omega (arith, locked, shrunk, load_pool_info-locked p pool_info e))
                    (omega (
                      arith,
                      shrunk,
                      counted.user_total user,
                      taken_total (lookup user p.user_totals) amount total
                          (omega (arith, shrunk, counted.user_total user))
                          (rw kept.same_totals at v),
                    ))
                    counted)))
              (record {
                atom_pool = rw kept.same_pools.0 h.atom_pool;
                usdc_pool = rw kept.same_pools.1 h.usdc_pool;
              }))

  pub withdraw-AreCounted :
      (env : Env) (info : MessageInfo) (user_address : ℕ) (pool_type : PoolType)
      (duration amount : ℕ) (s : Store)
      → ((user : Addr)
          → cw.addr_validate user_address ≡ some user
          → IsOpen (position user duration (pool_of pool_type s).lockups))
      → AreCounted s
      → Ensures Counted (
          handle_withdraw_from_lockup cw chain astroport env info user_address pool_type duration
            amount s)
  unfolding handle_withdraw_from_lockup
  withdraw-AreCounted env info user_address pool_type duration amount s is_open h =
      Ensures-bind λ _ _. Ensures-bind λ _ _. Ensures-bind λ _ _. Ensures-bind λ _ _.
        Ensures-bind λ pool_info e. Ensures-bind λ user valid. Ensures-bind λ lockup loaded.
          Ensures-bind λ _ _. Ensures-bind λ _ _. Ensures-bind λ _ _. Ensures-bind λ _ _.
            Ensures-bind λ _ _.
              let from =
                (compatible_load-LoadsFrom chain astroport (pool_of pool_type s) user duration
                    s.config.generator).holds
                  lockup loaded in
              let opened =
                (is_open user (ok_or-eq-ok std_error (cw.addr_validate user_address) valid)).is_open
                  from.0 from.1 in
              take_from_lockup-AreCounted pool_type user duration amount pool_info lockup _ s e from
                (from.2.same_transferred ∙ opened) h

-- A position that is closed leaves the pool with its units.
pub close_position-AreCounted :
    (pool_type : PoolType) (user : Addr) (duration lp_amount : ℕ) (pool_info : PoolInfo)
    (info : LockupInfoV2) (stored : StoredLockup) (s : Store)
    → load_pool_info (pool_of pool_type s) ≡ ok pool_info
    → position user duration (pool_of pool_type s).lockups ≡ some stored
    → info.lp_units_locked ≡ units_of stored
    → AreCounted s
    → Ensures AreCounted (close_position pool_type user duration lp_amount pool_info info s)
unfolding close_position
close_position-AreCounted pool_type user duration lp_amount pool_info info stored s e found same h =
    let p = pool_of pool_type s in
    let m = positions_of user p.lockups in
    Ensures-bind λ locked l. Ensures-bind λ total t.
      let closed : LockupInfoV2 = record info { astroport_lp_transferred = some lp_amount } in
      let counted = pool_of-IsCounted pool_type s h in
      let measured : measure_at units_of (lookup duration m) ≡ units_of stored = rw found refl in
      let shrunk : units_held (insert duration (v2 closed) m) + info.lp_units_locked
          ≡ units_held m =
        omega (arith, same, measured, units-insert duration closed m) in
      Ensures-pure (
        set_pool-AreCounted pool_type _ s
          (save-IsCounted user _ total p (some (record pool_info { amount_in_lockups = locked }))
            (ground (arith, shrunk, l, load_pool_info-locked p pool_info e))
            (omega (
              arith,
              shrunk,
              counted.user_total user,
              taken_total (lookup user p.user_totals) info.lp_units_locked total
                  (omega (arith, shrunk, counted.user_total user)) t,
            ))
            counted)
          h)
