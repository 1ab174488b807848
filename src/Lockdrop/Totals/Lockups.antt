-- ===== src/Lockdrop/Totals/Lockups.antt =====
-- An increase keeps the amounts that a pool counts.
use neutron_tge_contracts.Prelude.{
  ℕ, ◌+◌, ◌≤◌, ◌≡◌, refl, Option, none, some, List, arith, unwrap_or,
}
use neutron_tge_contracts.Prelude.Map.{lookup, insert}
use neutron_tge_contracts.Prelude.Result.{
  ok, Ensures, Ensures-bind, Ensures-pure, ok_or-eq-ok, checked_add, checked_sub,
}
use neutron_tge_contracts.Cosmwasm.{Addr, Cosmwasm, MessageInfo, Env}
use neutron_tge_contracts.Auction.Types.{PoolType}
use neutron_tge_contracts.Lockdrop.Types.{
  Config, PoolInfo, UserInfo, LockupInfoV2, v2, PoolData, Store, Msg, std_error, overflow,
}
use neutron_tge_contracts.Lockdrop.Chain.{Chain, Astroport}
use neutron_tge_contracts.Lockdrop.Storage.{
  pool_of, load_pool_info, positions_of, position, updated_total,
}
use neutron_tge_contracts.Lockdrop.Lockups.{
  load_user, add_to_pool, increased, add_to_lockup, handle_increase_lockup,
}
use neutron_tge_contracts.Lockdrop.Queries.{locked_in}
use neutron_tge_contracts.Lockdrop.Totals.{
  open_units, units_held, AreCounted, pool_of-IsCounted, set_pool-AreCounted, save-IsCounted,
}
use neutron_tge_contracts.Lockdrop.Totals.Positions.{
  IsOpen, found_units, found_transferred, compatible_may_load-IsFound, units-insert,
}

abbrev pub Counted : Store × List Msg → Type 0
Counted r = AreCounted r.0

increased-units :
    (found : Option LockupInfoV2) (amount duration : ℕ) (config : Config) (user_info : UserInfo)
    → found_transferred found ≡ none
    → Ensures
        (λ r. open_units r.0 ≡ found_units found + amount)
        (increased found amount duration config user_info)
unfolding increased
increased-units none amount duration config user_info h =
    Ensures-bind λ _ _. Ensures-bind λ _ _. Ensures-bind λ _ _. Ensures-pure (omega arith)
increased-units (some info) amount duration config user_info h =
    Ensures-bind λ units e. Ensures-pure (rw h (ground arith))

add_to_pool-locked :
    (amount duration : ℕ) (config : Config) (info : PoolInfo)
    → Ensures
        (λ info'. info'.amount_in_lockups ≡ info.amount_in_lockups + amount)
        (add_to_pool amount duration config info)
unfolding add_to_pool
add_to_pool-locked amount duration config info =
    Ensures-bind
      λ weight _. Ensures-bind λ weighted _. Ensures-bind λ locked e. Ensures-pure (ground arith)

pub load_pool_info-locked :
    (p : PoolData) (info : PoolInfo)
    → load_pool_info p ≡ ok info
    → locked_in p.pool_info ≡ info.amount_in_lockups
load_pool_info-locked p info e = let e' = ok_or-eq-ok std_error p.pool_info e in rw e' refl

pub added_total :
    (found : Option ℕ) (amount total : ℕ)
    → updated_total found amount (λ la. checked_add overflow la amount) ≡ ok total
    → total ≡ unwrap_or 0 found + amount
added_total none amount total e = ground arith
added_total (some old) amount total e = ground arith

pub taken_total :
    (found : Option ℕ) (amount total : ℕ)
    → amount ≤ unwrap_or 0 found
    → updated_total found 0 (λ la. checked_sub overflow la amount) ≡ ok total
    → total + amount ≡ unwrap_or 0 found
taken_total none amount total h e = ground arith
taken_total (some old) amount total h e = ground arith

module _ (cw : Cosmwasm) (chain : Chain) (astroport : Astroport) where
  pub add_to_lockup-AreCounted :
      (pool_type : PoolType) (user : Addr) (duration amount : ℕ) (s : Store)
      → IsOpen (position user duration (pool_of pool_type s).lockups)
      → AreCounted s
      → Ensures Counted (add_to_lockup cw chain astroport pool_type user duration amount s)
  unfolding add_to_lockup
  add_to_lockup-AreCounted pool_type user duration amount s is_open h =
      let p = pool_of pool_type s in
      let m = positions_of user p.lockups in
      Ensures-bind λ pool_info e. Ensures-bind λ _ _. Ensures-bind λ pool_info' e'.
        Ensures-bind λ found f. Ensures-bind λ (info, user_info) g. Ensures-bind λ total t.
          let read =
            (compatible_may_load-IsFound chain astroport p user duration s.config.generator
                is_open).holds
              found f in
          let units =
            (increased-units found amount duration s.config (load_user user s) read.is_open).holds
              (info, user_info) g in
          let grown : units_held (insert duration (v2 info) m) ≡ units_held m + amount =
            omega (arith, units, read.same_units, units-insert duration info m) in
          let counted = pool_of-IsCounted pool_type s h in
          let locked =
            (add_to_pool-locked amount duration s.config pool_info).holds pool_info' e' in
          Ensures-pure (
            set_pool-AreCounted pool_type _ _
              (save-IsCounted user _ total p (some pool_info')
                (omega (arith, locked, grown, load_pool_info-locked p pool_info e))
                (omega (
                  arith,
                  grown,
                  added_total (lookup user p.user_totals) amount total t,
                  counted.user_total user,
                ))
                counted)
              (record { atom_pool = h.atom_pool; usdc_pool = h.usdc_pool }))

  pub increase-AreCounted :
      (env : Env) (info : MessageInfo) (user_address : ℕ) (pool_type : PoolType)
      (duration amount : ℕ) (s : Store)
      → ((user : Addr)
          → cw.addr_validate user_address ≡ some user
          → IsOpen (position user duration (pool_of pool_type s).lockups))
      → AreCounted s
      → Ensures Counted (
          handle_increase_lockup cw chain astroport env info user_address pool_type duration amount
            s)
  unfolding handle_increase_lockup
  increase-AreCounted env info user_address pool_type duration amount s is_open h =
      Ensures-bind λ _ _. Ensures-bind λ _ _. Ensures-bind λ _ _. Ensures-bind λ user valid.
        Ensures-bind λ _ _.
          add_to_lockup-AreCounted pool_type user duration amount s
            (is_open user (ok_or-eq-ok std_error (cw.addr_validate user_address) valid)) h
