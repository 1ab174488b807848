-- ===== src/Lockdrop/Limits/Stored.antt =====
-- What a withdrawal from a position leaves in the storage.
use neutron_tge_contracts.Prelude.{
  ℕ, ◌+◌, ◌-◌, ◌*◌, ◌/◌, ◌≤◌, ◌<◌, ◌≡◌, refl, sym, ◌∙◌, Bool, true, false, some, List, [], arith,
  leb, ◌==◌, if◌then◌else◌,
}
use neutron_tge_contracts.Prelude.Map.{Map, lookup, insert, lookup-insert}
use neutron_tge_contracts.Prelude.Result.{ok, Ensures, Ensures-bind, Ensures-if, Ensures-pure}
use neutron_tge_contracts.Cosmwasm.{Addr, Cosmwasm, MessageInfo, Env, decimal_one}
use neutron_tge_contracts.Auction.Types.{PoolType, usdc, atom}
use neutron_tge_contracts.Lockdrop.Types.{
  Config, PoolInfo, LockupInfoV2, StoredLockup, v2, PoolData, Store, Msg,
}
use neutron_tge_contracts.Lockdrop.Chain.{Chain, Astroport}
use neutron_tge_contracts.Lockdrop.Storage.{
  pool_of, set_pool, load_pool_info, positions_of, position,
}
use neutron_tge_contracts.Lockdrop.Lockups.{store_position, take_from_lockup}
use neutron_tge_contracts.Lockdrop.Queries.{locked_in}
use neutron_tge_contracts.Lockdrop.Totals.Lockups.{load_pool_info-locked}
use neutron_tge_contracts.Lockdrop.Totals.Withdraw.{taken_from_pool-locked}
use neutron_tge_contracts.Lockdrop.Limits.{locked_at, closed_at, max_percent_at}

pub pool_of-set_pool :
    (pool_type : PoolType) (p : PoolData) (s : Store)
    → pool_of pool_type (set_pool pool_type p s) ≡ p
pool_of-set_pool usdc p s = refl
pool_of-set_pool atom p s = refl

pub config-set_pool :
    (pool_type : PoolType) (p : PoolData) (s : Store) → (set_pool pool_type p s).config ≡ s.config
config-set_pool usdc p s = refl
config-set_pool atom p s = refl

-- The flag of a position that is withdrawn from.
abbrev pub flag_at : ℕ → Config → Bool → Bool
flag_at now config flag = if leb (locked_at config) now then true else flag

-- The storage after `amount` is taken out of the position `lockup`.
pub record IsLessened (now : ℕ) (pool_type : PoolType) (user : Addr) (duration amount : ℕ)
    (lockup : LockupInfoV2) (s : Store) (r : Store × List Msg) : Type 0 where
  pub messages : r.1 ≡ []
  pub pool_amount :
      locked_in (pool_of pool_type r.0).pool_info + amount
      ≡ locked_in (pool_of pool_type s).pool_info
  pub rest :
      amount < lockup.lp_units_locked
      → position user duration (pool_of pool_type r.0).lockups
        ≡ some (
            v2 (record lockup {
              lp_units_locked = lockup.lp_units_locked - amount;
              withdrawal_flag = flag_at now s.config lockup.withdrawal_flag;
            }))
  pub other_users :
      (j : Addr)
      → (j == user) ≡ false
      → positions_of j (pool_of pool_type r.0).lockups
        ≡ positions_of j (pool_of pool_type s).lockups
  pub same_config : r.0.config ≡ s.config

-- The auction asks for a withdrawal of what the time allows, from a position that has not used its
-- last chance.
pub record IsPermitted (env : Env) (info : MessageInfo) (amount : ℕ) (config : Config)
    (lockup : LockupInfoV2) : Type 0 where
  pub by_auction : info.sender ≡ config.auction_contract
  pub in_time : env.time < closed_at config
  pub some_taken : 0 < amount
  pub is_first : lockup.withdrawal_flag ≡ false
  pub within : amount ≤ lockup.lp_units_locked * max_percent_at env.time config / decimal_one

-- What is stored after a change of one position.
record IsPut (user : Addr) (duration : ℕ) (info : LockupInfoV2) (p : PoolData) (s : Store)
    (r : PoolData × Store) : Type 0 where
  rest : 0 < info.lp_units_locked → position user duration r.0.lockups ≡ some (v2 info)
  other_users :
      (j : Addr) → (j == user) ≡ false → positions_of j r.0.lockups ≡ positions_of j p.lockups
  same_config : r.1.config ≡ s.config

positions-insert_other :
    (user j : Addr) (m : Map StoredLockup) (lockups : Map (Map StoredLockup))
    → (j == user) ≡ false
    → positions_of j (insert user m lockups) ≡ positions_of j lockups
positions-insert_other user j m lockups differs = rw (lookup-insert user j m lockups, differs) refl

pub position-insert :
    (user duration : ℕ) (info : LockupInfoV2) (m : Map StoredLockup)
    (lockups : Map (Map StoredLockup))
    → position user duration (insert user (insert duration (v2 info) m) lockups) ≡ some (v2 info)
position-insert user duration info m lockups =
    let stored = v2 info in
    let own : lookup user (insert user (insert duration stored m) lockups)
        ≡ some (insert duration stored m) =
      ground (arith, lookup-insert user user (insert duration stored m) lockups) in
    rw own (ground (arith, lookup-insert duration duration stored m))

module _ (cw : Cosmwasm) (chain : Chain) (astroport : Astroport) where
  store_position-IsPut :
      (user : Addr) (duration : ℕ) (info : LockupInfoV2) (p : PoolData) (s : Store)
      → Ensures
          (IsPut user duration info p s)
          (store_position cw chain astroport user duration info p s)
  unfolding store_position
  store_position-IsPut user duration info p s =
      Ensures-if (info.lp_units_locked == 0)
        (λ is_empty. Ensures-bind λ index _. Ensures-pure (record {
          rest = λ positive. ground (arith, is_empty);
          other_users = λ j differs. positions-insert_other user j _ p.lockups differs;
          same_config = refl;
        }))
        (λ _. Ensures-pure (record {
          rest = λ _. position-insert user duration info (positions_of user p.lockups) p.lockups;
          other_users = λ j differs. positions-insert_other user j _ p.lockups differs;
          same_config = refl;
        }))

  pub take_from_lockup-IsLessened :
      (now : ℕ) (pool_type : PoolType) (user : Addr) (duration amount : ℕ) (pool_info : PoolInfo)
      (lockup : LockupInfoV2) (flag : Bool) (s : Store)
      → load_pool_info (pool_of pool_type s) ≡ ok pool_info
      → flag ≡ flag_at now s.config lockup.withdrawal_flag
      → Ensures (IsLessened now pool_type user duration amount lockup s) (
          take_from_lockup cw chain astroport pool_type user duration amount pool_info lockup flag
            s)
  unfolding take_from_lockup
  take_from_lockup-IsLessened now pool_type user duration amount pool_info lockup flag s e flagged =
      let p = pool_of pool_type s in
      Ensures-bind λ units u. Ensures-bind λ pool_info' e'. Ensures-bind λ (p', s') t.
        Ensures-bind λ total v.
          let left : LockupInfoV2 = record lockup {
            lp_units_locked = units;
            withdrawal_flag = flag;
          } in
          let put = (store_position-IsPut user duration left p s).holds (p', s') t in
          let locked =
            (taken_from_pool-locked cw chain astroport amount duration s.config pool_info).holds
              pool_info' e' in
          let minus : units ≡ lockup.lp_units_locked - amount = ground arith in
          let after : PoolData = record p' {
            pool_info = some pool_info';
            user_totals = insert user total p'.user_totals;
          } in
          let stored = pool_of-set_pool pool_type after s' in
          Ensures-pure (record {
            messages = refl;
            pool_amount = rw stored (omega (arith, locked, load_pool_info-locked p pool_info e));
            rest = λ less. rw (stored, sym minus, sym flagged) (put.rest (omega (arith, minus)));
            other_users = λ j differs. rw stored (put.other_users j differs);
            same_config = config-set_pool pool_type after s' ∙ put.same_config;
          })
