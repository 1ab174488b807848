-- ===== src/Lockdrop/Totals.antt =====
-- The amounts that a pool of the lockdrop counts are the sums over its positions.
pub mod Positions
pub mod Lockups
pub mod Withdraw
pub mod Rewards
pub mod Callbacks
pub mod Execute
use neutron_tge_contracts.Prelude.{
  ℕ, ◌+◌, ◌≡◌, refl, sym, Bool-cases, Option-cases, inl, inr, Option, none, some, [], arith, ◌==◌,
  if◌then◌else◌, unwrap_or,
}
use neutron_tge_contracts.Prelude.Map.{
  Map, lookup, insert, lookup-insert, sum_values, measure_at, sum-insert,
}
use neutron_tge_contracts.Cosmwasm.{Addr}
use neutron_tge_contracts.Auction.Types.{PoolType, usdc, atom}
use neutron_tge_contracts.Lockdrop.Types.{
  PoolInfo, LockupInfoV2, StoredLockup, v1, v2, PoolData, Store,
}
use neutron_tge_contracts.Lockdrop.Storage.{pool_of, set_pool, positions_of}
use neutron_tge_contracts.Lockdrop.Queries.{locked_in}

-- A position whose LP tokens are transferred is out of the pool.
abbrev pub open_amount : Option ℕ → ℕ → ℕ
open_amount none units = units
open_amount (some transferred) units = 0

abbrev pub transferred_of : StoredLockup → Option ℕ
transferred_of (v1 info) = info.astroport_lp_transferred
transferred_of (v2 info) = info.astroport_lp_transferred

abbrev pub open_units : LockupInfoV2 → ℕ
open_units info = open_amount info.astroport_lp_transferred info.lp_units_locked

abbrev pub units_of : StoredLockup → ℕ
units_of (v1 info) = open_amount info.astroport_lp_transferred info.lp_units_locked
units_of (v2 info) = open_units info

abbrev pub units_held : Map StoredLockup → ℕ
units_held m = sum_values units_of m

abbrev pub total_of : Addr → Map ℕ → ℕ
total_of user totals = unwrap_or 0 (lookup user totals)

-- The amount of the pool is the sum over all positions in it, and the total of each user is the
-- sum over the user's positions.
pub record IsCounted (p : PoolData) : Type 0 where
  pub pool_total : locked_in p.pool_info ≡ sum_values units_held p.lockups
  pub user_total :
      (user : Addr) → total_of user p.user_totals ≡ units_held (positions_of user p.lockups)

pub record AreCounted (s : Store) : Type 0 where
  pub atom_pool : IsCounted s.atom_pool
  pub usdc_pool : IsCounted s.usdc_pool

pub pool_of-IsCounted :
    (pool_type : PoolType) (s : Store) → AreCounted s → IsCounted (pool_of pool_type s)
pool_of-IsCounted atom s h = h.atom_pool
pool_of-IsCounted usdc s h = h.usdc_pool

pub set_pool-AreCounted :
    (pool_type : PoolType) (p : PoolData) (s : Store)
    → IsCounted p
    → AreCounted s
    → AreCounted (set_pool pool_type p s)
set_pool-AreCounted atom p s c h = record { atom_pool = c; usdc_pool = h.usdc_pool }
set_pool-AreCounted usdc p s c h = record { atom_pool = h.atom_pool; usdc_pool = c }

measure-positions :
    (user : Addr) (lockups : Map (Map StoredLockup))
    → measure_at units_held (lookup user lockups) ≡ units_held (positions_of user lockups)
measure-positions user lockups = elim (Option-cases (lookup user lockups)) [
  | inl e ↦ rw e refl
  | inr (m, e) ↦ rw e refl
]

-- One user's positions change, and the amounts with them.
pub change-IsCounted :
    (user : Addr) (m : Map StoredLockup) (p : PoolData) (info : Option PoolInfo) (totals : Map ℕ)
    → locked_in info + units_held (positions_of user p.lockups)
      ≡ locked_in p.pool_info + units_held m
    → ((j : Addr)
        → total_of j totals ≡ (if j == user then units_held m else total_of j p.user_totals))
    → IsCounted p
    → IsCounted
        (record { pool_info = info; lockups = insert user m p.lockups; user_totals = totals })
change-IsCounted user m p info totals moves shifts h = record {
  pool_total = omega (
    arith,
    moves,
    h.pool_total,
    measure-positions user p.lockups,
    sum-insert units_held user m p.lockups,
  );
  user_total = λ j. elim (Bool-cases (j == user)) [
    | inl same ↦ rw (lookup-insert user j m p.lockups, same) (rw same at (shifts j))
    | inr differs ↦
        rw (lookup-insert user j m p.lockups, differs)
          (rw (sym (h.user_total j)) (rw differs at (shifts j)))
  ];
}

-- The same with the total of the user saved.
pub save-IsCounted :
    (user : Addr) (m : Map StoredLockup) (total : ℕ) (p : PoolData) (info : Option PoolInfo)
    → locked_in info + units_held (positions_of user p.lockups)
      ≡ locked_in p.pool_info + units_held m
    → total ≡ units_held m
    → IsCounted p
    → IsCounted (record {
      pool_info = info;
      lockups = insert user m p.lockups;
      user_totals = insert user total p.user_totals;
    })
save-IsCounted user m total p info moves same h =
    change-IsCounted user m p info (insert user total p.user_totals) moves
      (λ j. elim (Bool-cases (j == user)) [
        | inl here ↦ rw (lookup-insert user j total p.user_totals, here) same
        | inr there ↦ rw (lookup-insert user j total p.user_totals, there) refl
      ])
      h

-- The same with the amounts unchanged.
pub keep-IsCounted :
    (user : Addr) (m : Map StoredLockup) (p : PoolData)
    → units_held m ≡ units_held (positions_of user p.lockups)
    → IsCounted p
    → IsCounted (record p { lockups = insert user m p.lockups })
keep-IsCounted user m p same h =
    change-IsCounted user m p p.pool_info p.user_totals (omega (arith, same))
      (λ j. elim (Bool-cases (j == user)) [
        | inl here ↦ let e : j ≡ user = ground arith in rw here (rw (same, e) (h.user_total user))
        | inr there ↦ rw there refl
      ])
      h
