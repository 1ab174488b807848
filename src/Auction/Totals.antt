-- ===== src/Auction/Totals.antt =====
-- The totals of the auction are the sums over its users.
pub mod Migrate
pub mod Execute
use neutron_tge_contracts.Prelude.{
  ℕ, ◌+◌, ◌≡◌, refl, Option, none, some, arith, unwrap_or, inl, inr, Option-cases,
}
use neutron_tge_contracts.Prelude.Map.{Map, lookup, insert, sum_values, sum-insert, measure_at}
use neutron_tge_contracts.Prelude.Map.Order.{IsSorted, IsSorted-insert}
use neutron_tge_contracts.Cosmwasm.{Addr}
use neutron_tge_contracts.Auction.Types.{State, UserInfo, Store}
use neutron_tge_contracts.Auction.Deposit.{no_user}

abbrev pub usdc_of : UserInfo → ℕ
usdc_of user = user.usdc_deposited

abbrev pub atom_of : UserInfo → ℕ
atom_of user = user.atom_deposited

abbrev pub usdc_lock_of : UserInfo → ℕ
usdc_lock_of user = user.usdc_lp_locked

abbrev pub atom_lock_of : UserInfo → ℕ
atom_lock_of user = user.atom_lp_locked

-- The users are in order, and the four totals are sums over them.
pub record IsConsistent (users : Map UserInfo) (state : State) : Type 0 where
  pub sorted : IsSorted users
  pub usdc_total : sum_values usdc_of users ≡ state.total_usdc_deposited
  pub atom_total : sum_values atom_of users ≡ state.total_atom_deposited
  pub usdc_locks : sum_values usdc_lock_of users ≡ state.usdc_lp_locked
  pub atom_locks : sum_values atom_lock_of users ≡ state.atom_lp_locked

-- A total moves as the one user's amount does.
pub record Shifts (old new : UserInfo) (state state' : State) : Type 0 where
  pub usdc_total :
      usdc_of new + state.total_usdc_deposited ≡ usdc_of old + state'.total_usdc_deposited
  pub atom_total :
      atom_of new + state.total_atom_deposited ≡ atom_of old + state'.total_atom_deposited
  pub usdc_locks :
      usdc_lock_of new + state.usdc_lp_locked ≡ usdc_lock_of old + state'.usdc_lp_locked
  pub atom_locks :
      atom_lock_of new + state.atom_lp_locked ≡ atom_lock_of old + state'.atom_lp_locked

sum-insert_user :
    (f : UserInfo → ℕ) (sender : Addr) (new : UserInfo) (users : Map UserInfo)
    → f no_user ≡ 0
    → sum_values f (insert sender new users) + f (unwrap_or no_user (lookup sender users))
      ≡ sum_values f users + f new
sum-insert_user f sender new users zero_default = elim (Option-cases (lookup sender users)) [
  | inl e ↦ rw e (omega (arith, rw e at (sum-insert f sender new users), zero_default))
  | inr (old, e) ↦ rw e (rw e at (sum-insert f sender new users))
]

pub insert-IsConsistent :
    (sender : Addr) (new : UserInfo) (users : Map UserInfo) (state state' : State)
    → Shifts (unwrap_or no_user (lookup sender users)) new state state'
    → IsConsistent users state
    → IsConsistent (insert sender new users) state'
insert-IsConsistent sender new users state state' shifts h = record {
  sorted = IsSorted-insert sender new users h.sorted;
  usdc_total =
      omega (arith, shifts.usdc_total, h.usdc_total, sum-insert_user usdc_of sender new users refl);
  atom_total =
      omega (arith, shifts.atom_total, h.atom_total, sum-insert_user atom_of sender new users refl);
  usdc_locks =
      omega (
        arith,
        shifts.usdc_locks,
        h.usdc_locks,
        sum-insert_user usdc_lock_of sender new users refl,
      );
  atom_locks =
      omega (
        arith,
        shifts.atom_locks,
        h.atom_locks,
        sum-insert_user atom_lock_of sender new users refl,
      );
}
