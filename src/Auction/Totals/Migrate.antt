-- ===== src/Auction/Totals/Migrate.antt =====
-- The migration to vesting changes no amount: it marks users as vested, each at most once.
use neutron_tge_contracts.Prelude.{
  ℕ, zero, suc, ◌+◌, ◌<◌, ◌≡◌, refl, Bool, true, false, inl, inr, some, List, [], ◌∷◌, arith, take,
  All, Bool-cases, if◌then◌else◌, length, min,
}
use neutron_tge_contracts.Prelude.Map.{Map, lookup, insert, lookup-insert, sum_values, sum-insert}
use neutron_tge_contracts.Prelude.Map.Order.{
  AllAbove, IsSorted, AllFound, AllFound-self, All-take, IsSorted-take,
}
use neutron_tge_contracts.Prelude.Result.{Ensures, Ensures-bind, Ensures-mono, Ensures-pure}
use neutron_tge_contracts.Cosmwasm.{Addr, Cosmwasm, Env}
use neutron_tge_contracts.Auction.Types.{Config, State, UserInfo, Store}
use neutron_tge_contracts.Auction.Migrate.{
  not_vested, Progress, migrate_user, migrate_users, execute_migrate_to_vesting,
}
use neutron_tge_contracts.Auction.Totals.{IsConsistent, insert-IsConsistent}

-- 1 for a user who is not vested yet.
abbrev pub pending : UserInfo → ℕ
pending user = if user.is_vested then 0 else 1

abbrev pub IsPending : ℕ × UserInfo → Type 0
IsPending e = e.1.is_vested ≡ false

All-if :
    (P : ℕ × UserInfo → Type 0) (b : Bool) (e : ℕ × UserInfo) (xs : Map UserInfo)
    → (b ≡ false → P e)
    → All P xs
    → All P (if b then xs else e ∷ xs)
All-if P true e xs kept h = h
All-if P false e xs kept h = (kept refl, h)

pub All-not_vested : (P : ℕ × UserInfo → Type 0) (m : Map UserInfo) → All P m → All P (not_vested m)
unfolding not_vested
All-not_vested P [] h = tt
All-not_vested P ((k, v) ∷ m) h =
    All-if P v.is_vested (k, v) (not_vested m) (λ _. h.0) (All-not_vested P m h.1)

IsSorted-not_vested : (m : Map UserInfo) → IsSorted m → IsSorted (not_vested m)
unfolding not_vested
IsSorted-not_vested [] s = tt
IsSorted-not_vested ((k, v) ∷ m) s = elim (Bool-cases v.is_vested) [
  | inl vested ↦ rw vested (IsSorted-not_vested m s.1)
  | inr open_user ↦ rw open_user (All-not_vested (λ e. k < e.0) m s.0, IsSorted-not_vested m s.1)
]

IsPending-not_vested : (m : Map UserInfo) → All IsPending (not_vested m)
unfolding not_vested
IsPending-not_vested [] = tt
IsPending-not_vested ((k, v) ∷ m) =
    All-if IsPending v.is_vested (k, v) (not_vested m) (λ e. e) (IsPending-not_vested m)

pub length-not_vested : (m : Map UserInfo) → length (not_vested m) ≡ sum_values pending m
unfolding not_vested
length-not_vested [] = refl
length-not_vested ((k, v) ∷ m) = elim (Bool-cases v.is_vested) [
  | inl vested ↦ rw vested (omega (arith, length-not_vested m))
  | inr open_user ↦ rw open_user (omega (arith, length-not_vested m))
]

length-take {ℓ} : {A : Type ℓ} (n : ℕ) (xs : List A) → length (take n xs) ≡ min n (length xs)
length-take zero xs = omega arith
length-take (suc n) [] = omega arith
length-take (suc n) (x ∷ xs) = omega (arith, length-take n xs)

-- An insertion at a smaller key keeps what is found above it.
AllFound-insert :
    (k : ℕ) (v : UserInfo) (m xs : Map UserInfo)
    → AllAbove k xs
    → AllFound m xs
    → AllFound (insert k v m) xs
AllFound-insert k v m [] above found = tt
AllFound-insert k v m (e ∷ xs) above found = (
  ground (arith, lookup-insert k e.0 v m, above.0, found.0),
  AllFound-insert k v m xs above.1 found.1,
)

-- After the users `xs` are processed: the totals still fit, and that many fewer are pending.
pub record Migrated (state : State) (before : Map UserInfo) (count : ℕ) (after : Map UserInfo)
    : Type 0 where
  pub consistent : IsConsistent after state
  pub fewer : sum_values pending after + count ≡ sum_values pending before

module _ (cw : Cosmwasm) (now : ℕ) (config : Config) (state : State) where
  migrate_user-Migrated :
      (addr : Addr) (user : UserInfo) (p : Progress)
      → lookup addr p.users ≡ some user
      → user.is_vested ≡ false
      → IsConsistent p.users state
      → Ensures
          (λ p'.
            Migrated state p.users 1 p'.users
            × (p'.users ≡ insert addr (record user { is_vested = true }) p.users))
          (migrate_user cw now config state addr user p)
  unfolding migrate_user
  migrate_user-Migrated addr user p known open_user h =
      let vested : UserInfo = record user { is_vested = true } in
      Ensures-bind λ _ _. Ensures-bind λ _ _. Ensures-bind λ _ _. Ensures-bind λ _ _.
        Ensures-bind λ _ _. Ensures-pure (
          record {
            consistent =
                insert-IsConsistent addr vested p.users state state
                  (record {
                    usdc_total = ground arith;
                    atom_total = ground arith;
                    usdc_locks = ground arith;
                    atom_locks = ground arith;
                  })
                  h;
            fewer = ground (arith, known, open_user, sum-insert pending addr vested p.users);
          },
          refl,
        )

  migrate_users-Migrated :
      (xs : Map UserInfo) (p : Progress)
      → IsSorted xs
      → All IsPending xs
      → AllFound p.users xs
      → IsConsistent p.users state
      → Ensures
          (λ p'. Migrated state p.users (length xs) p'.users)
          (migrate_users cw now config state xs p)
  unfolding migrate_users
  migrate_users-Migrated [] p sorted open_users found h =
      Ensures-pure (record { consistent = h; fewer = omega arith })
  migrate_users-Migrated ((addr, user) ∷ xs) p sorted open_users found h = Ensures-bind λ p' e.
      let (first, writes) = (migrate_user-Migrated addr user p found.0 open_users.0 h).holds p' e in
      let found' : AllFound p'.users xs =
        rw writes (AllFound-insert addr _ p.users xs sorted.0 found.1) in
      Ensures-mono
        (λ q later. record {
          consistent = later.consistent;
          fewer = omega (arith, first.fewer, later.fewer);
        })
        (migrate_users-Migrated xs p' sorted.1 open_users.1 found' first.consistent)

-- A successful migration keeps the totals, and the number of users who are not vested falls by
-- the size of the pack, or to 0.
pub migrate-Migrated :
    (cw : Cosmwasm) (env : Env) (s : Store)
    → IsConsistent s.users s.state
    → Ensures
        (λ r.
          Migrated s.state s.users
            (min s.config.vesting_migration_pack_size (sum_values pending s.users))
            r.0.users
          × (r.0.state ≡ s.state)
          × (r.0.config ≡ s.config))
        (execute_migrate_to_vesting cw env s)
unfolding execute_migrate_to_vesting
migrate-Migrated cw env s h =
    let n = s.config.vesting_migration_pack_size in
    let left = not_vested s.users in
    let xs = take n left in
    let size : length xs ≡ min n (sum_values pending s.users) =
      omega (arith, length-take {0} n left, length-not_vested s.users) in
    let loop =
      migrate_users-Migrated cw env.time s.config s.state xs
        (record {
          atom_batch = record { accounts = []; total = 0 };
          usdc_batch = record { accounts = []; total = 0 };
          users = s.users;
        })
        (IsSorted-take n left (IsSorted-not_vested s.users h.sorted))
        (All-take IsPending n left (IsPending-not_vested s.users))
        (All-take (λ x. lookup x.0 s.users ≡ some x.1) n left
          (All-not_vested (λ x. lookup x.0 s.users ≡ some x.1) s.users
            (AllFound-self s.users h.sorted)))
        h in
    Ensures-bind λ pools _. Ensures-bind λ _ _.
      Ensures-bind λ _ _. Ensures-bind λ p e. Ensures-pure (rw size at (loop.holds p e), refl, refl)
