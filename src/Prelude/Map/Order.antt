-- ===== src/Prelude/Map/Order.antt =====
-- Maps in ascending order of the keys: what a scan over the map finds.
use Prim.Native.Nat.{ℕ, zero, suc, ◌<◌}
use mathlib.Core.Logic.{inl, inr}
use mathlib.Core.Path.{◌≡◌}
use mathlib.Core.List.{List, [], ◌∷◌}
use mathlib.Core.Option.{none, some}
use native.Mathlib.Omega.{arith}
use neutron_tge_contracts.Prelude.Lists.{All, take}
use neutron_tge_contracts.Prelude.Tests.{ltb, ◌==◌, Bool-cases, Option-cases}
use neutron_tge_contracts.Prelude.Map.{
  Map, lookup, replace, insert_new, insert, insert-eq_of_none, insert-eq_of_some,
}

module _ {ℓ} {V : Type ℓ} where
  abbrev pub AllAbove : ℕ → Map V → Type 0
  AllAbove k m = All (λ e. k < e.0) m

  abbrev pub IsSorted : Map V → Type 0
  IsSorted [] = Unit
  IsSorted ((k, v) ∷ m) = AllAbove k m × IsSorted m

  AllAbove-trans : (j k : ℕ) (m : Map V) → j < k → AllAbove k m → AllAbove j m
  AllAbove-trans j k [] h a = tt
  AllAbove-trans j k (e ∷ m) h a = (omega arith, AllAbove-trans j k m h a.1)

  AllAbove-replace : (j k : ℕ) (v : V) (m : Map V) → AllAbove j m → AllAbove j (replace k v m)
  unfolding replace
  AllAbove-replace j k v [] a = tt
  AllAbove-replace j k v ((i, w) ∷ m) a = elim (Bool-cases (k == i)) [
    | inl here ↦ rw here (ground arith, a.1)
    | inr there ↦ rw there (a.0, AllAbove-replace j k v m a.1)
  ]

  IsSorted-replace : (k : ℕ) (v : V) (m : Map V) → IsSorted m → IsSorted (replace k v m)
  unfolding replace
  IsSorted-replace k v [] s = tt
  IsSorted-replace k v ((i, w) ∷ m) s = elim (Bool-cases (k == i)) [
    | inl here ↦ let e : k ≡ i = ground arith in rw (here, e) s
    | inr there ↦ rw there (AllAbove-replace i k v m s.0, IsSorted-replace k v m s.1)
  ]

  AllAbove-insert_new :
      (j k : ℕ) (v : V) (m : Map V) → j < k → AllAbove j m → AllAbove j (insert_new k v m)
  unfolding insert_new
  AllAbove-insert_new j k v [] h a = (h, tt)
  AllAbove-insert_new j k v ((i, w) ∷ m) h a = elim (Bool-cases (ltb k i)) [
    | inl before ↦ rw before (h, a)
    | inr after ↦ rw after (a.0, AllAbove-insert_new j k v m h a.1)
  ]

  IsSorted-insert_new :
      (k : ℕ) (v : V) (m : Map V) → lookup k m ≡ none → IsSorted m → IsSorted (insert_new k v m)
  unfolding insert_new lookup
  IsSorted-insert_new k v [] e s = (tt, tt)
  IsSorted-insert_new k v ((i, w) ∷ m) e s = elim (Bool-cases (ltb k i)) [
    | inl before ↦ rw before ((ground arith, AllAbove-trans k i m (ground arith) s.0), s)
    | inr after ↦ rw after (
      AllAbove-insert_new i k v m (ground arith) s.0,
      IsSorted-insert_new k v m (ground arith) s.1,
    )
  ]

  pub IsSorted-insert : (k : ℕ) (v : V) (m : Map V) → IsSorted m → IsSorted (insert k v m)
  IsSorted-insert k v m s = elim (Option-cases (lookup k m)) [
    | inl e ↦ rw (insert-eq_of_none k v m e) (IsSorted-insert_new k v m e s)
    | inr (old, e) ↦ rw (insert-eq_of_some k v old m e) (IsSorted-replace k v m s)
  ]

  -- Every entry of `xs` is what `m` holds at its key.
  abbrev pub AllFound : Map V → Map V → Type ℓ
  AllFound m xs = All (λ e. lookup e.0 m ≡ some e.1) xs

  AllFound-cons :
      (k : ℕ) (v : V) (m xs : Map V) → AllAbove k xs → AllFound m xs → AllFound ((k, v) ∷ m) xs
  unfolding lookup
  AllFound-cons k v m [] a f = tt
  AllFound-cons k v m (e ∷ xs) a f = (ground (arith, a.0, f.0), AllFound-cons k v m xs a.1 f.1)

  pub AllFound-self : (m : Map V) → IsSorted m → AllFound m m
  unfolding lookup
  AllFound-self [] s = tt
  AllFound-self ((k, v) ∷ m) s = (ground arith, AllFound-cons k v m m s.0 (AllFound-self m s.1))

module _ {ℓ} {A : Type ℓ} where
  pub All-take {κ} : (P : A → Type κ) (n : ℕ) (xs : List A) → All P xs → All P (take n xs)
  All-take P zero xs h = tt
  All-take P (suc n) [] h = tt
  All-take P (suc n) (x ∷ xs) h = (h.0, All-take P n xs h.1)

module _ {ℓ} {V : Type ℓ} where
  pub IsSorted-take : (n : ℕ) (m : Map V) → IsSorted m → IsSorted (take n m)
  IsSorted-take zero m s = tt
  IsSorted-take (suc n) [] s = tt
  IsSorted-take (suc n) ((k, v) ∷ m) s = (All-take (λ e. k < e.0) n m s.0, IsSorted-take n m s.1)
