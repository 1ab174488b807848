-- ===== src/Prelude/Map.antt =====
-- A storage map (`cw_storage_plus::Map`) keyed by addresses, as an association list in ascending
-- order of the keys. Its laws hold of every list, in order or not.
pub mod Order
use Prim.Native.Nat.{ℕ, ◌+◌, ◌≤◌}
use mathlib.Core.Path.{◌≡◌, refl}
use mathlib.Core.Bool.{false}
use mathlib.Core.Logic.{inl, inr}
use mathlib.Core.List.{List, [], ◌∷◌}
use mathlib.Core.Option.{Option, none, some}
use native.Mathlib.Omega.{arith}
use neutron_tge_contracts.Prelude.Lists.{sum_of, All}
use neutron_tge_contracts.Prelude.Tests.{ltb, ◌==◌, if◌then◌else◌, Bool-cases, Option-cases}

abbrev pub Map {ℓ} : Type ℓ → Type ℓ
Map V = List (ℕ × V)

module _ {ℓ} {V : Type ℓ} where
  -- `may_load`
  unfoldable pub lookup : ℕ → Map V → Option V
  lookup k [] = none
  lookup k ((j, v) ∷ m) = if k == j then some v else lookup k m

  unfoldable pub replace : ℕ → V → Map V → Map V
  replace k v [] = []
  replace k v ((j, w) ∷ m) = if k == j then (k, v) ∷ m else (j, w) ∷ replace k v m

  unfoldable pub insert_new : ℕ → V → Map V → Map V
  insert_new k v [] = (k, v) ∷ []
  insert_new k v ((j, w) ∷ m) = if ltb k j then (k, v) ∷ (j, w) ∷ m else (j, w) ∷ insert_new k v m

  abbrev place : Option V → ℕ → V → Map V → Map V
  place none k v m = insert_new k v m
  place (some _) k v m = replace k v m

  -- `save`
  unfoldable pub insert : ℕ → V → Map V → Map V
  unfolding lookup replace insert_new
  insert k v m = place (lookup k m) k v m

  -- `remove`
  unfoldable pub erase : ℕ → Map V → Map V
  erase k [] = []
  erase k ((j, w) ∷ m) = if k == j then m else (j, w) ∷ erase k m

  lookup-replace :
      (k j : ℕ) (v old : V) (m : Map V)
      → lookup k m ≡ some old
      → lookup j (replace k v m) ≡ (if j == k then some v else lookup j m)
  unfolding lookup replace
  lookup-replace k j v old [] h = cc
  lookup-replace k j v old (e ∷ m) h = ground (arith, lookup-replace k j v old m)

  lookup-insert_new :
      (k j : ℕ) (v : V) (m : Map V)
      → lookup k m ≡ none
      → lookup j (insert_new k v m) ≡ (if j == k then some v else lookup j m)
  unfolding lookup insert_new
  lookup-insert_new k j v [] h = refl
  lookup-insert_new k j v (e ∷ m) h = ground (arith, lookup-insert_new k j v m)

  pub insert-eq_of_none :
      (k : ℕ) (v : V) (m : Map V) → lookup k m ≡ none → insert k v m ≡ insert_new k v m
  unfolding insert
  insert-eq_of_none k v m h = rw h

  pub insert-eq_of_some :
      (k : ℕ) (v old : V) (m : Map V) → lookup k m ≡ some old → insert k v m ≡ replace k v m
  unfolding insert
  insert-eq_of_some k v old m h = rw h

  pub lookup-insert :
      (k j : ℕ) (v : V) (m : Map V)
      → lookup j (insert k v m) ≡ (if j == k then some v else lookup j m)
  lookup-insert k j v m = elim (Option-cases (lookup k m)) [
    | inl h ↦ rw (insert-eq_of_none k v m h) (lookup-insert_new k j v m h)
    | inr (old, h) ↦ rw (insert-eq_of_some k v old m h) (lookup-replace k j v old m h)
  ]

  pub lookup-erase_ne : (k j : ℕ) (m : Map V) → (j == k) ≡ false → lookup j (erase k m) ≡ lookup j m
  unfolding lookup erase
  lookup-erase_ne k j [] h = refl
  lookup-erase_ne k j (e ∷ m) h = ground (arith, lookup-erase_ne k j m h)

  erase-insert_new :
      (k : ℕ) (v : V) (m : Map V) → lookup k m ≡ none → erase k (insert_new k v m) ≡ m
  unfolding lookup insert_new erase
  erase-insert_new k v [] h = ground arith
  erase-insert_new k v (e ∷ m) h = ground (arith, erase-insert_new k v m)

  -- A new entry is removed without a trace.
  pub erase-insert : (k : ℕ) (v : V) (m : Map V) → lookup k m ≡ none → erase k (insert k v m) ≡ m
  erase-insert k v m h = rw (insert-eq_of_none k v m h) (erase-insert_new k v m h)

  -- The sum of a measure over the values, and the measure of what is found (0 if nothing is).
  abbrev pub sum_values : (V → ℕ) → Map V → ℕ
  sum_values f m = sum_of (λ e. f e.1) m

  abbrev pub measure_at : (V → ℕ) → Option V → ℕ
  measure_at f none = 0
  measure_at f (some v) = f v

  sum-replace :
      (f : V → ℕ) (k : ℕ) (v old : V) (m : Map V)
      → lookup k m ≡ some old
      → sum_values f (replace k v m) + f old ≡ sum_values f m + f v
  unfolding lookup replace
  sum-replace f k v old [] h = cc
  sum-replace f k v old (e ∷ m) h = ground (arith, sum-replace f k v old m)

  sum-insert_new :
      (f : V → ℕ) (k : ℕ) (v : V) (m : Map V)
      → sum_values f (insert_new k v m) ≡ sum_values f m + f v
  unfolding insert_new
  sum-insert_new f k v [] = omega arith
  sum-insert_new f k v (e ∷ m) = ground (arith, sum-insert_new f k v m)

  pub sum-insert :
      (f : V → ℕ) (k : ℕ) (v : V) (m : Map V)
      → sum_values f (insert k v m) + measure_at f (lookup k m) ≡ sum_values f m + f v
  sum-insert f k v m = elim (Option-cases (lookup k m)) [
    | inl h ↦ rw (insert-eq_of_none k v m h, h) (omega (arith, sum-insert_new f k v m))
    | inr (old, h) ↦ rw (insert-eq_of_some k v old m h, h) (sum-replace f k v old m h)
  ]

  pub sum-erase :
      (f : V → ℕ) (k : ℕ) (old : V) (m : Map V)
      → lookup k m ≡ some old
      → sum_values f (erase k m) + f old ≡ sum_values f m
  unfolding lookup erase
  sum-erase f k old [] h = cc
  sum-erase f k old (e ∷ m) h = ground (arith, sum-erase f k old m)

  -- What is found is part of the sum.
  pub measure-le-sum :
      (f : V → ℕ) (k : ℕ) (v : V) (m : Map V) → lookup k m ≡ some v → f v ≤ sum_values f m
  unfolding lookup
  measure-le-sum f k v [] h = cc
  measure-le-sum f k v (e ∷ m) h = ground (arith, measure-le-sum f k v m)

  -- Every value satisfies `P`.
  module _ {κ} (P : V → Type κ) where
    abbrev pub AllValues : Map V → Type κ
    AllValues m = All (λ e. P e.1) m

    pub AllValues-lookup : (k : ℕ) (v : V) (m : Map V) → AllValues m → lookup k m ≡ some v → P v
    unfolding lookup
    AllValues-lookup k v [] h e = cc
    AllValues-lookup k v ((j, w) ∷ m) h e = elim (Bool-cases (k == j)) [
      | inl here ↦ let e' : w ≡ v = ground arith in rw e' at h.0
      | inr there ↦ AllValues-lookup k v m h.1 (ground arith)
    ]

    AllValues-replace : (k : ℕ) (v : V) (m : Map V) → P v → AllValues m → AllValues (replace k v m)
    unfolding replace
    AllValues-replace k v [] p h = h
    AllValues-replace k v ((j, w) ∷ m) p h = elim (Bool-cases (k == j)) [
      | inl here ↦ rw here (p, h.1)
      | inr there ↦ rw there (h.0, AllValues-replace k v m p h.1)
    ]

    AllValues-insert_new :
        (k : ℕ) (v : V) (m : Map V) → P v → AllValues m → AllValues (insert_new k v m)
    unfolding insert_new
    AllValues-insert_new k v [] p h = (p, tt)
    AllValues-insert_new k v ((j, w) ∷ m) p h = elim (Bool-cases (ltb k j)) [
      | inl before ↦ rw before (p, h)
      | inr after ↦ rw after (h.0, AllValues-insert_new k v m p h.1)
    ]

    pub AllValues-insert :
        (k : ℕ) (v : V) (m : Map V) → P v → AllValues m → AllValues (insert k v m)
    AllValues-insert k v m p h = elim (Option-cases (lookup k m)) [
      | inl e ↦ rw (insert-eq_of_none k v m e) (AllValues-insert_new k v m p h)
      | inr (old, e) ↦ rw (insert-eq_of_some k v old m e) (AllValues-replace k v m p h)
    ]

    pub AllValues-erase : (k : ℕ) (m : Map V) → AllValues m → AllValues (erase k m)
    unfolding erase
    AllValues-erase k [] h = h
    AllValues-erase k ((j, w) ∷ m) h = elim (Bool-cases (k == j)) [
      | inl here ↦ rw here h.1
      | inr there ↦ rw there (h.0, AllValues-erase k m h.1)
    ]
