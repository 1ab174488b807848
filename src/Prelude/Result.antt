-- ===== src/Prelude/Result.antt =====
-- A handler's result. A panic, like an error value, discards what the call has written, so both
-- are an `err`.
use neutron_tge_contracts.Prelude.Tests.{leb, if◌then◌else◌}
use Prim.Native.Nat.{ℕ, ◌+◌, ◌-◌, ◌*◌}
use mathlib.Core.Path.{◌≡◌, refl}
use mathlib.Core.Bool.{Bool, true, false}
use mathlib.Core.Option.{Option, none, some}

pub data Result {ℓ κ} (E : Type ℓ) (A : Type κ) : Type (ℓ ⊔ κ) where
  ok : A → Result E A
  err : E → Result E A

-- Shut, so that a proof goes through a `do` block step by step or names `◌>>=◌` to compute.
infixl 5 ◌>>=◌ ◌>>◌
unfoldable pub ◌>>=◌ {ℓ κ μ} :
    {E : Type ℓ} {A : Type κ} {B : Type μ} → Result E A → (A → Result E B) → Result E B
ok a >>= f = f a
err e >>= f = err e

abbrev pub ◌>>◌ {ℓ κ} : {E : Type ℓ} {B : Type κ} → Result E (Unit {0}) → Result E B → Result E B
m >> k = m >>= λ _. k

-- `if !b { return Err(e) }`
abbrev pub ensure {ℓ} : {E : Type ℓ} → Bool → E → Result E (Unit {0})
ensure true e = ok tt
ensure false e = err e

-- `if b { return Err(e) }`
abbrev pub reject_if {ℓ} : {E : Type ℓ} → Bool → E → Result E (Unit {0})
reject_if true e = err e
reject_if false e = ok tt

-- `o.ok_or(e)?`
abbrev pub ok_or {ℓ κ} : {E : Type ℓ} {A : Type κ} → E → Option A → Result E A
ok_or e none = err e
ok_or e (some a) = ok a

-- Inversion of a successful bind, for proofs where the parts stay shut.
pub >>=-eq-ok {ℓ κ μ} :
    {E : Type ℓ} {A : Type κ} {B : Type μ} (m : Result E A) (f : A → Result E B) {b : B}
    → (m >>= f) ≡ ok b
    → (a : A) × (m ≡ ok a) × (f a ≡ ok b)
unfolding ◌>>=◌
>>=-eq-ok (ok a) f h = (a, refl, h)
>>=-eq-ok (err e) f h = cc

pub ok_or-eq-ok {ℓ κ} :
    {E : Type ℓ} {A : Type κ} (e : E) (o : Option A) {a : A} → ok_or e o ≡ ok a → o ≡ some a
ok_or-eq-ok e none h = cc
ok_or-eq-ok e (some x) h = cc

-- Unsigned words. The release profile turns overflow checks on, so each operation that leaves
-- the range ends the call; the caller says with which error.
abbrev pub u64_max : ℕ
u64_max = 18446744073709551615

abbrev pub u128_max : ℕ
u128_max = 340282366920938463463374607431768211455

abbrev pub u256_max : ℕ
u256_max = 115792089237316195423570985008687907853269984665640564039457584007913129639935

module _ {ℓ} {E : Type ℓ} where
  abbrev pub bounded_by : ℕ → E → ℕ → Result E ℕ
  bounded_by limit e n = if leb n limit then ok n else err e

  abbrev pub checked_add : E → ℕ → ℕ → Result E ℕ
  checked_add e a b = bounded_by u128_max e (a + b)

  abbrev pub checked_sub : E → ℕ → ℕ → Result E ℕ
  checked_sub e a b = if leb b a then ok (a - b) else err e

  abbrev pub add_u64 : E → ℕ → ℕ → Result E ℕ
  add_u64 e a b = bounded_by u64_max e (a + b)

-- `P` holds of the result, if there is one.
pub record Ensures {ℓ κ μ} {E : Type ℓ} {A : Type κ} (P : A → Type μ) (r : Result E A)
    : Type (ℓ ⊔ κ ⊔ μ) where
  pub holds : (a : A) → r ≡ ok a → P a

module _ {ℓ κ μ} {E : Type ℓ} {A : Type κ} {P : A → Type μ} where
  pub Ensures-pure : {a : A} → P a → Ensures {E = E} P (ok a)
  Ensures-pure {a} h = record { holds = λ b e. let e' : a ≡ b = cc in rw e' at h }

  pub Ensures-fail : (e : E) → Ensures P (err e)
  Ensures-fail e = record { holds = λ b h. cc }

module _ {ℓ κ μ} {E : Type ℓ} {A : Type κ} {P : A → Type μ} where
  pub Ensures-if :
      (b : Bool) {m n : Result E A}
      → (b ≡ true → Ensures P m)
      → (b ≡ false → Ensures P n)
      → Ensures P (if b then m else n)
  Ensures-if true h k = h refl
  Ensures-if false h k = k refl

module _ {ℓ κ μ ν} {E : Type ℓ} {A : Type κ} {P : A → Type μ} {Q : A → Type ν} where
  pub Ensures-mono : {r : Result E A} → ((a : A) → P a → Q a) → Ensures P r → Ensures Q r
  Ensures-mono weaker h = record { holds = λ a e. weaker a (h.holds a e) }

-- One step of a `do` block: the rest may use that the step succeeded.
module _ {ℓ κ μ ν} {E : Type ℓ} {A : Type κ} {B : Type μ} {P : B → Type ν} where
  pub Ensures-bind :
      {m : Result E A} {f : A → Result E B}
      → ((a : A) → m ≡ ok a → Ensures P (f a))
      → Ensures P (m >>= f)
  unfolding ◌>>=◌
  Ensures-bind {m = ok a} h = h a refl
  Ensures-bind {m = err e} h = Ensures-fail e

module _ {ℓ} {E : Type ℓ} where
  abbrev pub mul_u64 : E → ℕ → ℕ → Result E ℕ
  mul_u64 e a b = bounded_by u64_max e (a * b)

-- There is a result, and `P` holds of it.
pub record Yields {ℓ κ μ} {E : Type ℓ} {A : Type κ} (P : A → Type μ) (r : Result E A)
    : Type (ℓ ⊔ κ ⊔ μ) where
  pub result : A
  pub returns : r ≡ ok result
  pub satisfies : P result

module _ {ℓ κ μ ν} {E : Type ℓ} {A : Type κ} {B : Type μ} {P : B → Type ν} where
  pub Yields-bind :
      {m : Result E A} (f : A → Result E B) (a : A) → m ≡ ok a → Yields P (f a) → Yields P (m >>= f)
  unfolding ◌>>=◌
  Yields-bind f a h y = rw h y

module _ {ℓ κ μ} {E : Type ℓ} {A : Type κ} {P : A → Type μ} where
  pub Yields-pure : {a : A} → P a → Yields {E = E} P (ok a)
  Yields-pure {a} p = record { result = a; returns = refl; satisfies = p }
