-- ===== src/Prelude/Results.antt =====
-- How a call ends that may stop the process: with a value, or by a fault.
-- `assertion` is a failed `assert`, `out_of_bounds` an access outside of an allocated array, and
-- `no_fuel` says that a loop's bound of rounds was too small, and `divided_by_zero` is a division of
-- integers by 0.
use mathlib.Core.Path.{◌≡◌, refl, subst}
use mathlib.Core.Bool.{Bool, true, false}
use mathlib.Core.Option.{Option, none, some}
use rabbitstreamer.Prelude.Tests.{if◌then◌else◌}

pub data Fault : Type 0 where
  assertion out_of_bounds no_fuel divided_by_zero : Fault

pub data Result {ℓ} (A : Type ℓ) : Type ℓ where
  ok : A → Result A
  fault : Fault → Result A

infixl 5 ◌>>=◌
abbrev pub ◌>>=◌ {ℓ κ} : {A : Type ℓ} {B : Type κ} → Result A → (A → Result B) → Result B
ok a >>= f = f a
fault e >>= f = fault e

-- A call that ends without a fault ends in a value with the property.
pub data Ensures {ℓ} {A : Type ℓ} (P : A → Type 0) : Result A → Type ℓ where
  holds : (a : A) → P a → Ensures P (ok a)
  failed : (e : Fault) → Ensures P (fault e)

module _ {ℓ} {A : Type ℓ} (P : A → Type 0) where
  pub Ensures-if :
      (b : Bool) (x y : Result A) → Ensures P x → Ensures P y → Ensures P (if b then x else y)
  Ensures-if true x y h k = h
  Ensures-if false x y h k = k

  pub Ensures-bind {κ} :
      {B : Type κ} (r : Result B) (f : B → Result A)
      → ((b : B) → r ≡ ok b → Ensures P (f b))
      → Ensures P (r >>= f)
  Ensures-bind (ok b) f h = h b refl
  Ensures-bind (fault e) f h = failed e

  pub Ensures-find {κ} :
      {B : Type κ} (found : Option B) (x : Result A) (f : B → Result A)
      → Ensures P x
      → ((b : B) → found ≡ some b → Ensures P (f b))
      → Ensures P (elim found [ none ↦ x | some b ↦ f b ])
  Ensures-find none x f h k = h
  Ensures-find (some b) x f h k = k b refl

  pub Ensures-mono :
      (Q : A → Type 0) (r : Result A) → ((a : A) → P a → Q a) → Ensures P r → Ensures Q r
  Ensures-mono Q (ok a) h (holds _ p) = holds a (h a p)
  Ensures-mono Q (fault e) h k = failed e

  pub Ensures-ok : (r : Result A) (a : A) → Ensures P r → r ≡ ok a → P a
  Ensures-ok (ok b) a (holds _ p) e = let same : b ≡ a = cc in subst P same p
  Ensures-ok (fault x) a h e = cc

-- The two steps of a bind that ends in a value.
pub >>=-ok {κ ℓ} :
    {B : Type κ} {A : Type ℓ} (r : Result B) (f : B → Result A) {a : A} (e : (r >>= f) ≡ ok a)
    → (b : B) × (r ≡ ok b) × (f b ≡ ok a)
>>=-ok (fault x) f e = cc
>>=-ok (ok b) f e = (b, refl, e)
