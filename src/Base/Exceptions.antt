-- ===== src/Base/Exceptions.antt =====
-- Code that returns a value or raises an exception of type `E`.
use mathlib.Core.Path.{◌≡◌, refl, subst}
use mathlib.Core.Bool.{Bool, true, false}
use lidb.Base.Tests.{if◌then◌else◌}
use mathlib.Core.List.{List, [], ◌∷◌}

pub data Outcome {ℓ} (E A : Type ℓ) : Type ℓ where
  ok : A → Outcome E A
  err : E → Outcome E A

module _ {ℓ} {E X Y : Type ℓ} where
  infixl 10 ◌>>=◌ ◌>>◌
  -- What follows runs on the value, and an exception passes it by.
  abbrev pub ◌>>=◌ : Outcome E X → (X → Outcome E Y) → Outcome E Y
  err raised >>= rest = err raised
  ok x >>= rest = rest x

  abbrev pub ◌>>◌ : Outcome E X → Outcome E Y → Outcome E Y
  m >> k = m >>= λ _. k

  -- Two steps that return have both returned.
  pub bind-eq-ok :
      (first : Outcome E X) (rest : X → Outcome E Y) {y : Y}
      → (first >>= rest) ≡ ok y
      → (x : X) × (first ≡ ok x) × (rest x ≡ ok y)
  bind-eq-ok (err raised) rest h = cc
  bind-eq-ok (ok x) rest h = (x, refl, h)

module _ {ℓ} {E A B : Type ℓ} where
  -- A loop or a comprehension whose body may raise: the first error ends it.
  abbrev pub traverse : (A → Outcome E B) → List A → Outcome E (List B)
  traverse f [] = ok []
  traverse f (x ∷ xs) = f x >>= λ y. traverse f xs >>= λ ys. ok (y ∷ ys)

-- `if b: raise e`
abbrev pub raise_if {ℓ} : {E : Type ℓ} → Bool → E → Outcome E Unit
raise_if true e = err e
raise_if false e = ok tt

-- What holds of the value, if there is one.
abbrev pub Ensures {ℓ κ} : {E A : Type ℓ} → (A → Type κ) → Outcome E A → Type κ
Ensures P (ok a) = P a
Ensures P (err e) = Unit

ok-injective {ℓ} : {E A : Type ℓ} {a b : A} → ◌≡◌ {A = Outcome E A} (ok a) (ok b) → a ≡ b
ok-injective p = cc

-- The equation of a result, as a fact about its value.
pub Ensures-eq {ℓ} : {E A : Type ℓ} (m : Outcome E A) → Ensures (λ a. m ≡ ok a) m
Ensures-eq (ok a) = refl
Ensures-eq (err e) = tt

module _ {ℓ κ} {E A : Type ℓ} where
  pub of_Ensures : (P : A → Type κ) (m : Outcome E A) {a : A} → Ensures P m → m ≡ ok a → P a
  of_Ensures P (ok b) h e = subst P (ok-injective {E = E} e) h
  of_Ensures P (err x) h e = cc

  pub to_Ensures : (P : A → Type κ) (m : Outcome E A) → ((a : A) → m ≡ ok a → P a) → Ensures P m
  to_Ensures P (ok a) h = h a refl
  to_Ensures P (err e) h = tt

module _ {ℓ κ} {E A B : Type ℓ} where
  pub Ensures-bind :
      (Q : A → Type κ) (P : B → Type κ) (m : Outcome E A) (f : A → Outcome E B)
      → Ensures Q m
      → ((a : A) → Q a → Ensures P (f a))
      → Ensures P (m >>= f)
  Ensures-bind Q P (ok a) f h k = k a h
  Ensures-bind Q P (err e) f h k = tt

pub Ensures-mono {ℓ κ} :
    {E A : Type ℓ} (P Q : A → Type κ) (m : Outcome E A)
    → ((a : A) → P a → Q a)
    → Ensures P m
    → Ensures Q m
Ensures-mono P Q (ok a) k h = k a h
Ensures-mono P Q (err e) k h = tt

-- What holds of the value, or of the error.
abbrev pub Meets {ℓ κ} : {E A : Type ℓ} → (A → Type κ) → (E → Type κ) → Outcome E A → Type κ
Meets P Q (ok a) = P a
Meets P Q (err e) = Q e

module _ {ℓ κ} {E A B : Type ℓ} where
  pub Meets-bind :
      (R : A → Type κ) (P : B → Type κ) (Q : E → Type κ) (m : Outcome E A) (f : A → Outcome E B)
      → Meets R Q m
      → ((a : A) → R a → Meets P Q (f a))
      → Meets P Q (m >>= f)
  Meets-bind R P Q (ok a) f h k = k a h
  Meets-bind R P Q (err e) f h k = h

  -- Two continuations that agree on the values that can come.
  pub Meets-bind_cong :
      (R : A → Type κ) (Q : E → Type κ) (m : Outcome E A) (f g : A → Outcome E B)
      → Meets R Q m
      → ((a : A) → R a → f a ≡ g a)
      → m >>= f ≡ m >>= g
  Meets-bind_cong R Q (ok a) f g h k = k a h
  Meets-bind_cong R Q (err e) f g h k = refl

module _ {ℓ κ} {E A : Type ℓ} where
  -- Both branches of a test.
  pub Meets-if :
      (P : A → Type κ) (Q : E → Type κ) (b : Bool) (m n : Outcome E A)
      → (b ≡ true → Meets P Q m)
      → (b ≡ false → Meets P Q n)
      → Meets P Q (if b then m else n)
  Meets-if P Q true m n h k = h refl
  Meets-if P Q false m n h k = k refl

  pub of_Meets :
      (P : A → Type κ) (Q : E → Type κ) (m : Outcome E A) {e : E} → Meets P Q m → m ≡ err e → Q e
  of_Meets P Q (ok a) h e = cc
  of_Meets P Q (err x) h e = subst Q (cc) h
