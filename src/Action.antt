-- ===== src/Action.antt =====
-- Code that runs on a state of type `S` and returns a value or raises an exception.
use lidb.Base.{◌≡◌, refl, Bool, true, false, if◌then◌else◌, Outcome, ok, err, Ensures, to_Ensures}
use lidb.Errors.{Error}

abbrev pub Action : Type 0 → Type 0 → Type 0
Action S A = S → Outcome Error A × S

module _ {S A : Type 0} where
  abbrev pub done : A → Action S A
  done a s = (ok a, s)

  -- A step that does not touch the state.
  abbrev pub pure : Outcome Error A → Action S A
  pure m s = (m, s)

module _ {S A B : Type 0} where
  -- What is left to do once the first step is over.
  abbrev pub after_step : (A → Action S B) → Outcome Error A × S → Outcome Error B × S
  after_step f (ok a, s) = f a s
  after_step f (err e, s) = (err e, s)

  infixl 10 ◌>>=◌ ◌>>◌
  abbrev pub ◌>>=◌ : Action S A → (A → Action S B) → Action S B
  (m >>= f) s = after_step f (m s)

  abbrev pub ◌>>◌ : Action S A → Action S B → Action S B
  m >> n = m >>= λ _. n

-- What holds of the value that an action returns, from every state.
abbrev pub Yields : {S A : Type 0} → (A → Type 0) → Action S A → Type 0
Yields {S} P m = (s : S) → Ensures P (m s).0

-- The two steps behind a value.
module _ {S A B : Type 0} where
  after_step-eq-ok :
      (f : A → Action S B) (r : Outcome Error A × S) {b : B} {s' : S}
      → after_step f r ≡ (ok b, s')
      → (a : A) × (t : S) × (r ≡ (ok a, t)) × (f a t ≡ (ok b, s'))
  after_step-eq-ok f (ok a, t) h = (a, t, refl, h)
  after_step-eq-ok f (err e, t) h = cc

  pub bind-eq-done :
      (m : Action S A) (f : A → Action S B) (s : S) {b : B} {s' : S}
      → (m >>= f) s ≡ (ok b, s')
      → (a : A) × (t : S) × (m s ≡ (ok a, t)) × (f a t ≡ (ok b, s'))
  bind-eq-done m f s h = after_step-eq-ok f (m s) h

module _ {S A B : Type 0} where
  after_step-Ensures :
      (Q : A → Type 0) (P : B → Type 0) (r : Outcome Error A × S) (f : A → Action S B)
      → Ensures Q r.0
      → ((a : A) → Q a → Yields P (f a))
      → Ensures P (after_step f r).0
  after_step-Ensures Q P (ok a, s) f h k = k a h s
  after_step-Ensures Q P (err e, s) f h k = tt

  pub Yields-bind :
      (Q : A → Type 0) (P : B → Type 0) (m : Action S A) (f : A → Action S B)
      → Yields Q m
      → ((a : A) → Q a → Yields P (f a))
      → Yields P (m >>= f)
  Yields-bind Q P m f h k s = after_step-Ensures Q P (m s) f (h s) k

pub any-Yields : {S A : Type 0} (m : Action S A) → Yields (λ _. Unit {0}) m
any-Yields m s = to_Ensures (λ _. Unit) (m s).0 (λ _ _. tt)

-- Whatever the first step returns, the rest yields what is wanted.
pub Yields-rest :
    {S A B : Type 0} (P : B → Type 0) (m : Action S A) (f : A → Action S B)
    → ((a : A) → Yields P (f a))
    → Yields P (m >>= f)
Yields-rest P m f k = Yields-bind (λ _. Unit {0}) P m f (any-Yields m) (λ a _. k a)

-- try: m; except the errors of the test. The answer says whether one of them was raised; the others
-- pass on.
abbrev pub is_caught :
    {S A : Type 0} → (Error → Bool) → Outcome Error A × S → Outcome Error Bool × S
is_caught test (ok a, s) = (ok false, s)
is_caught test (err e, s) = if test e then (ok true, s) else (err e, s)

abbrev pub caught : {S A : Type 0} → (Error → Bool) → Action S A → Action S Bool
caught test m s = is_caught test (m s)
