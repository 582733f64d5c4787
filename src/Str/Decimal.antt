-- ===== src/Str/Decimal.antt =====
-- str(n) of a natural number.
use lidb.Base.{
  ℕ, zero, suc, ◌+◌, ◌/◌, ◌%◌, ◌<◌, ◌≡◌, refl, Bool, true, [], ◌∷◌, ltb, arith, all, Bool-cases,
  inl, inr, if◌then◌else◌,
}
use lidb.Str.Basic.{Text, codes}

-- The digits of `n` in front of `rest`; the fuel is above `n`.
unfoldable pub decimal_onto : ℕ → ℕ → Text → Text
decimal_onto zero n rest = rest
decimal_onto (suc f) n rest =
    let more = decimal_onto f (n / 10) ((n % 10 + 48) ∷ rest) in
    if ltb n 10 then (n + 48) ∷ rest else more

unfoldable pub decimal : ℕ → Text
unfolding decimal_onto
decimal n = decimal_onto (suc n) n []

decimal_1050 : decimal 1050 ≡ codes "1050"
unfolding decimal
decimal_1050 = refl

decimal_onto-all :
    (p : ℕ → Bool)
    → ((d : ℕ) → d < 10 → p (d + 48) ≡ true)
    → (f n : ℕ) (rest : Text) → all p rest ≡ true
    → all p (decimal_onto f n rest) ≡ true
unfolding decimal_onto
decimal_onto-all p h zero n rest r = r
decimal_onto-all p h (suc f) n rest r = elim (Bool-cases (ltb n 10)) [
  | inl small ↦ rw small (ground (arith, h n (ground arith)))
  | inr large ↦ rw large (
      decimal_onto-all p h f (n / 10) ((n % 10 + 48) ∷ rest)
        (ground (arith, h (n % 10) (omega arith))))
]

-- Every character of a printed number is one of the ten digits.
pub decimal-all :
    (p : ℕ → Bool) → ((d : ℕ) → d < 10 → p (d + 48) ≡ true) → (n : ℕ) → all p (decimal n) ≡ true
unfolding decimal
decimal-all p h n = decimal_onto-all p h (suc n) n [] refl
