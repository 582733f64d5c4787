-- ===== src/Str/Numerals.antt =====
-- int() reads back what str() prints.
use lidb.Base.{
  ℕ, zero, suc, ◌+◌, ◌-◌, ◌*◌, ◌/◌, ◌%◌, ◌≤◌, ◌<◌, ◌≡◌, refl, ap, ◌∙◌, true, false, ◌&&◌, List, [],
  ◌∷◌, some, arith, ltb, leb, length, is_empty, Bool-cases, inl, inr,
}
use lidb.Str.Basic.{Text}
use lidb.Str.Digit.{
  decimal_value, decimal_value_in, other_zeros, is_digit_char, is_digit, int_from, int,
  max_str_digits,
}
use lidb.Str.Parts.{starts_with}
use lidb.Str.Decimal.{decimal, decimal_onto, decimal-all}

in_first_script :
    (z : ℕ) (zs : List ℕ) (d : ℕ) → d < 10 → decimal_value_in (z ∷ zs) (d + z) ≡ some d
unfolding decimal_value_in
in_first_script z zs d h =
    let inside : (leb z (d + z) && ltb (d + z) (z + 10)) ≡ true = ground arith in
    let value : d + z - z ≡ d = omega arith in rw (inside, value)

-- The ten ASCII digits have their values.
pub ascii_digit : (d : ℕ) → d < 10 → decimal_value (d + 48) ≡ some d
unfolding decimal_value
ascii_digit d h = in_first_script 48 other_zeros d h

int_from-digit :
    (m d : ℕ) (rest : Text) → d < 10 → int_from m ((d + 48) ∷ rest) ≡ int_from (m * 10 + d) rest
unfolding int_from
int_from-digit m d rest h = rw (int_from, ascii_digit d h)

int_from-decimal_onto :
    (f n : ℕ) (rest : Text) → n < f → int_from 0 (decimal_onto f n rest) ≡ int_from n rest
unfolding decimal_onto
int_from-decimal_onto zero n rest h = absurd (omega arith)
int_from-decimal_onto (suc f) n rest h = elim (Bool-cases (ltb n 10)) [
  | inl small ↦
      rw small (int_from-digit 0 n rest (ground arith) ∙ ap (λ k. int_from k rest) (omega arith))
  | inr large ↦ rw large (
      int_from-decimal_onto f (n / 10) ((n % 10 + 48) ∷ rest) (ground arith)
      ∙ int_from-digit (n / 10) (n % 10) rest (omega arith)
      ∙ ap (λ k. int_from k rest) (omega arith))
]

-- A number of at most 4300 digits is read back.
pub int-decimal : (n : ℕ) → length (decimal n) ≤ max_str_digits → int (decimal n) ≡ some n
unfolding int
int-decimal n h =
    let short : ltb max_str_digits (length (decimal n)) ≡ false = ground arith in
    rw short (unfold decimal int_from in int_from-decimal_onto (suc n) n [] (omega arith))

decimal_onto-ne-nil :
    (f n : ℕ) (c : ℕ) (rest : Text) → is_empty (decimal_onto f n (c ∷ rest)) ≡ false
unfolding decimal_onto
decimal_onto-ne-nil zero n c rest = refl
decimal_onto-ne-nil (suc f) n c rest = elim (Bool-cases (ltb n 10)) [
  | inl small ↦ rw small
  | inr large ↦ rw large (decimal_onto-ne-nil f (n / 10) (n % 10 + 48) (c ∷ rest))
]

pub decimal-ne-nil : (n : ℕ) → is_empty (decimal n) ≡ false
unfolding decimal decimal_onto
decimal-ne-nil n = elim (Bool-cases (ltb n 10)) [
  | inl small ↦ rw small
  | inr large ↦ rw large (decimal_onto-ne-nil n (n / 10) (n % 10 + 48) [])
]

-- isdigit() holds of a printed number.
pub is_digit-decimal : (n : ℕ) → is_digit (decimal n) ≡ true
unfolding is_digit is_digit_char
is_digit-decimal n =
    rw (decimal-ne-nil n) (decimal-all is_digit_char (λ d h. rw (ascii_digit d h)) n)

-- The number printed with str() does not begin with a dollar sign, and a text that begins with a
-- single quote is no number.
pub quote_no_digit : (s : Text) → is_digit (39 ∷ s) ≡ false
unfolding is_digit is_digit_char
quote_no_digit s = refl

decimal_onto-no_dollar :
    (f n : ℕ) (d : ℕ) (rest : Text)
    → d < 10
    → starts_with (decimal_onto f n ((d + 48) ∷ rest)) (b'$' ∷ []) ≡ false
unfolding decimal_onto starts_with
decimal_onto-no_dollar zero n d rest h = ground arith
decimal_onto-no_dollar (suc f) n d rest h = elim (Bool-cases (ltb n 10)) [
  | inl small ↦ rw small (ground arith)
  | inr large ↦
      rw large (decimal_onto-no_dollar f (n / 10) (n % 10) ((d + 48) ∷ rest) (omega arith))
]

pub decimal-no_dollar : (n : ℕ) → starts_with (decimal n) (b'$' ∷ []) ≡ false
unfolding decimal decimal_onto starts_with
decimal-no_dollar n = elim (Bool-cases (ltb n 10)) [
  | inl small ↦ rw small (ground arith)
  | inr large ↦ rw large (decimal_onto-no_dollar n (n / 10) (n % 10) [] (omega arith))
]
