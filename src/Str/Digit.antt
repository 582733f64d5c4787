-- ===== src/Str/Digit.antt =====
-- str.isdigit() and int() of Python's str, over all of Unicode (the tables are those of Unicode 14).
-- isdigit() accepts every character with a digit value, superscripts and circled digits too; int()
-- accepts only the decimal digits, ten in a row from each zero, and at most 4300 of them.
use lidb.Base.{
  ℕ, ◌+◌, ◌-◌, ◌*◌, Bool, true, false, not, ◌&&◌, ◌||◌, List, [], ◌∷◌, Option, none, some, ltb, leb,
  is_empty, length, all, if◌then◌else◌,
}
use lidb.Str.Basic.{Text}

-- The zeros of the decimal scripts, the ASCII one first.
abbrev pub other_zeros : List ℕ
other_zeros =
    1632 ∷ 1776 ∷ 1984 ∷ 2406 ∷ 2534 ∷ 2662 ∷ 2790 ∷ 2918 ∷ 3046 ∷ 3174 ∷ 3302 ∷ 3430 ∷ 3558 ∷ 3664
    ∷ 3792 ∷ 3872 ∷ 4160 ∷ 4240 ∷ 6112 ∷ 6160 ∷ 6470 ∷ 6608 ∷ 6784 ∷ 6800 ∷ 6992 ∷ 7088 ∷ 7232
    ∷ 7248 ∷ 42528 ∷ 43216 ∷ 43264 ∷ 43472 ∷ 43504 ∷ 43600 ∷ 44016 ∷ 65296 ∷ 66720 ∷ 68912 ∷ 69734
    ∷ 69872 ∷ 69942 ∷ 70096 ∷ 70384 ∷ 70736 ∷ 70864 ∷ 71248 ∷ 71360 ∷ 71472 ∷ 71904 ∷ 72016 ∷ 72784
    ∷ 73040 ∷ 73120 ∷ 92768 ∷ 92864 ∷ 93008 ∷ 120782 ∷ 120792 ∷ 120802 ∷ 120812 ∷ 120822 ∷ 123200
    ∷ 123632 ∷ 125264 ∷ 130032 ∷ []

abbrev pub zeros : List ℕ
zeros = 48 ∷ other_zeros

-- The digits that are not decimal, as ranges.
abbrev other_digits : List (ℕ × ℕ)
other_digits =
    (178, 179)
    ∷ (185, 185)
    ∷ (4969, 4977)
    ∷ (6618, 6618)
    ∷ (8304, 8304)
    ∷ (8308, 8313)
    ∷ (8320, 8329)
    ∷ (9312, 9320)
    ∷ (9332, 9340)
    ∷ (9352, 9360)
    ∷ (9450, 9450)
    ∷ (9461, 9469)
    ∷ (9471, 9471)
    ∷ (10102, 10110)
    ∷ (10112, 10120)
    ∷ (10122, 10130)
    ∷ (68160, 68163)
    ∷ (69216, 69224)
    ∷ (69714, 69722)
    ∷ (127232, 127242)
    ∷ []

-- The value of a decimal digit.
unfoldable pub decimal_value_in : List ℕ → ℕ → Option ℕ
decimal_value_in [] c = none
decimal_value_in (z ∷ zs) c =
    if leb z c && ltb c (z + 10) then some (c - z) else decimal_value_in zs c

unfoldable pub decimal_value : ℕ → Option ℕ
unfolding decimal_value_in
decimal_value c = decimal_value_in zeros c

in_ranges : List (ℕ × ℕ) → ℕ → Bool
in_ranges [] c = false
in_ranges ((lo, hi) ∷ rs) c = leb lo c && leb c hi || in_ranges rs c

abbrev is_some : Option ℕ → Bool
is_some none = false
is_some (some _) = true

unfoldable pub is_digit_char : ℕ → Bool
unfolding decimal_value in_ranges
is_digit_char c = is_some (decimal_value c) || in_ranges other_digits c

-- s.isdigit()
unfoldable pub is_digit : Text → Bool
unfolding is_digit_char
is_digit s = not (is_empty s) && all is_digit_char s

-- The value that `int` has read so far, and the rest of the digits.
unfoldable pub int_from : ℕ → Text → Option ℕ
unfolding decimal_value
int_from n [] = some n
int_from n (c ∷ cs) = elim (decimal_value c) [ none ↦ none | some d ↦ int_from (n * 10 + d) cs ]

-- sys.get_int_max_str_digits()
abbrev pub max_str_digits : ℕ
max_str_digits = 4300

-- int(s) of a text with s.isdigit(); `none` is a ValueError.
unfoldable pub int : Text → Option ℕ
unfolding int_from
int s = if ltb max_str_digits (length s) then none else int_from 0 s
