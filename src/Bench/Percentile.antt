-- ===== src/Bench/Percentile.antt =====
-- p95_ms of scripts/bench/tier_db_csv_impl.py and of scripts/bench/registry_oltp_compare.py. Floats are a
-- type with a test `<=`. The position that Python computes with a float from the number of samples is
-- an argument; the one of each script is written with natural numbers.
pub mod Rank
use lidb.Base.{
  ℕ, zero, suc, ◌-◌, Bool, List, [], ◌∷◌, Option, none, some, Outcome, ok, err, length, leb, ltb,
  nat_eq, ◌+◌, ◌*◌, ◌/◌, ◌%◌, if◌then◌else◌,
}
use lidb.Errors.{Error, index_error}

module _ {F : Type 0} (le : F → F → Bool) where
  -- sorted(xs), with `insert_in` putting one sample in its place
  unfoldable pub insert_in : F → List F → List F
  insert_in x [] = x ∷ []
  insert_in x (y ∷ ys) = let rest = insert_in x ys in if le x y then x ∷ y ∷ ys else y ∷ rest

  unfoldable pub sorted : List F → List F
  unfolding insert_in
  sorted [] = []
  sorted (x ∷ xs) = insert_in x (sorted xs)

-- xs[i]
unfoldable pub item : {F : Type 0} → ℕ → List F → Outcome Error F
item i [] = err index_error
item zero (x ∷ xs) = ok x
item (suc i) (x ∷ xs) = item i xs

abbrev pub min : ℕ → ℕ → ℕ
min a b = if leb a b then a else b

abbrev pub max : ℕ → ℕ → ℕ
max a b = if leb a b then b else a

module _ {F : Type 0} (le : F → F → Bool) (nothing : F) (position : ℕ → ℕ) where
  -- tier_db_csv_impl.py, where position n is int(n * 0.95)
  unfoldable pub p95_of_tier : List F → Outcome Error F
  unfolding sorted item
  p95_of_tier [] = ok nothing
  p95_of_tier (x ∷ xs) =
      item (min (length (sorted le (x ∷ xs)) - 1) (position (length (sorted le (x ∷ xs)))))
        (sorted le (x ∷ xs))

  -- registry_oltp_compare.py, where position n is int(round(0.95 * n))
  unfoldable pub p95_of_compare : List F → Outcome Error F
  unfolding sorted item
  p95_of_compare [] = ok nothing
  p95_of_compare (x ∷ xs) =
      item (max 0 (position (length (sorted le (x ∷ xs)) - 1))) (sorted le (x ∷ xs))

-- int(n * 0.95). The float product is within half a unit of its last place of the true one, and no
-- multiple of 1/20 is closer than that to another, so it is cut off at the same number.
abbrev pub tier_position : ℕ → ℕ
tier_position n = n * 95 / 100

-- round() of a quotient: to the nearest, and to the even one of two
abbrev pub round_half_even : ℕ → ℕ → ℕ
round_half_even n d =
    let q = n / d in
    let r = n % d in
    if ltb (2 * r) d
    then q
    else if ltb d (2 * r)
    then q + 1
    else if nat_eq (q % 2) 0
    then q
    else q + 1

-- int(round(0.95 * n))
abbrev pub compare_position : ℕ → ℕ
compare_position n = round_half_even (95 * n) 100
