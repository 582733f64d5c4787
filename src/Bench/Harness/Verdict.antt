-- ===== src/Bench/Harness/Verdict.antt =====
-- What the status of a tier says of its scenarios.
use lidb.Base.{
  ◌≡◌, ◌↔◌, refl, Bool, true, false, ◌||◌, not, is_empty, all, List, [], ◌∷◌, Option, none, some,
  arith,
}
use lidb.Str.{Text, codes, ◌==◌, ==_iff}
use lidb.Json.{Json, str}
use lidb.Bench.Harness.{is_status, measured_of, has_status, failing, stubbed, passing, status_from}

-- One status has one name.
other_name :
    (x : Option Json) (a b : Text) → (a == b) ≡ false → is_status a x ≡ true → is_status b x ≡ false
unfolding is_status
other_name none a b d h = refl
other_name (some (str s)) a b d h = ground (arith, ==_iff s a, ==_iff s b, ==_iff a b)
other_name (some _) a b d h = refl

abbrev red : Option Json → Bool
red = is_status (codes "red")

abbrev green : Option Json → Bool
green = is_status (codes "green")

abbrev stub : Option Json → Bool
stub = is_status (codes "stub")

names_differ :
    (x : Option Json)
    → (red x ≡ true → (stub x ≡ false) × (green x ≡ false)) × (stub x ≡ true → green x ≡ false)
unfolding ◌==◌
names_differ x = (
  λ h. (
    other_name x (codes "red") (codes "stub") refl h,
    other_name x (codes "red") (codes "green") refl h,
  ),
  λ h. other_name x (codes "stub") (codes "green") refl h,
)

is_empty-measured_of : (xs : List (Option Json)) → is_empty (measured_of xs) ≡ all stub xs
unfolding measured_of
is_empty-measured_of [] = refl
is_empty-measured_of (x ∷ xs) = ground (arith, is_empty-measured_of xs)

all-measured_of :
    (xs : List (Option Json)) → all green (measured_of xs) ≡ all (λ x. stub x || green x) xs
unfolding measured_of
all-measured_of [] = refl
all-measured_of (x ∷ xs) = ground (arith, all-measured_of xs)

-- Stubs and greens only: none is red, and one is green unless all are stubs.
no_red :
    (xs : List (Option Json))
    → all (λ x. stub x || green x) xs ≡ true
    → (has_status (codes "red") xs ≡ false) × (has_status (codes "green") xs ≡ not (all stub xs))
unfolding has_status
no_red [] h = (refl, refl)
no_red (x ∷ xs) h = let (a, b) = no_red xs (ground arith) in ground (arith, names_differ x)

all_stubs : (xs : List (Option Json)) → all stub xs ≡ true → all (λ x. stub x || green x) xs ≡ true
all_stubs [] h = refl
all_stubs (x ∷ xs) h = ground (arith, all_stubs xs)

-- A tier fails exactly when a scenario is red, is a stub exactly when every scenario is, and passes
-- exactly when every scenario is green or a stub and one is green.
pub status_from_iff :
    (xs : List (Option Json))
    → ((status_from xs ≡ failing) ↔ (has_status (codes "red") xs ≡ true))
      × ((status_from xs ≡ stubbed) ↔ (all (is_status (codes "stub")) xs ≡ true))
      × ((status_from xs ≡ passing) ↔ (
          (all (λ x. is_status (codes "stub") x || is_status (codes "green") x) xs ≡ true)
          × (has_status (codes "green") xs ≡ true)))
unfolding status_from
status_from_iff xs =
    ground (arith, is_empty-measured_of xs, all-measured_of xs, no_red xs, all_stubs xs)
