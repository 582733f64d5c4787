-- ===== src/Bench/Percentile/Rank.antt =====
-- The rank of the sample that p95_ms returns.
use lidb.Base.{
  ℕ, zero, suc, ◌+◌, ◌-◌, ◌≤◌, ◌<◌, ◌≡◌, inl, inr, refl, ap, ◌∙◌, Bool, true, false, List, [], ◌∷◌,
  ok, length, All, arith, if◌then◌else◌, Bool-cases,
}
use lidb.Bench.Percentile.{insert_in, sorted, item, min, max, p95_of_tier, p95_of_compare}

-- How many pass a test.
unfoldable pub count {ℓ} : {A : Type ℓ} → (A → Bool) → List A → ℕ
count test [] = 0
count test (x ∷ xs) = if test x then suc (count test xs) else count test xs

-- A test `<=` that orders the samples: no sample is a NaN.
pub record IsOrder {F : Type 0} (le : F → F → Bool) : Type 0 where
  pub total : (x y : F) → le x y ≡ false → le y x ≡ true
  pub trans : (x y z : F) → le x y ≡ true → le y z ≡ true → le x z ≡ true

-- The sample at an index has the samples up to it below, and those from it on above.
pub record HasRank {F : Type 0} (le : F → F → Bool) (i : ℕ) (samples : List F) (x : F)
    : Type 0 where
  pub below : i < count (λ y. le y x) samples
  pub above : length samples ≤ i + count (le x) samples

module _ {F : Type 0} (le : F → F → Bool) (o : IsOrder le) where
  count-insert_in :
      (test : F → Bool) (x : F) (ys : List F) → count test (insert_in le x ys) ≡ count test (x ∷ ys)
  unfolding insert_in count
  count-insert_in test x [] = refl
  count-insert_in test x (y ∷ ys) = ground (arith, count-insert_in test x ys)

  count-sorted : (test : F → Bool) (xs : List F) → count test (sorted le xs) ≡ count test xs
  unfolding sorted count
  count-sorted test [] = refl
  count-sorted test (x ∷ xs) =
      count-insert_in test x (sorted le xs)
      ∙ ap (λ (n : ℕ). if test x then suc n else n) (count-sorted test xs)

  length-insert_in : (x : F) (ys : List F) → length (insert_in le x ys) ≡ suc (length ys)
  unfolding insert_in
  length-insert_in x [] = refl
  length-insert_in x (y ∷ ys) = ground (arith, length-insert_in x ys)

  length-sorted : (xs : List F) → length (sorted le xs) ≡ length xs
  unfolding sorted
  length-sorted [] = refl
  length-sorted (x ∷ xs) = length-insert_in x (sorted le xs) ∙ ap suc (length-sorted xs)

  -- Every sample is at most the ones behind it.
  abbrev IsAscending : List F → Type 0
  IsAscending [] = Unit
  IsAscending (x ∷ xs) = All (λ y. le x y ≡ true) xs × IsAscending xs

  below-All :
      (x y : F) (ys : List F)
      → le x y ≡ true
      → All (λ z. le y z ≡ true) ys
      → All (λ z. le x z ≡ true) ys
  below-All x y [] h a = tt
  below-All x y (z ∷ ys) h (a, b) = (o.trans x y z h a, below-All x y ys h b)

  All-insert_in {κ} :
      (P : F → Type κ) (x : F) (ys : List F) → P x → All P ys → All P (insert_in le x ys)
  unfolding insert_in
  All-insert_in P x [] p a = (p, tt)
  All-insert_in P x (y ∷ ys) p (q, a) = elim (Bool-cases (le x y)) [
    | inl e ↦ rw e (p, (q, a))
    | inr e ↦ rw e (q, All-insert_in P x ys p a)
  ]

  insert_in-IsAscending : (x : F) (ys : List F) → IsAscending ys → IsAscending (insert_in le x ys)
  unfolding insert_in
  insert_in-IsAscending x [] s = (tt, tt)
  insert_in-IsAscending x (y ∷ ys) (a, s) = elim (Bool-cases (le x y)) [
    | inl e ↦ rw e ((e, below-All x y ys e a), (a, s))
    | inr e ↦
        rw e
          (All-insert_in (λ z. le y z ≡ true) x ys (o.total x y e) a, insert_in-IsAscending x ys s)
  ]

  sorted-IsAscending : (xs : List F) → IsAscending (sorted le xs)
  unfolding sorted
  sorted-IsAscending [] = tt
  sorted-IsAscending (x ∷ xs) = insert_in-IsAscending x (sorted le xs) (sorted-IsAscending xs)

  le_refl : (x : F) → le x x ≡ true
  le_refl x = ground (arith, o.total x x)

  count-All : (x : F) (ys : List F) → All (λ y. le x y ≡ true) ys → count (le x) ys ≡ length ys
  unfolding count
  count-All x [] a = refl
  count-All x (y ∷ ys) (h, a) = rw h (ap suc (count-All x ys a))

  item-HasRank :
      (i : ℕ) (ys : List F)
      → i < length ys
      → IsAscending ys
      → (x : F) × (item i ys ≡ ok x)
        × HasRank le i ys x
        × ((y : F) → All (λ z. le y z ≡ true) ys → le y x ≡ true)
  unfolding item count
  item-HasRank i [] h s = absurd (omega arith)
  item-HasRank zero (y ∷ ys) h (a, s) = (
    y,
    refl,
    record {
      below = ground (arith, le_refl y);
      above = ground (arith, le_refl y, count-All y ys a);
    },
    λ z b. b.0,
  )
  item-HasRank (suc i) (y ∷ ys) h (a, s) =
      let (x, e, r, least) = item-HasRank i ys (omega arith) s in
      (
        x,
        e,
        record { below = ground (arith, least y a, r.below); above = ground (arith, r.above) },
        λ z b. least z b.1,
      )

  sorted-HasRank :
      (i : ℕ) (samples : List F)
      → i < length samples
      → (x : F) × (item i (sorted le samples) ≡ ok x) × HasRank le i samples x
  sorted-HasRank i samples h =
      let (x, e, r, _) =
        item-HasRank i (sorted le samples) (omega (arith, length-sorted samples))
          (sorted-IsAscending samples) in
      (
        x,
        e,
        record {
          below = omega (arith, r.below, count-sorted (λ y. le y x) samples);
          above = omega (arith, r.above, count-sorted (le x) samples, length-sorted samples);
        },
      )

  -- tier_db_csv_impl.py never indexes past its samples, and returns one of rank min(n - 1, int(0.95 n)) of
  -- n samples: more than that many are at most it, and all but that many are at least it.
  pub p95_of_tier-HasRank :
      (nothing : F) (position : ℕ → ℕ) (s : F) (ss : List F)
      → (x : F) × (p95_of_tier le nothing position (s ∷ ss) ≡ ok x)
        × HasRank le (min (length ss) (position (suc (length ss)))) (s ∷ ss) x
  unfolding p95_of_tier
  p95_of_tier-HasRank nothing position s ss =
      let (x, e, r) =
        sorted-HasRank (min (length ss) (position (suc (length ss)))) (s ∷ ss) (ground arith) in
      (x, ap (λ i. item i (sorted le (s ∷ ss))) index ∙ e, r)
    where
      n : ℕ
      n = length (sorted le (s ∷ ss))

      index : min (n - 1) (position n) ≡ min (length ss) (position (suc (length ss)))
      index =
          ap (λ m. min (m - 1) (position m)) (length-sorted (s ∷ ss))
          ∙ ap (λ m. min m (position (suc (length ss)))) (omega arith)

  -- registry_oltp_compare.py does the same for the rank int(round(0.95 (n - 1))), if that position is no
  -- larger than n - 1.
  pub p95_of_compare-HasRank :
      (nothing : F) (position : ℕ → ℕ) (s : F) (ss : List F)
      → position (length ss) ≤ length ss
      → (x : F) × (p95_of_compare le nothing position (s ∷ ss) ≡ ok x)
        × HasRank le (position (length ss)) (s ∷ ss) x
  unfolding p95_of_compare
  p95_of_compare-HasRank nothing position s ss h =
      let (x, e, r) = sorted-HasRank (position (length ss)) (s ∷ ss) (omega arith) in
      (x, ap (λ i. item i (sorted le (s ∷ ss))) index ∙ e, r)
    where
      max_zero : (m : ℕ) → max 0 m ≡ m
      max_zero m = ground arith

      index : max 0 (position (length (sorted le (s ∷ ss)) - 1)) ≡ position (length ss)
      index =
          let one_less : suc (length ss) - 1 ≡ length ss = omega arith in
          ap (λ m. max 0 (position (m - 1))) (length-sorted (s ∷ ss))
          ∙ ap (λ m. max 0 (position m)) one_less
          ∙ max_zero (position (length ss))
