-- ===== src/Str/Regex/Local.antt =====
-- Matchers that never match a certain character do not depend on what is behind it.
use lidb.Base.{
  ℕ, ◌≡◌, inl, inr, refl, ap, Bool, true, false, not, [], ◌∷◌, ◌++◌, none, some, all, nat_eq, arith,
  Bool-cases,
}
use lidb.Str.Basic.{Text}
use lidb.Str.Regex.{Matcher, one, many, span, spelled, onto, ◌then◌}

abbrev pub Without : ℕ → Text → Type 0
Without q w = all (λ c. not (nat_eq c q)) w ≡ true

-- From a text that is `m` in front of `q`, the matcher gives the same whatever is behind it, also if
-- nothing is. The rest of `m` has only characters that `m` has.
pub data Reads (q : ℕ) (p : Matcher) (free : ℕ → Bool) (m : Text) : Type 0 where
  fails : p m ≡ none → ((t : Text) → p (m ++ q ∷ t) ≡ none) → Reads q p free m
  stops :
      (a rest : Text)
      → all free rest ≡ true
      → p m ≡ some (a, rest)
      → ((t : Text) → p (m ++ q ∷ t) ≡ some (a, rest ++ q ∷ t))
      → Reads q p free m

abbrev pub Local : ℕ → Matcher → Type 0
Local q p = (free : ℕ → Bool) (m : Text) → all free m ≡ true → Reads q p free m

module _ (q : ℕ) where
  pub one-Local : (test : ℕ → Bool) → test q ≡ false → Local q (one test)
  unfolding one
  one-Local test h free [] w = fails refl (λ t. ground arith)
  one-Local test h free (c ∷ m) w = elim (Bool-cases (test c)) [
    | inl e ↦ stops (c ∷ []) m (ground arith) (ground arith) (λ t. ground arith)
    | inr e ↦ fails (ground arith) (λ t. ground arith)
  ]

  span-append :
      (test : ℕ → Bool) (m t : Text)
      → test q ≡ false
      → span test (m ++ q ∷ t) ≡ ((span test m).0, (span test m).1 ++ q ∷ t)
  unfolding span
  span-append test [] t h = ground arith
  span-append test (c ∷ m) t h = elim (Bool-cases (test c)) [
    | inl e ↦ rw (e, span-append test m t h) refl
    | inr e ↦ rw e refl
  ]

  span-all : (test free : ℕ → Bool) (m : Text) → all free m ≡ true → all free (span test m).1 ≡ true
  unfolding span
  span-all test free [] w = w
  span-all test free (c ∷ m) w = elim (Bool-cases (test c)) [
    | inl e ↦ rw e (span-all test free m (ground arith))
    | inr e ↦ rw e w
  ]

  pub many-Local : (test : ℕ → Bool) → test q ≡ false → Local q (many test)
  unfolding many
  many-Local test h free m w =
      stops (span test m).0 (span test m).1 (span-all test free m w) refl
        (λ t. ap some (span-append test m t h))

  -- A word none of whose characters `q` is taken for.
  pub spelled-Local :
      (fold : ℕ → ℕ) (word : Text)
      → all (λ c. not (nat_eq (fold q) c)) word ≡ true
      → Local q (spelled fold word)
  unfolding spelled
  spelled-Local fold [] h free m w = stops [] m w refl (λ t. refl)
  spelled-Local fold (c ∷ cs) h free [] w = fails refl (λ t. ground arith)
  spelled-Local fold (c ∷ cs) h free (d ∷ m) w = elim (Bool-cases (nat_eq (fold d) c)) [
    | inr e ↦ fails (rw e refl) (λ t. rw e refl)
    | inl e ↦ elim (spelled-Local fold cs (ground arith) free m (ground arith)) [
      | fails g f ↦ fails (rw (e, g) refl) (λ t. rw (e, f t) refl)
      | stops a rest r g f ↦ stops (d ∷ a) rest r (rw (e, g) refl) (λ t. rw (e, f t) refl)
    ]
  ]

  pub then-Local : (p r : Matcher) → Local q p → Local q r → Local q (p then r)
  unfolding ◌then◌
  then-Local p r h k free m w = elim (h free m w) [
    | fails g f ↦ fails (rw g refl) (λ t. rw (f t) refl)
    | stops a rest v g f ↦ elim (k free rest v) [
      | fails l j ↦ fails (rw (g, onto, l) refl) (λ t. rw (f t, onto, j t) refl)
      | stops b rest' u l j ↦
          stops (a ++ b) rest' u (rw (g, onto, l) refl) (λ t. rw (f t, onto, j t) refl)
    ]
  ]
