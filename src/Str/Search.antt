-- ===== src/Str/Search.antt =====
-- What `contains` and `starts_with` decide.
use lidb.Base.{◌≡◌, ◌↔◌, inl, inr, refl, ap, true, [], ◌∷◌, ◌++◌, arith, Bool-cases}
use lidb.Str.Basic.{Text}
use lidb.Str.Parts.{starts_with, contains}

pub starts_with-append : (t rest : Text) → starts_with (t ++ rest) t ≡ true
unfolding starts_with
starts_with-append [] [] = refl
starts_with-append [] (c ∷ cs) = refl
starts_with-append (c ∷ cs) rest = ground (arith, starts_with-append cs rest)

pub starts_with-split : (s t : Text) → starts_with s t ≡ true → (rest : Text) × (s ≡ t ++ rest)
unfolding starts_with
starts_with-split s [] h = (s, refl)
starts_with-split [] (d ∷ ds) h = cc
starts_with-split (c ∷ cs) (d ∷ ds) h =
    let (rest, e) = starts_with-split cs ds (ground arith) in (rest, ground arith)

-- `t in s`: `s` is `t` with some text in front and some behind.
abbrev pub Occurs : Text → Text → Type 0
Occurs s t = (before : Text) × (after : Text) × (s ≡ before ++ t ++ after)

contains_of_starts_with : (s t : Text) → starts_with s t ≡ true → contains s t ≡ true
unfolding contains
contains_of_starts_with [] t h = h
contains_of_starts_with (c ∷ cs) t h = ground arith

contains-append : (before t after : Text) → contains (before ++ t ++ after) t ≡ true
unfolding contains
contains-append [] t after = contains_of_starts_with (t ++ after) t (starts_with-append t after)
contains-append (c ∷ cs) t after = ground (arith, contains-append cs t after)

contains-Occurs : (s t : Text) → contains s t ≡ true → Occurs s t
unfolding contains
contains-Occurs [] t h = let (rest, e) = starts_with-split [] t h in ([], rest, e)
contains-Occurs (c ∷ cs) t h = elim (Bool-cases (starts_with (c ∷ cs) t)) [
  | inl here ↦ let (rest, e) = starts_with-split (c ∷ cs) t here in ([], rest, e)
  | inr later ↦
      let (before, after, e) = contains-Occurs cs t (ground arith) in
      (c ∷ before, after, ap (◌∷◌ c) e)
]

pub contains_iff : (s t : Text) → (contains s t ≡ true) ↔ Occurs s t
contains_iff s t =
    (contains-Occurs s t, λ (before, after, e). rw e (contains-append before t after))
