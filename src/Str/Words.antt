-- ===== src/Str/Words.antt =====
-- Laws of strip() and split().
use lidb.Base.{
  ℕ, ◌≡◌, ◌≢◌, ◌⊎◌, inl, inr, refl, sym, ◌∙◌, true, false, ◌&&◌, [], ◌∷◌, ◌++◌, arith, is_empty,
  Bool-cases,
}
use lidb.Str.Basic.{Text}
use lidb.Str.Space.{is_space, flush, split_from, split, lstrip, rstrip, strip}

-- A text that begins with a character which is no space.
data Begins : Text → Type 0 where
  begins : {c : ℕ} {cs : Text} → is_space c ≡ false → Begins (c ∷ cs)

lstrip_cases : (s : Text) → (lstrip is_space s ≡ []) ⊎ Begins (lstrip is_space s)
unfolding lstrip
lstrip_cases [] = inl refl
lstrip_cases (c ∷ cs) = elim (Bool-cases (is_space c)) [
  | inl e ↦ rw e (lstrip_cases cs)
  | inr e ↦ inr (rw e (begins e))
]

rstrip-Begins : {s : Text} → Begins s → Begins (rstrip is_space s)
unfolding rstrip
rstrip-Begins (begins {c} {cs} e) =
    let kept : (is_empty (rstrip is_space cs) && is_space c) ≡ false = ground arith in
    rw kept (begins e)

pub split_from-space :
    (w : Text) (c : ℕ) (s : Text)
    → is_space c ≡ true
    → split_from w (c ∷ s) ≡ flush w (split_from [] s)
unfolding split_from
split_from-space w c s e = ground (arith, e)

pub split_from-char :
    (w : Text) (c : ℕ) (s : Text)
    → is_space c ≡ false
    → split_from w (c ∷ s) ≡ split_from (w ++ c ∷ []) s
unfolding split_from
split_from-char w c s e = ground (arith, e)

split_from-ne-nil : (c : ℕ) (w s : Text) → split_from (c ∷ w) s ≢ []
split_from-ne-nil c w [] h = unfold split_from in cc
split_from-ne-nil c w (d ∷ s) h = elim (Bool-cases (is_space d)) [
  | inl e ↦ cc (split_from-space (c ∷ w) d s e)
  | inr e ↦ split_from-ne-nil c (w ++ d ∷ []) s (sym (split_from-char (c ∷ w) d s e) ∙ h)
]

Begins-split : {s : Text} → Begins s → split s ≢ []
unfolding split
Begins-split (begins {c} {cs} e) h = split_from-ne-nil c [] cs (sym (split_from-char [] c cs e) ∙ h)

-- A stripped text that is not empty has a word.
pub split-strip-ne-nil : (s : Text) → is_empty (strip s) ≡ false → split (strip s) ≢ []
unfolding strip
split-strip-ne-nil s e = elim (lstrip_cases s) [
  | inl nothing ↦ λ h. cc (nothing, e)
  | inr b ↦ Begins-split (rstrip-Begins b)
]
