-- ===== src/Str/Regex/Substitution.antt =====
-- Laws of re.sub.
use lidb.Base.{
  Bool, all, ℕ, ◌-◌, ◌≡◌, refl, ap, ◌∙◌, true, [], ◌∷◌, ◌++◌, none, some, length, arith,
  length-append,
}
use lidb.Str.Basic.{Text}
use lidb.Str.Regex.{Pattern, sub_from, sub}

sub_from-skip : (p : Pattern) (w t : Text) → sub_from p (length w) (w ++ t) ≡ sub_from p 0 t
unfolding sub_from
sub_from-skip p [] t = refl
sub_from-skip p (c ∷ w) t = sub_from-skip p w t

-- A match at the front is replaced, and what is behind it goes on.
pub sub-match :
    (p : Pattern) (c : ℕ) (w t replacement : Text)
    → p (c ∷ w ++ t) ≡ some (replacement, t)
    → sub p (c ∷ w ++ t) ≡ replacement ++ sub p t
unfolding sub sub_from
sub-match p c w t replacement h = rw h (
    ap (λ (s : Text). replacement ++ s)
      (ap (λ (n : ℕ). sub_from p n (w ++ t)) skipped ∙ sub_from-skip p w t))
  where
    skipped : length (w ++ t) - length t ≡ length w
    skipped = omega (arith, length-append w t)

-- Text in which no match begins stays.
pub sub-free :
    (p : Pattern) (free : ℕ → Bool)
    → ((c : ℕ) (cs : Text) → free c ≡ true → p (c ∷ cs) ≡ none)
    → (w t : Text) → all free w ≡ true
    → sub p (w ++ t) ≡ w ++ sub p t
unfolding sub sub_from
sub-free p free unmatched [] t h = refl
sub-free p free unmatched (c ∷ w) t h =
    rw (unmatched c (w ++ t) (ground arith))
      (ap (λ (s : Text). c ∷ s) (sub-free p free unmatched w t (ground arith)))

pub sub-miss : (p : Pattern) (c : ℕ) (t : Text) → p (c ∷ t) ≡ none → sub p (c ∷ t) ≡ c ∷ sub p t
unfolding sub sub_from
sub-miss p c t h = ground (arith, h)
