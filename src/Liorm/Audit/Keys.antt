-- ===== src/Liorm/Audit/Keys.antt =====
-- The matches of a key and its quoted value, at each place of a text.
use lidb.Base.{
  ℕ, ◌≡◌, ◌⊎◌, inl, inr, refl, sym, ap, ◌∙◌, true, false, not, [], ◌∷◌, ◌++◌, none, some, all,
  nat_eq, arith, append_assoc,
}
use lidb.Str.{Text, codes, is_space}
use lidb.Str.Regex.{one, many, span, spelled, onto, ◌then◌, sub}
use lidb.Str.Regex.Substitution.{sub-match, sub-miss}
use lidb.Str.Regex.Local.{
  Without, fails, stops, Local, one-Local, many-Local, spelled-Local, then-Local,
}
use lidb.Liorm.Audit.Redact.{fold_case, key_prefix, quoted, redacted_value, with_value, keyed_value}

-- A word that no quote is taken for.
abbrev pub Spellable : Text → Type 0
Spellable word = all (λ c. not (nat_eq (fold_case b'\'') c)) word ≡ true

key_prefix-Local : (word : Text) → Spellable word → Local b'\'' (key_prefix word)
unfolding key_prefix is_space
key_prefix-Local word h =
    then-Local b'\'' _ (many is_space)
      (then-Local b'\'' _ (one (λ c. nat_eq c b'='))
        (then-Local b'\'' (spelled fold_case word) (many is_space)
          (spelled-Local b'\'' fold_case word h) (many-Local b'\'' is_space refl))
        (one-Local b'\'' (λ c. nat_eq c b'=') refl))
      (many-Local b'\'' is_space refl)

-- A value between quotes, with the text behind it.
abbrev pub value_text : Text → Text → Text
value_text s t = b'\'' ∷ (s ++ b'\'' ∷ t)

-- The value is matched whatever it is.
span-value :
    (s t : Text)
    → Without b'\'' s
    → span (λ c. not (nat_eq c b'\'')) (s ++ b'\'' ∷ t) ≡ (s, b'\'' ∷ t)
unfolding span
span-value [] t h = refl
span-value (c ∷ s) t h = ground (arith, span-value s t)

quoted-value :
    (s t : Text)
    → Without b'\'' s
    → quoted (b'\'' ∷ s ++ b'\'' ∷ t) ≡ some (b'\'' ∷ s ++ b'\'' ∷ [], t)
unfolding quoted one many ◌then◌
quoted-value s t h =
    rw (span-value s t h, onto)
      (ap (λ (r : Text × Text). some (b'\'' ∷ r.0 ++ b'\'' ∷ [], t)) (span-value s t h))

quoted-later : (c : ℕ) (t : Text) → nat_eq c b'\'' ≡ false → quoted (c ∷ t) ≡ none
unfolding quoted one ◌then◌
quoted-later c t h = rw h refl

-- From a text that is `m` in front of a quoted value, a pattern finds nothing, or the value is replaced
-- and the text behind the value is left.
abbrev pub Finds : Text → Text → Type 0
Finds word m =
    ((t : Text) → keyed_value word (m ++ b'\'' ∷ t) ≡ none)
    ⊎ ((r : Text) × ((s t : Text)
          → Without b'\'' s
          → keyed_value word (m ++ value_text s t) ≡ some (r, t)))

-- What is behind the key decides.
Finds-stops :
    (word m a rest : Text)
    → Without b'\'' rest
    → ((t : Text) → key_prefix word (m ++ b'\'' ∷ t) ≡ some (a, rest ++ b'\'' ∷ t))
    → Finds word m
unfolding keyed_value
Finds-stops word m a [] w f = inr (
  a ++ codes "'[REDACTED]'",
  λ s t v. ap with_value (f (s ++ b'\'' ∷ t)) ∙ ap (redacted_value a) (quoted-value s t v),
)
Finds-stops word m a (c ∷ rest) w f = inl (λ t.
    ap with_value (f t) ∙ ap (redacted_value a) (quoted-later c (rest ++ b'\'' ∷ t) (ground arith)))

keyed_value-Finds : (word m : Text) → Spellable word → Without b'\'' m → Finds word m
unfolding keyed_value
keyed_value-Finds word m h w = elim (key_prefix-Local word h (λ c. not (nat_eq c b'\'')) m w) [
  | fails _ f ↦ inl (λ t. ap with_value (f t))
  | stops a rest v _ f ↦ Finds-stops word m a rest v f
]

-- A text in front of a quoted value: the value goes, whatever it is, and the text behind it is looked
-- at next.
abbrev pub Redacts : Text → Text → Type 0
Redacts word m =
    (out : Text) × ((s t : Text)
      → Without b'\'' s
      → sub (keyed_value word) (m ++ value_text s t) ≡ out ++ sub (keyed_value word) t)

-- Or no match begins in the text.
abbrev pub Passes : Text → Text → Type 0
Passes word m =
    Redacts word m
    ⊎ ((t : Text)
        → sub (keyed_value word) (m ++ b'\'' ∷ t) ≡ m ++ sub (keyed_value word) (b'\'' ∷ t))

sub-found :
    (word m r : Text) (c : ℕ)
    → ((s t : Text) → Without b'\'' s → keyed_value word (c ∷ m ++ value_text s t) ≡ some (r, t))
    → (s t : Text) → Without b'\'' s
    → sub (keyed_value word) (c ∷ m ++ value_text s t) ≡ r ++ sub (keyed_value word) t
sub-found word m r c f s t w =
    ap (sub (keyed_value word)) regroup
    ∙ sub-match (keyed_value word) c (m ++ (b'\'' ∷ (s ++ b'\'' ∷ []))) t r
        (ap (keyed_value word) (sym regroup) ∙ f s t w)
  where
    regroup : c ∷ m ++ value_text s t ≡ c ∷ (m ++ (b'\'' ∷ (s ++ b'\'' ∷ []))) ++ t
    regroup = simp append_assoc

-- One more character in front.
cons-Redacts : (word m : Text) (c : ℕ) → Finds word (c ∷ m) → Redacts word m → Redacts word (c ∷ m)
cons-Redacts word m c (inr (r, f)) _ = (r, sub-found word m r c f)
cons-Redacts word m c (inl f) (out, g) = (
  c ∷ out,
  λ s t v.
      sub-miss (keyed_value word) c (m ++ value_text s t) (f (s ++ b'\'' ∷ t))
      ∙ ap (λ (x : Text). c ∷ x) (g s t v),
)

cons-Passes : (word m : Text) (c : ℕ) → Finds word (c ∷ m) → Passes word m → Passes word (c ∷ m)
cons-Passes word m c (inr (r, f)) _ = inl (r, sub-found word m r c f)
cons-Passes word m c (inl f) (inl g) = inl (cons-Redacts word m c (inl f) g)
cons-Passes word m c (inl f) (inr g) =
    inr (λ t. sub-miss (keyed_value word) c (m ++ b'\'' ∷ t) (f t) ∙ ap (λ (x : Text). c ∷ x) (g t))

pub keyed_value-Passes : (word m : Text) → Spellable word → Without b'\'' m → Passes word m
keyed_value-Passes word [] h w = inr (λ t. refl)
keyed_value-Passes word (c ∷ m) h w =
    cons-Passes word m c (keyed_value-Finds word (c ∷ m) h w)
      (keyed_value-Passes word m h (ground arith))

-- A key with its spaces and its equality sign, and nothing else.
abbrev pub IsKey : Text → Text → Type 0
IsKey word key = key_prefix word key ≡ some (key, [])

-- At the key itself there is a match.
key-Finds :
    (word cs : Text) (c : ℕ)
    → Spellable word
    → Without b'\'' (c ∷ cs)
    → IsKey word (c ∷ cs)
    → (s t : Text) → Without b'\'' s
    → keyed_value word (c ∷ cs ++ value_text s t) ≡ some (c ∷ cs ++ codes "'[REDACTED]'", t)
unfolding keyed_value
key-Finds word cs c h w e s t v =
    elim (key_prefix-Local word h (λ d. not (nat_eq d b'\'')) (c ∷ cs) w) [
      | fails g f ↦ absurd (cc (g, e))
      | stops a rest u g f ↦
          let whole : some (a, rest) ≡ some (c ∷ cs, []) = sym g ∙ e in
          let nothing_left : rest ≡ [] = cc whole in
          let all_read : a ≡ c ∷ cs = cc whole in
          ap with_value (f (s ++ b'\'' ∷ t))
          ∙ ap (λ (r : Text). redacted_value a (quoted (r ++ value_text s t))) nothing_left
          ∙ ap (redacted_value a) (quoted-value s t v)
          ∙ ap (λ (k : Text). some (k ++ codes "'[REDACTED]'", t)) all_read
    ]

-- A value behind a key goes, whatever is in front of the key.
pub keyed_value-Redacts :
    (word before cs : Text) (c : ℕ)
    → Spellable word
    → Without b'\'' (before ++ c ∷ cs)
    → IsKey word (c ∷ cs)
    → Redacts word (before ++ c ∷ cs)
keyed_value-Redacts word [] cs c h w k =
    (c ∷ cs ++ codes "'[REDACTED]'", sub-found word cs _ c (key-Finds word cs c h w k))
keyed_value-Redacts word (d ∷ before) cs c h w k =
    cons-Redacts word (before ++ c ∷ cs) d (keyed_value-Finds word (d ∷ before ++ c ∷ cs) h w)
      (keyed_value-Redacts word before cs c h (ground arith) k)
