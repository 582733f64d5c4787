-- ===== src/Liorm/Audit/Bodies.antt =====
-- The JSON text that an entry's hash is made of holds the hash before it: two entries with one text
-- follow the same hash.
use lidb.Base.{
  ℕ, ◌+◌, ◌<◌, ◌≡◌, refl, sym, ap, ◌∙◌, true, false, Bool-cases, inl, inr, not, List, [], ◌∷◌, ◌++◌,
  nat_eq, all, all-append, arith, append_assoc, length, length-append, is_empty,
}
use lidb.Str.{Text, codes, decimal, decimal-all, split_on, onto_first, text_leb}
use lidb.Dict.{Dict}
use lidb.Json.{
  Json, dumps_compact, dumps_with, dumps_fields, insert_member, quoted, members_text, object,
}
use lidb.Json.Escape.{escape, is_written, escape-written}
use lidb.Liorm.Audit.{AuditEntry, body_text}

-- No quote in a text.
abbrev pub IsBare : Text → Type 0
IsBare t = all (λ c. not (nat_eq c b'"')) t ≡ true

-- A text of characters that JSON writes as they are.
abbrev pub IsWritten : Text → Type 0
IsWritten t = all is_written t ≡ true

IsWritten-IsBare : (t : Text) → IsWritten t → IsBare t
unfolding is_written
IsWritten-IsBare [] h = refl
IsWritten-IsBare (c ∷ t) h = ground (arith, IsWritten-IsBare t)

decimal-IsBare : (n : ℕ) → IsBare (decimal n)
decimal-IsBare n = decimal-all (λ c. not (nat_eq c b'"')) digit n
  where
    digit : (d : ℕ) → d < 10 → not (nat_eq (d + 48) b'"') ≡ true
    digit d h = ground arith

split_on-not_empty : (sep : ℕ) (t : Text) → is_empty (split_on sep t) ≡ false
unfolding split_on
split_on-not_empty sep [] = refl
split_on-not_empty sep (c ∷ t) = elim (Bool-cases (nat_eq c sep)) [
  | inl e ↦ rw e refl
  | inr e ↦ rw e (put_first (split_on sep t))
]
  where
    put_first : (ps : List Text) → is_empty (onto_first c ps) ≡ false
    put_first [] = refl
    put_first (p ∷ ps) = refl

onto_first-append :
    (c : ℕ) (ps qs : List Text)
    → is_empty ps ≡ false
    → onto_first c (ps ++ qs) ≡ onto_first c ps ++ qs
onto_first-append c [] qs h = cc
onto_first-append c (p ∷ ps) qs h = refl

-- A separator parts a text.
split_on-append :
    (sep : ℕ) (s t : Text) → split_on sep (s ++ sep ∷ t) ≡ split_on sep s ++ split_on sep t
unfolding split_on
split_on-append sep [] t = ground arith
split_on-append sep (c ∷ s) t = elim (Bool-cases (nat_eq c sep)) [
  | inl e ↦ rw (e, split_on-append sep s t) refl
  | inr e ↦
      rw (e, split_on-append sep s t)
        (onto_first-append c (split_on sep s) (split_on sep t) (split_on-not_empty sep s))
]

split_on-bare : (t : Text) → IsBare t → split_on b'"' t ≡ t ∷ []
unfolding split_on
split_on-bare [] h = refl
split_on-bare (c ∷ t) h = ground (arith, split_on-bare t)

split_on-quote : (t u : Text) → IsBare t → split_on b'"' (t ++ b'"' ∷ u) ≡ t ∷ split_on b'"' u
split_on-quote t u h = rw (split_on-append b'"' t u, split_on-bare t h) refl

append-suffix {ℓ} :
    {A : Type ℓ} (xs xs' ys ys' : List A)
    → length ys ≡ length ys'
    → xs ++ ys ≡ xs' ++ ys'
    → ys ≡ ys'
append-suffix [] [] ys ys' l h = h
append-suffix [] (x ∷ xs') ys ys' l h = absurd (omega (arith, ap length h, length-append xs' ys'))
append-suffix (x ∷ xs) [] ys ys' l h = absurd (omega (arith, ap length h, length-append xs ys))
append-suffix (x ∷ xs) (x' ∷ xs') ys ys' l h = append-suffix xs xs' ys ys' l (cc h)

-- What stands behind the quote in front of the hash.
abbrev behind_hash : ℕ → Text → Text → Text
behind_hash seq recorded_at prev =
    prev
    ++ b'"'
      ∷ (codes ","
          ++ b'"'
            ∷ (codes "recorded_at"
                ++ b'"'
                  ∷ ((b':' ∷ (recorded_at ++ b',' ∷ []))
                      ++ b'"' ∷ (codes "seq" ++ b'"' ∷ (b':' ∷ (decimal seq ++ b'}' ∷ []))))))

-- The parts of that text between its quotes.
abbrev parts_behind : ℕ → Text → Text → List Text
parts_behind seq recorded_at prev =
    prev
    ∷ codes ","
    ∷ codes "recorded_at"
    ∷ (b':' ∷ (recorded_at ++ b',' ∷ []))
    ∷ codes "seq"
    ∷ (b':' ∷ (decimal seq ++ b'}' ∷ []))
    ∷ []

IsBare-around : (c d : ℕ) (t : Text) → IsBare (c ∷ d ∷ []) → IsBare t → IsBare (c ∷ (t ++ d ∷ []))
IsBare-around c d t h k = ground (arith, all-append (λ c. not (nat_eq c b'"')) t (d ∷ []))

split_on-behind_hash :
    (seq : ℕ) (recorded_at prev : Text)
    → IsBare recorded_at
    → IsBare prev
    → split_on b'"' (behind_hash seq recorded_at prev) ≡ parts_behind seq recorded_at prev
split_on-behind_hash seq recorded_at prev r p =
    split_on-quote prev _ p
    ∙ ap (◌∷◌ prev) (
        split_on-quote (codes ",") _ refl
        ∙ ap (◌∷◌ (codes ",")) (
            split_on-quote (codes "recorded_at") _ refl
            ∙ ap (◌∷◌ (codes "recorded_at")) (
                split_on-quote (b':' ∷ (recorded_at ++ b',' ∷ [])) _
                  (IsBare-around b':' b',' recorded_at refl r)
                ∙ ap (◌∷◌ (b':' ∷ (recorded_at ++ b',' ∷ []))) (
                    split_on-quote (codes "seq") _ refl
                    ∙ ap (◌∷◌ (codes "seq")) (
                        split_on-bare _
                          (IsBare-around b':' b'}' (decimal seq) refl (decimal-IsBare seq)))))))

-- The text in front of the hash.
abbrev before_hash : Text → Dict Json → Text
before_hash event payload =
    codes "{\"event\":"
    ++ quoted event
    ++ codes ",\"payload\":"
    ++ dumps_compact (object payload)
    ++ codes ",\"prev_hash\":"

body_text-parts :
    (seq : ℕ) (event : Text) (payload : Dict Json) (recorded_at prev : Text)
    → IsWritten prev
    → body_text seq event payload recorded_at prev
      ≡ before_hash event payload ++ b'"' ∷ behind_hash seq recorded_at prev
unfolding dumps_compact dumps_with dumps_fields insert_member members_text text_leb quoted escape
body_text-parts seq event payload recorded_at prev h = simp (append_assoc, escape-written prev h)

body_text-split :
    (e : AuditEntry)
    → IsWritten e.prev_hash
    → IsBare e.recorded_at
    → split_on b'"' (body_text e.seq e.event e.payload e.recorded_at e.prev_hash)
      ≡ split_on b'"' (before_hash e.event e.payload)
        ++ parts_behind e.seq e.recorded_at e.prev_hash
body_text-split e w r =
    ap (split_on b'"') (body_text-parts e.seq e.event e.payload e.recorded_at e.prev_hash w)
    ∙ split_on-append b'"' (before_hash e.event e.payload)
        (behind_hash e.seq e.recorded_at e.prev_hash)
    ∙ ap (λ (ps : List Text). split_on b'"' (before_hash e.event e.payload) ++ ps)
        (split_on-behind_hash e.seq e.recorded_at e.prev_hash r (IsWritten-IsBare e.prev_hash w))

-- Entries with one text follow one hash.
pub body_text-prev_hash :
    (d e : AuditEntry)
    → IsWritten d.prev_hash
    → IsWritten e.prev_hash
    → IsBare d.recorded_at
    → IsBare e.recorded_at
    → body_text d.seq d.event d.payload d.recorded_at d.prev_hash
      ≡ body_text e.seq e.event e.payload e.recorded_at e.prev_hash
    → d.prev_hash ≡ e.prev_hash
body_text-prev_hash d e w v r t h = cc (
    append-suffix (split_on b'"' (before_hash d.event d.payload))
      (split_on b'"' (before_hash e.event e.payload)) (parts_behind d.seq d.recorded_at d.prev_hash)
      (parts_behind e.seq e.recorded_at e.prev_hash) refl
      (sym (body_text-split d w r) ∙ ap (split_on b'"') h ∙ body_text-split e v t))
