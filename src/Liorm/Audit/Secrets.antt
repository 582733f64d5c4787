-- ===== src/Liorm/Audit/Secrets.antt =====
-- What redact_query_log leaves of a value behind the keys password and api_key.
use lidb.Base.{
  ◌≡◌, inl, inr, refl, sym, ap, ◌∙◌, not, ℕ, [], ◌∷◌, ◌++◌, Option, none, some, nat_eq, arith,
}
use lidb.Str.{Text, codes, is_space}
use lidb.Str.Regex.{Matcher, one, many, spelled, onto, ◌then◌, sub}
use lidb.Str.Regex.Substitution.{sub-miss}
use lidb.Str.Regex.Local.{Without, fails, stops, Local, many-Local, spelled-Local, then-Local}
use lidb.Liorm.Audit.Redact.{
  fold_case, key_prefix, with_value, keyed_value, bearer, jwt, redact_query_log,
}
use lidb.Liorm.Audit.Keys.{
  Spellable, value_text, keyed_value-Passes, keyed_value-Redacts, IsKey, Passes, Redacts,
}

-- The word of a key and the spaces behind it.
abbrev key_word : Text → Text → Option (Text × Text)
key_word word = spelled fold_case word then many is_space

key_word-Local : (word : Text) → Spellable word → Local b'\'' (key_word word)
unfolding is_space
key_word-Local word h =
    then-Local b'\'' (spelled fold_case word) (many is_space) (spelled-Local b'\'' fold_case word h)
      (many-Local b'\'' is_space refl)

equals-refused :
    (rest t : Text) → Without b'=' rest → one (λ c. nat_eq c b'=') (rest ++ b'\'' ∷ t) ≡ none
unfolding one
equals-refused [] t h = refl
equals-refused (c ∷ rest) t h = ground arith

onto-none : (q : Matcher) (a rest : Text) → q rest ≡ none → onto (some (a, rest)) q ≡ none
onto-none q a rest h = rw (onto, h) refl

-- What keyed_value does behind the word.
abbrev after_word : Option (Text × Text) → Option (Text × Text)
after_word o = with_value (onto (onto o (one (λ c. nat_eq c b'='))) (many is_space))

-- There is no key in a text without an equality sign, even if a quote is behind it.
keyed_value-Without :
    (word m t : Text) → Spellable word → Without b'=' m → keyed_value word (m ++ b'\'' ∷ t) ≡ none
unfolding keyed_value key_prefix ◌then◌
keyed_value-Without word m t h w = elim (key_word-Local word h (λ c. not (nat_eq c b'=')) m w) [
  | fails _ f ↦ ap after_word (f t)
  | stops a rest v _ f ↦
      ap after_word (f t)
      ∙ ap (λ o. with_value (onto o (many is_space)))
          (onto-none (one (λ c. nat_eq c b'=')) a (rest ++ b'\'' ∷ t) (equals-refused rest t v))
]

-- So nothing is replaced before the quote.
sub-Without :
    (word m t : Text)
    → Spellable word
    → Without b'=' m
    → sub (keyed_value word) (m ++ b'\'' ∷ t) ≡ m ++ b'\'' ∷ sub (keyed_value word) t
sub-Without word [] t h w = sub-miss (keyed_value word) b'\'' t (keyed_value-Without word [] t h w)
sub-Without word (c ∷ m) t h w =
    sub-miss (keyed_value word) c (m ++ b'\'' ∷ t) (keyed_value-Without word (c ∷ m) t h w)
    ∙ ap (λ (x : Text). c ∷ x) (sub-Without word m t h (ground arith))

-- A line whose text in front of the value stays keeps the value too.
sub-value :
    (word s t : Text)
    → Spellable word
    → Without b'=' s
    → sub (keyed_value word) (value_text s t) ≡ value_text s (sub (keyed_value word) t)
sub-value word s t h w =
    sub-miss (keyed_value word) b'\'' (s ++ b'\'' ∷ t)
      (keyed_value-Without word [] (s ++ b'\'' ∷ t) h refl)
    ∙ ap (λ (x : Text). b'\'' ∷ x) (sub-Without word s t h w)

-- What is exported does not depend on a value behind the key password: two lines that differ in it
-- only are redacted to the same, if the value has no quote and there is no quote in front of the key.
pub redact_query_log-password :
    (before cs value other after : Text) (c : ℕ)
    → Without b'\'' (before ++ c ∷ cs)
    → IsKey (codes "password") (c ∷ cs)
    → Without b'\'' value
    → Without b'\'' other
    → redact_query_log (before ++ c ∷ cs ++ value_text value after)
      ≡ redact_query_log (before ++ c ∷ cs ++ value_text other after)
unfolding redact_query_log
redact_query_log-password before cs value other after c w k v u =
    let (out, g) = keyed_value-Redacts (codes "password") before cs c refl w k in
    ap (λ (x : Text). sub jwt (sub bearer (sub (keyed_value (codes "api_key")) x)))
      (g value after v ∙ sym (g other after u))

-- The two key patterns, one after the other.
keyed_values :
    (before cs value other after : Text) (c : ℕ)
    → Passes (codes "password") (before ++ c ∷ cs)
    → Redacts (codes "api_key") (before ++ c ∷ cs)
    → Without b'\'' value × Without b'=' value
    → Without b'\'' other × Without b'=' other
    → sub
        (keyed_value (codes "api_key"))
        (sub (keyed_value (codes "password")) (before ++ c ∷ cs ++ value_text value after))
      ≡ sub
          (keyed_value (codes "api_key"))
          (sub (keyed_value (codes "password")) (before ++ c ∷ cs ++ value_text other after))
unfolding fold_case
keyed_values before cs value other after c (inl (out, g)) _ v u =
    ap (sub (keyed_value (codes "api_key"))) (g value after v.0 ∙ sym (g other after u.0))
keyed_values before cs value other after c (inr g) (out, f) v u =
    one_side value v ∙ sym (one_side other u)
  where
    left : Text
    left = out ++ sub (keyed_value (codes "api_key")) (sub (keyed_value (codes "password")) after)

    one_side :
        (s : Text)
        → Without b'\'' s × Without b'=' s
        → sub
            (keyed_value (codes "api_key"))
            (sub (keyed_value (codes "password")) (before ++ c ∷ cs ++ value_text s after))
          ≡ left
    one_side s w =
        ap (sub (keyed_value (codes "api_key"))) (
          g (s ++ b'\'' ∷ after)
          ∙ ap (λ (x : Text). before ++ c ∷ cs ++ x)
              (sub-value (codes "password") s after refl w.1))
        ∙ f s (sub (keyed_value (codes "password")) after) w.0

-- The same holds for the key api_key, if the value has no equality sign either: a value that ends in
-- `password=` would be taken for a key by the first pattern.
pub redact_query_log-api_key :
    (before cs value other after : Text) (c : ℕ)
    → Without b'\'' (before ++ c ∷ cs)
    → IsKey (codes "api_key") (c ∷ cs)
    → Without b'\'' value × Without b'=' value
    → Without b'\'' other × Without b'=' other
    → redact_query_log (before ++ c ∷ cs ++ value_text value after)
      ≡ redact_query_log (before ++ c ∷ cs ++ value_text other after)
unfolding redact_query_log
redact_query_log-api_key before cs value other after c w k v u =
    ap (λ (x : Text). sub jwt (sub bearer x))
      (keyed_values before cs value other after c
        (keyed_value-Passes (codes "password") (before ++ c ∷ cs) refl w)
        (keyed_value-Redacts (codes "api_key") before cs c refl w k) v u)
