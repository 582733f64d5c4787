-- ===== src/Liq/Print/Parts.antt =====
-- The comma-separated parts of an insert are found again in the text between its braces.
use lidb.Base.{
  ℕ, ◌≡◌, refl, ap, ◌∙◌, true, not, List, [], ◌∷◌, ◌++◌, arith, all, All, nat_eq, append_assoc,
}
use lidb.Str.{Text, join, split_on, strip, onto_first}
use lidb.Str.Joined.{IsWord, space, strip-join}
use lidb.Liq.Parser.{stripped}
use lidb.Liq.Print.{print_names}

-- A word with no comma.
pub record IsPart (p : Text) : Type 0 where
  pub word : IsWord p
  pub no_comma : all (λ c. not (nat_eq c b',')) p ≡ true

pub strip-IsWord : (t : Text) → IsWord t → strip t ≡ t
unfolding join
strip-IsWord t h = (strip-join t [] (h, tt)).0

split_on-last :
    (sep : ℕ) (t : Text) → all (λ c. not (nat_eq c sep)) t ≡ true → split_on sep t ≡ t ∷ []
unfolding split_on
split_on-last sep [] h = refl
split_on-last sep (c ∷ t) h = ground (arith, split_on-last sep t)

split_on-part :
    (sep : ℕ) (t rest : Text)
    → all (λ c. not (nat_eq c sep)) t ≡ true
    → split_on sep (t ++ sep ∷ rest) ≡ t ∷ split_on sep rest
unfolding split_on
split_on-part sep [] rest h = ground arith
split_on-part sep (c ∷ t) rest h = ground (arith, split_on-part sep t rest)

-- A space in front of the first part is stripped.
stripped-space : (ps : List Text) → stripped (onto_first b' ' ps) ≡ stripped ps
unfolding stripped strip
stripped-space [] = refl
stripped-space (p ∷ ps) = refl

stripped-part : (p : Text) (ps : List Text) → IsWord p → stripped (p ∷ ps) ≡ p ∷ stripped ps
unfolding stripped
stripped-part p ps h = rw (strip-IsWord p h, h.not_empty) refl

-- A comma and a space between the first name and the others.
join-names :
    (p q : Text) (ps : List Text)
    → join space (print_names (p ∷ q ∷ ps)) ≡ p ++ b',' ∷ b' ' ∷ join space (print_names (q ∷ ps))
unfolding join
join-names p q [] = append_assoc (p ++ b',' ∷ []) space q ∙ append_assoc p (b',' ∷ []) (space ++ q)
join-names p q (r ∷ ps) =
    append_assoc (p ++ b',' ∷ []) space _ ∙ append_assoc p (b',' ∷ []) (space ++ _)

pub stripped-names :
    (ps : List Text) → All IsPart ps → stripped (split_on b',' (join space (print_names ps))) ≡ ps
unfolding join split_on stripped
stripped-names [] h = unfold strip in refl
stripped-names (p ∷ []) (h, _) =
    ap stripped (split_on-last b',' p h.no_comma) ∙ stripped-part p [] h.word
stripped-names (p ∷ q ∷ ps) (h, hs) =
    let rest = join space (print_names (q ∷ ps)) in
    ap (λ (x : Text). stripped (split_on b',' x)) (join-names p q ps)
    ∙ ap stripped (split_on-part b',' p (b' ' ∷ rest) h.no_comma)
    ∙ stripped-part p (split_on b',' (b' ' ∷ rest)) h.word
    ∙ ap (◌∷◌ p) (stripped-space (split_on b',' rest) ∙ stripped-names (q ∷ ps) hs)
