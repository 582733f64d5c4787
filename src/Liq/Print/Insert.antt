-- ===== src/Liq/Print/Insert.antt =====
-- A printed insert statement is parsed back.
use lidb.Base.{
  ℕ, ◌≡◌, refl, ap, ◌∙◌, true, not, List, [], ◌∷◌, ◌++◌, some, ok, arith, all, All, nat_eq,
  traverse, map, all-append,
}
use lidb.Str.{Text, codes, ◌==◌, join, is_space}
use lidb.Str.Joined.{IsWord, space}
use lidb.Liq.Syntax.{Rhs, Bindings, InsertStmt}
use lidb.Liq.Parser.{split_colon, binding, parse_bindings, last_and_rest, parse_insert}
use lidb.Liq.Print.{print_rhs, print_names, print_binding, print_insert}
use lidb.Liq.Print.Tokens.{IsPrintableRhs, rhs_of-print_rhs}
use lidb.Liq.Print.Read.{IsIdentRef, ident-print}
use lidb.Liq.Print.Parts.{IsPart, strip-IsWord, stripped-names}

abbrev pub NoMark : ℕ → Text → Type 0
NoMark mark t = all (λ c. not (nat_eq c mark)) t ≡ true

-- A field and a value that are words with no comma, and with no colon in the field.
pub record IsBinding (b : Text × Rhs) : Type 0 where
  pub field_word : IsWord b.0
  pub field_comma : NoMark b',' b.0
  pub field_colon : NoMark b':' b.0
  pub value_word : IsWord (print_rhs b.1)
  pub value_comma : NoMark b',' (print_rhs b.1)
  pub value : IsPrintableRhs b.1

pub record IsPrintableInsert (s : InsertStmt) : Type 0 where
  pub table : IsIdentRef s.table
  pub bound : All IsBinding s.bindings

append-IsWord : (f v : Text) → IsWord f → IsWord v → IsWord (f ++ b':' ∷ v)
append-IsWord [] v h k = cc (h.not_empty)
append-IsWord (c ∷ f) v h k = record {
  not_empty = refl;
  solid =
      all-append (λ d. not (is_space d)) (c ∷ f) (b':' ∷ v)
      ∙ unfold is_space in rw (h.solid, k.solid) refl;
}

print_binding-IsPart : (b : Text × Rhs) → IsBinding b → IsPart (print_binding b)
print_binding-IsPart (f, r) h = record {
  word = append-IsWord f (print_rhs r) h.field_word h.value_word;
  no_comma =
      all-append (λ c. not (nat_eq c b',')) f (b':' ∷ print_rhs r)
      ∙ rw (h.field_comma, h.value_comma) refl;
}

print_bindings-IsPart : (bs : Bindings) → All IsBinding bs → All IsPart (map print_binding bs)
print_bindings-IsPart [] h = tt
print_bindings-IsPart (b ∷ bs) (h, hs) = (print_binding-IsPart b h, print_bindings-IsPart bs hs)

split_colon-field : (f v : Text) → NoMark b':' f → split_colon (f ++ b':' ∷ v) ≡ some (f, v)
unfolding split_colon
split_colon-field [] v h = refl
split_colon-field (c ∷ f) v h = ground (arith, split_colon-field f v)

binding-print : (b : Text × Rhs) → IsBinding b → binding (print_binding b) ≡ ok b
unfolding binding
binding-print (f, r) h = rw (
  binding,
  split_colon-field f (print_rhs r) h.field_colon,
  strip-IsWord f h.field_word,
  strip-IsWord (print_rhs r) h.value_word,
  rhs_of-print_rhs r h.value,
)

traverse-print :
    (bs : Bindings) → All IsBinding bs → traverse binding (map print_binding bs) ≡ ok bs
traverse-print [] h = refl
traverse-print (b ∷ bs) (h, hs) = rw (binding-print b h, traverse-print bs hs)

parse_bindings-print :
    (bs : Bindings)
    → All IsBinding bs
    → parse_bindings (join space (print_names (map print_binding bs))) ≡ ok bs
unfolding parse_bindings
parse_bindings-print bs h =
    ap (traverse binding) (stripped-names (map print_binding bs) (print_bindings-IsPart bs h))
    ∙ traverse-print bs h

last_and_rest-snoc :
    (tok x : Text) (toks : List Text) → last_and_rest tok (toks ++ x ∷ []) ≡ (tok ∷ toks, x)
unfolding last_and_rest
last_and_rest-snoc tok x [] = refl
last_and_rest-snoc tok x (next ∷ toks) = rw (last_and_rest-snoc next x toks) refl

-- What is read behind the opening brace, for any tokens between the braces.
parse_insert-braces :
    (s : InsertStmt) (toks : List Text)
    → IsIdentRef s.table
    → parse_bindings (join space toks) ≡ ok s.bindings
    → parse_insert (codes "insert" ∷ s.table.raw ∷ codes "{" ∷ (toks ++ codes "}" ∷ [])) ≡ ok s
unfolding parse_insert ◌==◌
parse_insert-braces s [] t h = unfold last_and_rest in rw (ident-print s.table t, h)
parse_insert-braces s (tok ∷ toks) t h =
    rw (ident-print s.table t, last_and_rest-snoc tok (codes "}") toks, h)

-- The tokens of a printed insert are parsed back to that statement.
pub parse_insert-print :
    (s : InsertStmt) → IsPrintableInsert s → parse_insert (print_insert s) ≡ ok s
parse_insert-print s h =
    parse_insert-braces s (print_names (map print_binding s.bindings)) h.table
      (parse_bindings-print s.bindings h.bound)
