-- ===== src/Liq/Print/Tokens.antt =====
-- The parts of a printed statement are read back.
use lidb.Base.{
  ℕ, ◌≤◌, ◌≡◌, ◌≢◌, refl, sym, ap, Bool, true, false, List, [], ◌∷◌, ◌++◌, some, ok, arith, length,
  nat_eq, All,
}
use lidb.Str.{Text, codes, ◌==◌, ==_refl, ==_of_ne, rstrip, decimal, starts_with, max_str_digits}
use lidb.Str.Numerals.{int-decimal, is_digit-decimal, quote_no_digit, decimal-no_dollar}
use lidb.Liq.Syntax.{Rhs, param_ref, const, int_value, str_value, Predicate}
use lidb.Liq.Lexical.{param, const_of, rhs_of, predicate, is_quoted, ends_with, drop_last}
use lidb.Liq.Lexical.Words.{match_param}
use lidb.Liq.Print.{print_rhs, print_names}
use lidb.Liq.Parser.{without_comma, projection}

-- A value that can be printed: a parameter with a name of _PARAM, a number that int() can read, or
-- any string.
abbrev pub IsPrintableRhs : Rhs → Type 0
IsPrintableRhs (param_ref name) = match_param (b'$' ∷ name) ≡ some name
IsPrintableRhs (const (int_value n)) = length (decimal n) ≤ max_str_digits
IsPrintableRhs (const (str_value s)) = Unit

-- A name of a list: no brace, and no comma at its end.
pub record IsListed (c : Text) : Type 0 where
  pub no_brace : c ≢ codes "}"
  pub no_comma : without_comma c ≡ c

ends_with-snoc : (q : ℕ) (s : Text) → ends_with q (s ++ q ∷ []) ≡ true
unfolding ends_with
ends_with-snoc q [] = ground arith
ends_with-snoc q (c ∷ []) = ground arith
ends_with-snoc q (c ∷ d ∷ s) = ends_with-snoc q (d ∷ s)

drop_last-snoc : (s : Text) (q : ℕ) → drop_last (s ++ q ∷ []) ≡ s
unfolding drop_last
drop_last-snoc [] q = refl
drop_last-snoc (c ∷ []) q = refl
drop_last-snoc (c ∷ d ∷ s) q = ap (◌∷◌ c) (drop_last-snoc (d ∷ s) q)

quoted_text : (s : Text) → is_quoted (39 ∷ (s ++ 39 ∷ [])) ≡ true
unfolding is_quoted ends_with starts_with
quoted_text [] = ground arith
quoted_text (c ∷ s) = ground (arith, ends_with-snoc 39 (c ∷ s))

const_of-string : (s : Text) → const_of (39 ∷ (s ++ 39 ∷ [])) ≡ ok (const (str_value s))
unfolding const_of
const_of-string s =
    let quoted : is_quoted (39 ∷ (s ++ 39 ∷ [])) ≡ true = quoted_text s in
    rw (quote_no_digit (s ++ 39 ∷ []), quoted, drop_last-snoc s 39)

const_of-decimal :
    (n : ℕ) → length (decimal n) ≤ max_str_digits → const_of (decimal n) ≡ ok (const (int_value n))
unfolding const_of
const_of-decimal n h = ground (arith, is_digit-decimal n, int-decimal n h)

pub rhs_of-print_rhs : (r : Rhs) → IsPrintableRhs r → rhs_of (print_rhs r) ≡ ok r
unfolding rhs_of param starts_with
rhs_of-print_rhs (param_ref name) h = ground (arith, h)
rhs_of-print_rhs (const (int_value n)) h = ground (arith, decimal-no_dollar n, const_of-decimal n h)
rhs_of-print_rhs (const (str_value s)) h = ground (arith, const_of-string s)

-- A printed predicate is read back, with any tokens behind it.
pub predicate-print :
    (p : Predicate) (rest : List Text)
    → p.op ≡ codes "="
    → IsPrintableRhs p.rhs
    → predicate (p.column ∷ codes "=" ∷ print_rhs p.rhs ∷ rest) ≡ ok (p, rest)
unfolding predicate
predicate-print p rest o h =
    rw (==_refl (codes "="), rhs_of-print_rhs p.rhs h)
      (ap (λ (op : Text). ok (record p { op = op }, rest)) (sym o))

rstrip-comma : (p : ℕ → Bool) (s : Text) (c : ℕ) → p c ≡ true → rstrip p (s ++ c ∷ []) ≡ rstrip p s
unfolding rstrip
rstrip-comma p [] c h = ground arith
rstrip-comma p (d ∷ s) c h = ground (arith, rstrip-comma p s c h)

pub without_comma-comma : (c : Text) → without_comma (c ++ b',' ∷ []) ≡ without_comma c
without_comma-comma c = rstrip-comma (λ d. nat_eq d b',') c b',' refl

comma_no_brace : (c : Text) → ((c ++ b',' ∷ []) == codes "}") ≡ false
unfolding ◌==◌
comma_no_brace [] = refl
comma_no_brace (c ∷ []) = ground arith
comma_no_brace (c ∷ d ∷ s) = ground arith

-- A printed list of names is read back up to its brace.
pub projection-print :
    (cols rest : List Text)
    → All IsListed cols
    → projection (print_names cols ++ codes "}" ∷ rest) ≡ some (cols, rest)
unfolding projection
projection-print [] rest h = rw (==_refl (codes "}"))
projection-print (c ∷ []) rest (l, _) =
    rw (==_of_ne c (codes "}") l.no_brace, ==_refl (codes "}"), l.no_comma)
projection-print (c ∷ d ∷ cs) rest (l, ls) =
    let more = projection-print (d ∷ cs) rest ls in
    rw (comma_no_brace c, more, without_comma-comma c, l.no_comma)
