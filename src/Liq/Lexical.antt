-- ===== src/Liq/Lexical.antt =====
-- The token level of liq/parser.py: the regular expressions, _reject_forbidden, _ident, _param,
-- _const, _rhs and _predicate.
pub mod Words
use lidb.Base.{
  ℕ, ◌≡◌, refl, Bool, true, false, ◌&&◌, ◌||◌, List, [], ◌∷◌, ◌++◌, Option, none, some, Outcome, ok,
  err, ◌>>=◌, nat_eq, leb, is_empty, not, if◌then◌else◌,
}
use lidb.Str.{Text, codes, ◌==◌, split_on, is_digit, int, starts_with}
use lidb.Errors.{
  Error, parse_error, value_error, forbidden_token, invalid_identifier, expected_param,
  invalid_literal, where_clause,
}
use lidb.Liq.Lexical.Words.{is_ident, match_param, is_forbidden}
use lidb.Liq.Syntax.{IdentRef, Rhs, param_ref, const, str_value, int_value, Predicate}

unfoldable pub reject_forbidden : Text → Outcome Error Unit
reject_forbidden source = if is_forbidden source then err (parse_error forbidden_token) else ok tt

unfoldable pub ident : Text → Outcome Error IdentRef
ident token =
    if not (is_ident token)
    then err (parse_error (invalid_identifier token))
    else ok (record { raw = token; parts = split_on b'.' token })

unfoldable pub param : Text → Outcome Error Rhs
param token = elim (match_param token) [
  | none ↦ err (parse_error (expected_param token))
  | some name ↦ ok (param_ref name)
]

-- The last character is `q`.
unfoldable pub ends_with : ℕ → Text → Bool
ends_with q [] = false
ends_with q (c ∷ []) = nat_eq c q
ends_with q (c ∷ d ∷ s) = ends_with q (d ∷ s)

-- All but the last character, s[:-1].
unfoldable pub drop_last : Text → Text
drop_last [] = []
drop_last (c ∷ []) = []
drop_last (c ∷ d ∷ s) = c ∷ drop_last (d ∷ s)

-- s[1:-1]
unfoldable pub inner : Text → Text
unfolding drop_last
inner [] = []
inner (c ∷ s) = drop_last s

unfoldable pub is_quoted_by : ℕ → Text → Bool
unfolding ends_with
is_quoted_by q token = starts_with token (q ∷ []) && ends_with q token

unfoldable pub is_quoted : Text → Bool
unfolding is_quoted_by
is_quoted token = is_quoted_by 39 token || is_quoted_by 34 token

unfoldable pub const_of : Text → Outcome Error Rhs
unfolding inner is_quoted
const_of token =
    if is_digit token
    then elim (int token) [ none ↦ err value_error | some n ↦ ok (const (int_value n)) ]
    else if is_quoted token
    then ok (const (str_value (inner token)))
    else err (parse_error (invalid_literal token))

unfoldable pub rhs_of : Text → Outcome Error Rhs
unfolding param const_of
rhs_of token = if starts_with token (codes "$") then param token else const_of token

-- The tokens from index `i` on stand for the list and the index.
unfoldable pub predicate : List Text → Outcome Error (Predicate × List Text)
unfolding rhs_of
predicate (col ∷ eq ∷ value ∷ rest) =
    if not (eq == codes "=")
    then err (parse_error where_clause)
    else do r ← rhs_of value; ok (record { column = col; op = codes "="; rhs = r }, rest)
predicate _ = err (parse_error where_clause)
