-- ===== src/Liq/Parser/Reads.antt =====
-- _parse_read of liq/parser.py. A token list with an index is the list of the tokens from that index
-- on.
use lidb.Base.{
  ℕ, zero, suc, false, ◌||◌, List, [], ◌∷◌, Option, none, some, Outcome, ok, err, ◌>>=◌, nat_eq,
  not, length, if◌then◌else◌,
}
use lidb.Str.{Text, codes, ◌==◌, is_digit, int, rstrip}
use lidb.Errors.{
  Error, parse_error, value_error, out_of_fuel, read_table, unclosed_projection,
  order_column_missing, limit_missing, limit_literal, unexpected_in_read,
}
use lidb.Liq.Syntax.{IdentRef, ReadStmt}
use lidb.Liq.Lexical.{ident, predicate}

-- token.rstrip(",")
abbrev pub without_comma : Text → Text
without_comma t = rstrip (λ c. nat_eq c b',') t

-- The loop that collects a projection, up to "}": the columns and the tokens behind the brace.
-- `none` if the tokens end first.
unfoldable pub projection : List Text → Option (List Text × List Text)
unfolding rstrip
projection [] = none
projection (tok ∷ toks) =
    let more = projection toks in
    if tok == codes "}"
    then some ([], toks)
    else elim more [ none ↦ none | some (cols, rest) ↦ some (without_comma tok ∷ cols, rest) ]

abbrev pub Step : Type 0
Step = Outcome Error (ReadStmt × List Text)

-- `if tok == "{"`
unfoldable pub read_projection : ReadStmt → List Text → Step
read_projection s toks = elim (projection toks) [
  | none ↦ err (parse_error unclosed_projection)
  | some (cols, rest) ↦ ok (record s { columns = some cols }, rest)
]

-- `if tok == "where"`
unfoldable pub read_where : ReadStmt → List Text → Step
read_where s toks = do (p, rest) ← predicate toks; ok (record s { where_clause = some p }, rest)

-- The optional direction behind an order column.
unfoldable pub read_direction : ReadStmt → List Text → ReadStmt × List Text
read_direction s [] = (s, [])
read_direction s (tok ∷ toks) =
    if tok == codes "asc" || tok == codes "desc"
    then (record s { order_desc = tok == codes "desc" }, toks)
    else (s, tok ∷ toks)

-- `if tok == "order"`
unfoldable pub read_order : ReadStmt → List Text → Step
unfolding read_direction
read_order s [] = err (parse_error order_column_missing)
read_order s (col ∷ toks) = ok (read_direction (record s { order_column = some col }) toks)

-- `if tok == "limit"`
unfoldable pub read_limit : ReadStmt → List Text → Step
read_limit s [] = err (parse_error limit_missing)
read_limit s (tok ∷ toks) =
    if not (is_digit tok)
    then err (parse_error limit_literal)
    else elim (int tok) [ none ↦ err value_error | some n ↦ ok (record s { limit = some n }, toks) ]

-- The body of `while i < len(tokens)` at the token `tok`.
unfoldable pub read_step : ReadStmt → Text → List Text → Step
unfolding read_projection read_where read_order read_limit
read_step s tok toks =
    if tok == codes "{"
    then read_projection s toks
    else if tok == codes "where"
    then read_where s toks
    else if tok == codes "order"
    then read_order s toks
    else if tok == codes "limit"
    then read_limit s toks
    else err (parse_error (unexpected_in_read tok))

-- The loop; each round takes a token at least, so one more unit of fuel than tokens is enough.
unfoldable pub read_loop : ℕ → ReadStmt → List Text → Outcome Error ReadStmt
read_loop zero s toks = err out_of_fuel
read_loop (suc f) s [] = ok s
read_loop (suc f) s (tok ∷ toks) = do (s', rest) ← read_step s tok toks; read_loop f s' rest

abbrev pub fuel_for : List Text → ℕ
fuel_for toks = suc (length toks)

abbrev pub empty_read : IdentRef → ReadStmt
empty_read table = record {
  table = table;
  columns = none;
  where_clause = none;
  order_column = none;
  order_desc = false;
  limit = none;
}

unfoldable pub parse_read : List Text → Outcome Error ReadStmt
unfolding ident read_step read_loop
parse_read (verb ∷ name ∷ toks) = do
  table ← ident name
  read_loop (fuel_for toks) (empty_read table) toks
parse_read _ = err (parse_error read_table)
