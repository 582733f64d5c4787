-- ===== src/Liq/Parser.antt =====
-- The statement parsers of liq/parser.py but for reads, which a child has, and `parse`. A token list
-- with an index is the list of the tokens from that index on.
mod Reads
unfoldable pub use Reads.{
  projection, read_projection, read_where, read_direction, read_order, read_limit, read_step,
  read_loop, parse_read,
}
pub use Reads.{without_comma, Step, fuel_for, empty_read}
pub mod Tests
pub mod Total
pub mod Faults
use lidb.Base.{
  ℕ, zero, suc, ◌+◌, ◌≡◌, refl, Bool, true, false, ◌&&◌, ◌||◌, List, [], ◌∷◌, ◌++◌, Option, none,
  some, Outcome, ok, err, ◌>>=◌, ◌>>◌, raise_if, traverse, map, nat_eq, leb, ltb, is_empty, not,
  length, if◌then◌else◌,
}
use lidb.Str.{Text, codes, ◌==◌, split_on, is_digit, int, starts_with, strip, rstrip, split, join}
use lidb.Errors.{
  Error, parse_error, value_error, index_error, out_of_fuel, empty_program, unsupported_statement,
  binding_colon, read_table, unclosed_projection, order_column_missing, limit_missing,
  limit_literal, unexpected_in_read, insert_form, insert_brace, update_form, set_clause,
  update_empty, unexpected_in_update, delete_table, delete_clause,
}
use lidb.Liq.Syntax.{
  IdentRef, Rhs, Predicate, Bindings, ReadStmt, InsertStmt, UpdateStmt, DeleteStmt, Stmt, read,
  insert, update, delete,
}
use lidb.Liq.Lexical.{reject_forbidden, ident, rhs_of, predicate}

-- part.split(":", 1); `none` if there is no colon
unfoldable pub split_colon : Text → Option (Text × Text)
split_colon [] = none
split_colon (c ∷ cs) =
    let more = split_colon cs in
    if nat_eq c b':'
    then some ([], cs)
    else elim more [ none ↦ none | some (field, val) ↦ some (c ∷ field, val) ]

unfoldable pub binding : Text → Outcome Error (Text × Rhs)
unfolding split_colon
binding part = elim (split_colon part) [
  | none ↦ err (parse_error (binding_colon part))
  | some (field, val) ↦ do r ← rhs_of (strip val); ok (strip field, r)
]

-- [p.strip() for p in parts if p.strip()]
unfoldable pub stripped : List Text → List Text
stripped [] = []
stripped (p ∷ ps) = let rest = stripped ps in if is_empty (strip p) then rest else strip p ∷ rest

unfoldable pub parse_bindings : Text → Outcome Error Bindings
unfolding binding stripped
parse_bindings inner = traverse binding (stripped (split_on b',' inner))

-- tokens[:-1] and tokens[-1] of the tokens behind a first one
unfoldable pub last_and_rest : Text → List Text → List Text × Text
last_and_rest tok [] = ([], tok)
last_and_rest tok (next ∷ toks) = let rest = last_and_rest next toks in (tok ∷ rest.0, rest.1)

unfoldable pub parse_insert : List Text → Outcome Error InsertStmt
unfolding ident parse_bindings last_and_rest
parse_insert (verb ∷ name ∷ brace ∷ tok ∷ toks) =
    if not (brace == codes "{") then err (parse_error insert_form) else do
      table ← ident name
      let ends = last_and_rest tok toks
      raise_if (not (ends.1 == codes "}")) (parse_error insert_brace)
      bindings ← parse_bindings (join (codes " ") ends.0)
      ok (record { table = table; bindings = bindings })
parse_insert _ = err (parse_error insert_form)

-- The loop over the set clauses, up to "where", "returning" or the end: the bindings and the tokens
-- from there on.
unfoldable pub set_bindings : List Text → Outcome Error (Bindings × List Text)
unfolding rhs_of
set_bindings [] = ok ([], [])
set_bindings (col ∷ eq ∷ value ∷ rest) =
    let more = set_bindings rest in
    if col == codes "where" || col == codes "returning"
    then ok ([], col ∷ eq ∷ value ∷ rest)
    else if not (eq == codes "=")
    then err (parse_error set_clause)
    else do r ← rhs_of value; (bs, toks) ← more; ok ((col, r) ∷ bs, toks)
set_bindings (col ∷ toks) =
    if col == codes "where" || col == codes "returning"
    then ok ([], col ∷ toks)
    else err (parse_error set_clause)

-- The second loop of _parse_update, which takes where clauses until "returning" takes the rest.
unfoldable pub update_loop : ℕ → UpdateStmt → List Text → Outcome Error UpdateStmt
unfolding predicate
update_loop zero s toks = err out_of_fuel
update_loop (suc f) s [] = ok s
update_loop (suc f) s (tok ∷ toks) =
    if tok == codes "where"
    then (do (p, rest) ← predicate toks; update_loop f (record s { where_clause = some p }) rest)
    else if tok == codes "returning"
    then ok (record s { returning = some (map without_comma toks) })
    else err (parse_error (unexpected_in_update tok))

unfoldable pub parse_update : List Text → Outcome Error UpdateStmt
unfolding ident set_bindings update_loop
parse_update (verb ∷ name ∷ set ∷ tok ∷ next ∷ toks) =
    if not (verb == codes "update") || not (set == codes "set")
    then err (parse_error update_form)
    else do
      table ← ident name
      (bindings, rest) ← set_bindings (tok ∷ next ∷ toks)
      let start : UpdateStmt = record {
        table = table;
        bindings = bindings;
        where_clause = none;
        returning = none;
      }
      s ← update_loop (fuel_for rest) start rest
      raise_if (is_empty bindings) (parse_error update_empty)
      ok s
parse_update _ = err (parse_error update_form)

-- `if i < len(tokens)` of _parse_delete; what follows the where clause is not looked at
unfoldable pub delete_where : List Text → Outcome Error (Option Predicate)
unfolding predicate
delete_where [] = ok none
delete_where (tok ∷ toks) =
    if not (tok == codes "where")
    then err (parse_error delete_clause)
    else do (p, rest) ← predicate toks; ok (some p)

-- _parse_delete behind the optional "from"
unfoldable pub delete_from : List Text → Outcome Error DeleteStmt
unfolding ident delete_where
delete_from [] = err (parse_error delete_table)
delete_from (name ∷ toks) = do
  table ← ident name
  w ← delete_where toks
  ok (record { table = table; where_clause = w })

unfoldable pub parse_delete : List Text → Outcome Error DeleteStmt
unfolding delete_from
parse_delete [] = err (parse_error delete_table)
parse_delete (verb ∷ []) = err (parse_error delete_table)
parse_delete (verb ∷ tok ∷ toks) =
    if tok == codes "from" then delete_from toks else delete_from (tok ∷ toks)

-- s.lower(), as far as the verbs can tell: no other character has a lower case in ASCII but the
-- Kelvin sign, whose lower case is a k, and the dotted capital I, whose lower case has two characters.
unfoldable pub lower : Text → Text
lower = map (λ c. if leb b'A' c && leb c b'Z' then c + 32 else c)

-- The tests on the lowered verb.
unfoldable pub parse_verb : Text → List Text → Outcome Error Stmt
unfolding parse_read parse_insert parse_update parse_delete
parse_verb verb tokens =
    if verb == codes "read"
    then (do s ← parse_read tokens; ok (read s))
    else if verb == codes "insert"
    then (do s ← parse_insert tokens; ok (insert s))
    else if verb == codes "update"
    then (do s ← parse_update tokens; ok (update s))
    else if verb == codes "delete"
    then (do s ← parse_delete tokens; ok (delete s))
    else err (parse_error unsupported_statement)

-- There is a first token, as the stripped text is not empty.
unfoldable pub parse_tokens : List Text → Outcome Error Stmt
unfolding parse_verb lower
parse_tokens [] = err index_error
parse_tokens (tok ∷ toks) = parse_verb (lower tok) (tok ∷ toks)

unfoldable pub parse : Text → Outcome Error Stmt
unfolding reject_forbidden strip split parse_tokens
parse source = do
  reject_forbidden source
  let text = strip source
  raise_if (is_empty text) (parse_error empty_program)
  parse_tokens (split text)
