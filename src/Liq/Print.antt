-- ===== src/Liq/Print.antt =====
-- A printer of statements in the surface syntax of liq/README.md, the reference that the parser is
-- held to: keywords between single spaces, a comma behind every name of a list but the last.
pub mod Tokens
pub mod Read
pub mod Write
pub mod Parts
pub mod Insert
pub mod Source
use lidb.Base.{ℕ, Bool, true, false, List, [], ◌∷◌, ◌++◌, Option, none, some, map}
use lidb.Str.{Text, codes, join, decimal}
use lidb.Liq.Syntax.{
  Rhs, param_ref, const, int_value, str_value, Predicate, Bindings, ReadStmt, InsertStmt,
  DeleteStmt, UpdateStmt, Stmt, read, insert, update, delete,
}

abbrev pub print_rhs : Rhs → Text
print_rhs (param_ref name) = b'$' ∷ name
print_rhs (const (int_value n)) = decimal n
print_rhs (const (str_value s)) = 39 ∷ (s ++ 39 ∷ [])

abbrev pub print_names : List Text → List Text
print_names [] = []
print_names (c ∷ []) = c ∷ []
print_names (c ∷ d ∷ cs) = (c ++ b',' ∷ []) ∷ print_names (d ∷ cs)

abbrev pub print_projection : Option (List Text) → List Text → List Text
print_projection none rest = rest
print_projection (some cols) rest = codes "{" ∷ (print_names cols ++ codes "}" ∷ rest)

abbrev pub print_where : Option Predicate → List Text → List Text
print_where none rest = rest
print_where (some p) rest = codes "where" ∷ p.column ∷ codes "=" ∷ print_rhs p.rhs ∷ rest

abbrev pub print_order : Option Text → Bool → List Text → List Text
print_order none desc rest = rest
print_order (some c) true rest = codes "order" ∷ c ∷ codes "desc" ∷ rest
print_order (some c) false rest = codes "order" ∷ c ∷ codes "asc" ∷ rest

abbrev pub print_limit : Option ℕ → List Text → List Text
print_limit none rest = rest
print_limit (some n) rest = codes "limit" ∷ decimal n ∷ rest

-- The clauses of a read behind its table.
abbrev pub print_clauses : ReadStmt → List Text
print_clauses s =
    print_projection s.columns (
      print_where s.where_clause (print_order s.order_column s.order_desc (print_limit s.limit [])))

abbrev pub print_read : ReadStmt → List Text
print_read s = codes "read" ∷ s.table.raw ∷ print_clauses s

-- Column, equality sign and value of every set clause, and then the rest.
abbrev pub print_sets : Bindings → List Text → List Text
print_sets [] rest = rest
print_sets ((column, value) ∷ bindings) rest =
    column ∷ codes "=" ∷ print_rhs value ∷ print_sets bindings rest

abbrev pub print_returning : Option (List Text) → List Text
print_returning none = []
print_returning (some cols) = codes "returning" ∷ print_names cols

abbrev pub print_update : UpdateStmt → List Text
print_update s =
    codes "update"
    ∷ s.table.raw
    ∷ codes "set"
    ∷ print_sets s.bindings (print_where s.where_clause (print_returning s.returning))

abbrev pub print_delete : DeleteStmt → List Text
print_delete s = codes "delete" ∷ codes "from" ∷ s.table.raw ∷ print_where s.where_clause []

-- A binding is one token, with no space around its colon.
abbrev pub print_binding : Text × Rhs → Text
print_binding (field, value) = field ++ b':' ∷ print_rhs value

abbrev pub print_insert : InsertStmt → List Text
print_insert s =
    codes "insert"
    ∷ s.table.raw
    ∷ codes "{"
    ∷ (print_names (map print_binding s.bindings) ++ codes "}" ∷ [])

abbrev pub print_stmt : Stmt → List Text
print_stmt (read s) = print_read s
print_stmt (insert s) = print_insert s
print_stmt (update s) = print_update s
print_stmt (delete s) = print_delete s
