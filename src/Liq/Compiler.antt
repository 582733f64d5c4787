-- ===== src/Liq/Compiler.antt =====
-- liq/compiler.py: parameter collection, the four lowerings to SQL text, plan ids and compile.
mod Collect
unfoldable pub use Collect.{param_type, add_param, add_where, add_bindings, collect_params}
pub use Collect.{Schema}
pub mod Tests
pub mod Alphabet
pub mod Params
pub mod Literals
pub mod Placeholders
pub mod Resolved
use lidb.Base.{
  ℕ, zero, suc, ◌+◌, Bool, true, false, List, [], ◌∷◌, ◌++◌, Option, none, some, Outcome, ok, err,
  ◌>>=◌, ◌>>◌, traverse, is_empty, not, if◌then◌else◌,
}
use lidb.Str.{Text, codes, ◌==◌, join, decimal}
use lidb.Dict.{Dict, lookup, put, elem}
use lidb.Errors.{Error, compile_error, read_literal, update_literal, delete_literal}
use lidb.Json.{Json, dumps}
use lidb.Liorm.Catalog.{resolve_table, resolve_column}
use lidb.Liq.Syntax.{
  IdentRef, Rhs, param_ref, const, Predicate, Bindings, ReadStmt, InsertStmt, UpdateStmt,
  DeleteStmt, Stmt, read, insert, update, delete,
}
use lidb.Liq.Parser.{parse}
use lidb.Liq.Ir.{stmt_to_ir}

pub record CompileResult : Type 0 where
  pub plan_id : Text
  pub ir : Json
  pub sql : Text
  pub param_schema : Schema

-- f'"{name}"'
abbrev pub quote : Text → Text
quote name = b'"' ∷ (name ++ b'"' ∷ [])

unfoldable pub quoted_table : Text → Outcome Error Text
quoted_table table_raw = do
  (schema, name) ← resolve_table table_raw
  ok (quote schema ++ b'.' ∷ quote name)

unfoldable pub quoted_col : Text → Text → Outcome Error Text
quoted_col table_raw column = do
  (schema, table, col) ← resolve_column table_raw column
  ok (quote schema ++ b'.' ∷ (quote table ++ b'.' ∷ quote col))

abbrev pub Lowered : Type 0
Lowered = Text × Schema

-- `if x:` of an optional tuple or string
abbrev pub truthy {ℓ} : {A : Type ℓ} → Option (List A) → List A
truthy none = []
truthy (some xs) = xs

-- The projection of a read: `*` unless there are columns.
pub lower_columns : Text → List Text → Outcome Error Text
lower_columns table [] = ok (codes "*")
lower_columns table (c ∷ cs) = do
  cols ← traverse (quoted_col table) (c ∷ cs)
  ok (join (codes ", ") cols)

-- The where clause on `column`, with the placeholder number `idx`: its SQL, and the schema with its
-- parameter. A literal is refused.
unfoldable pub where_rhs : Error → Text → ℕ → Schema → Text → Rhs → Outcome Error Lowered
where_rhs e table idx schema column (const l) = err e
where_rhs e table idx schema column (param_ref name) = do
  col ← quoted_col table column
  ok (codes " WHERE " ++ col ++ codes " = $" ++ decimal idx, put name (param_type name) schema)

-- `if stmt.where`
unfoldable pub lower_where : Error → Text → ℕ → Schema → Option Predicate → Outcome Error Lowered
unfolding where_rhs
lower_where e table idx schema none = ok ([], schema)
lower_where e table idx schema (some p) = where_rhs e table idx schema p.column p.rhs

unfoldable pub lower_order : Text → Text → Bool → Outcome Error Text
lower_order table [] desc = ok []
lower_order table (c ∷ cs) desc = do
  col ← quoted_col table (c ∷ cs)
  ok (codes " ORDER BY " ++ col ++ (if desc then codes " DESC" else codes " ASC"))

pub lower_limit : Option ℕ → Text
lower_limit none = []
lower_limit (some n) = codes " LIMIT " ++ decimal n

unfoldable pub lower_read : ReadStmt → Outcome Error Lowered
unfolding quoted_table lower_columns lower_where lower_order lower_limit
lower_read s = do
  qtable ← quoted_table s.table.raw
  cols ← lower_columns s.table.raw (truthy s.columns)
  (filter, schema) ← lower_where (compile_error read_literal) s.table.raw 1 [] s.where_clause
  order ← lower_order s.table.raw (truthy s.order_column) s.order_desc
  ok (
    codes "SELECT " ++ cols ++ codes " FROM " ++ qtable ++ filter ++ order ++ lower_limit s.limit,
    schema,
  )

-- The variables of the loops over the bindings. An insert has its columns in `fields` and its values
-- in `placeholders`, an update its assignments in `fields`.
pub record Slots : Type 0 where
  pub fields : List Text
  pub placeholders : List Text
  pub schema : Schema
  pub idx : ℕ

abbrev pub no_slots : Slots
no_slots = record { fields = []; placeholders = []; schema = []; idx = 0 }

-- What a binding of an insert adds, its column resolved.
pub insert_value : Slots → Text → Rhs → Slots
insert_value st col (param_ref name) = record {
  fields = st.fields ++ col ∷ [];
  placeholders = st.placeholders ++ (b'$' ∷ decimal (st.idx + 1)) ∷ [];
  schema = put name (param_type name) st.schema;
  idx = st.idx + 1;
}
insert_value st col (const l) = record st {
  fields = st.fields ++ col ∷ [];
  placeholders = st.placeholders ++ codes "%s" ∷ [];
}

insert_slot : Text → Slots → Text → Rhs → Outcome Error Slots
unfolding insert_value
insert_slot table st field v = do
  resolve_column table field
  col ← quoted_col table field
  ok (insert_value st col v)

-- What a binding of an update adds.
pub update_value : Slots → Text → Rhs → Slots
update_value st col (param_ref name) = record st {
  fields = st.fields ++ (col ++ codes " = $" ++ decimal (st.idx + 1)) ∷ [];
  schema = put name (param_type name) st.schema;
  idx = st.idx + 1;
}
update_value st col (const l) = record st { fields = st.fields ++ (col ++ codes " = %s") ∷ [] }

update_slot : Text → Slots → Text → Rhs → Outcome Error Slots
unfolding update_value
update_slot table st field v = do
  resolve_column table field
  col ← quoted_col table field
  ok (update_value st col v)

-- `for field, rhs in stmt.bindings`, with the body of the one loop or the other
unfoldable pub slots_loop :
    (Slots → Text → Rhs → Outcome Error Slots) → Slots → Bindings → Outcome Error Slots
slots_loop body st [] = ok st
slots_loop body st ((field, v) ∷ bs) = do st' ← body st field v; slots_loop body st' bs

unfoldable pub lower_insert : InsertStmt → Outcome Error Lowered
unfolding quoted_table insert_slot slots_loop
lower_insert s = do
  qtable ← quoted_table s.table.raw
  st ← slots_loop (insert_slot s.table.raw) no_slots s.bindings
  ok (
    codes "INSERT INTO "
        ++ qtable
        ++ codes " ("
        ++ join (codes ", ") st.fields
        ++ codes ") VALUES ("
        ++ join (codes ", ") st.placeholders
        ++ codes ")",
    st.schema,
  )

-- `if stmt.returning`
pub lower_returning : Text → List Text → Outcome Error Text
lower_returning table [] = ok []
lower_returning table (c ∷ cs) = do
  cols ← traverse (quoted_col table) (c ∷ cs)
  ok (codes " RETURNING " ++ join (codes ", ") cols)

unfoldable pub lower_update : UpdateStmt → Outcome Error Lowered
unfolding quoted_table update_slot slots_loop lower_where lower_returning
lower_update s = do
  qtable ← quoted_table s.table.raw
  st ← slots_loop (update_slot s.table.raw) no_slots s.bindings
  (filter, schema) ←
      lower_where (compile_error update_literal) s.table.raw (st.idx + 1) st.schema s.where_clause
  ret ← lower_returning s.table.raw (truthy s.returning)
  ok (
    codes "UPDATE " ++ qtable ++ codes " SET " ++ join (codes ", ") st.fields ++ filter ++ ret,
    schema,
  )

unfoldable pub lower_delete : DeleteStmt → Outcome Error Lowered
unfolding quoted_table lower_where
lower_delete s = do
  qtable ← quoted_table s.table.raw
  (filter, schema) ← lower_where (compile_error delete_literal) s.table.raw 1 [] s.where_clause
  ok (codes "DELETE FROM " ++ qtable ++ filter, schema)

-- The dispatch of `compile` on the class of the statement.
unfoldable pub lower_stmt : Stmt → Outcome Error Lowered
lower_stmt (read s) = lower_read s
lower_stmt (insert s) = lower_insert s
lower_stmt (update s) = lower_update s
lower_stmt (delete s) = lower_delete s

-- digest[:16]
first_16 : Text → Text
first_16 (a ∷ b ∷ c ∷ d ∷ e ∷ f ∷ g ∷ h ∷ i ∷ j ∷ k ∷ l ∷ m ∷ n ∷ o ∷ p ∷ rest) =
    a ∷ b ∷ c ∷ d ∷ e ∷ f ∷ g ∷ h ∷ i ∷ j ∷ k ∷ l ∷ m ∷ n ∷ o ∷ p ∷ []
first_16 s = s

-- The hash, hashlib.sha256(s.encode()).hexdigest(), is a parameter.
module _ (sha256_hex : Text → Text) where
  unfoldable pub plan_id : Text → Json → Text
  unfolding first_16
  plan_id source ir = codes "liq:" ++ first_16 (sha256_hex (source ++ dumps ir))

  unfoldable pub compile : Text → Outcome Error CompileResult
  unfolding lower_stmt plan_id
  compile source = do
    stmt ← parse source
    let ir = stmt_to_ir stmt
    (sql, schema) ← lower_stmt stmt
    ok (record { plan_id = plan_id source ir; ir = ir; sql = sql; param_schema = schema })
