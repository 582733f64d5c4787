-- ===== src/Liq/Compiler/Resolved.antt =====
-- The names of a compiled statement are those of the catalog.
use lidb.Base.{
  ℕ, ◌+◌, ◌≡◌, Bool, List, [], ◌∷◌, ◌++◌, Option, none, some, Outcome, ok, ◌>>=◌, traverse, All,
  All-append, Ensures, Ensures-bind, Ensures-mono, Ensures-eq, to_Ensures, of_Ensures,
}
use lidb.Str.{Text}
use lidb.Dict.{lookup}
use lidb.Errors.{Error}
use lidb.Liorm.Catalog.{resolve_table, resolve_column, table_key}
use lidb.Liorm.Catalog.Tables.{catalog_allowlist}
use lidb.Liorm.Catalog.Safety.{InCatalog, resolve_table-listed, resolve_column-InCatalog}
use lidb.Liq.Syntax.{Rhs, param_ref, const, Predicate, Bindings, Stmt, read, insert, update, delete}
use lidb.Liq.Compiler.{
  Lowered, Schema, Slots, quoted_table, quoted_col, truthy, lower_columns, where_rhs, lower_where,
  lower_order, lower_read, insert_slot, update_slot, slots_loop, no_slots, lower_insert,
  lower_returning, lower_update, lower_delete, lower_stmt,
}

abbrev pub table_of : Stmt → Text
table_of (read s) = s.table.raw
table_of (insert s) = s.table.raw
table_of (update s) = s.table.raw
table_of (delete s) = s.table.raw

abbrev where_column : Option Predicate → List Text
where_column none = []
where_column (some p) = p.column ∷ []

abbrev order_columns : Text → List Text
order_columns [] = []
order_columns (c ∷ cs) = (c ∷ cs) ∷ []

abbrev binding_fields : Bindings → List Text
binding_fields [] = []
binding_fields ((f, v) ∷ bs) = f ∷ binding_fields bs

-- Every column that a statement names.
abbrev pub columns_of : Stmt → List Text
columns_of (read s) =
    truthy s.columns ++ where_column s.where_clause ++ order_columns (truthy s.order_column)
columns_of (insert s) = binding_fields s.bindings
columns_of (update s) =
    binding_fields s.bindings ++ where_column s.where_clause ++ truthy s.returning
columns_of (delete s) = where_column s.where_clause

-- The table resolves, and the catalog lists the column for it.
abbrev pub Known : Text → Text → Type 0
Known table column = (t : Text × Text) × (resolve_table table ≡ ok t) × InCatalog t.0 t.1 column

abbrev AllKnown : Text → List Text → Type 0
AllKnown table = All (Known table)

resolve_column-Known :
    (table column : Text)
    → Ensures (λ (_ : Text × Text × Text). Known table column) (resolve_column table column)
resolve_column-Known table column = to_Ensures _ (resolve_column table column) λ r h.
    let (resolved, _, there) = resolve_column-InCatalog table column h in
    ((r.0, r.1), resolved, there)

quoted_col-Known :
    (table column : Text) → Ensures (λ (_ : Text). Known table column) (quoted_col table column)
unfolding quoted_col
quoted_col-Known table column =
    Ensures-bind (λ _. Known table column) (λ _. Known table column) (resolve_column table column) _
      (resolve_column-Known table column) λ r k. k

traverse-Known :
    (table : Text) (cs : List Text)
    → Ensures (λ (_ : List Text). AllKnown table cs) (traverse (quoted_col table) cs)
traverse-Known table [] = tt
traverse-Known table (c ∷ cs) =
    Ensures-bind (λ _. Known table c) _ (quoted_col table c) _ (quoted_col-Known table c)
      λ t k.
        Ensures-bind (λ _. AllKnown table cs) _ (traverse (quoted_col table) cs) _
          (traverse-Known table cs) λ ts ks. (k, ks)

where_rhs-Known :
    (e : Error) (table : Text) (idx : ℕ) (schema : Schema) (column : Text) (r : Rhs)
    → Ensures (λ (_ : Lowered). Known table column) (where_rhs e table idx schema column r)
unfolding where_rhs
where_rhs-Known e table idx schema column (const l) = tt
where_rhs-Known e table idx schema column (param_ref name) =
    Ensures-bind (λ _. Known table column) _ (quoted_col table column) _
      (quoted_col-Known table column) λ col k. k

lower_where-Known :
    (e : Error) (table : Text) (idx : ℕ) (schema : Schema) (w : Option Predicate)
    → Ensures (λ (_ : Lowered). AllKnown table (where_column w)) (lower_where e table idx schema w)
unfolding lower_where
lower_where-Known e table idx schema none = tt
lower_where-Known e table idx schema (some p) =
    Ensures-mono (λ _. Known table p.column) _ (where_rhs e table idx schema p.column p.rhs)
      (λ _ k. (k, tt)) (where_rhs-Known e table idx schema p.column p.rhs)

lower_columns-Known :
    (table : Text) (cs : List Text)
    → Ensures (λ (_ : Text). AllKnown table cs) (lower_columns table cs)
unfolding lower_columns
lower_columns-Known table [] = tt
lower_columns-Known table (c ∷ cs) =
    Ensures-bind (λ _. AllKnown table (c ∷ cs)) _ (traverse (quoted_col table) (c ∷ cs)) _
      (traverse-Known table (c ∷ cs)) λ ts k. k

lower_returning-Known :
    (table : Text) (cs : List Text)
    → Ensures (λ (_ : Text). AllKnown table cs) (lower_returning table cs)
unfolding lower_returning
lower_returning-Known table [] = tt
lower_returning-Known table (c ∷ cs) =
    Ensures-bind (λ _. AllKnown table (c ∷ cs)) _ (traverse (quoted_col table) (c ∷ cs)) _
      (traverse-Known table (c ∷ cs)) λ ts k. k

lower_order-Known :
    (table c : Text) (desc : Bool)
    → Ensures (λ (_ : Text). AllKnown table (order_columns c)) (lower_order table c desc)
unfolding lower_order
lower_order-Known table [] desc = tt
lower_order-Known table (c ∷ cs) desc =
    Ensures-bind (λ _. Known table (c ∷ cs)) _ (quoted_col table (c ∷ cs)) _
      (quoted_col-Known table (c ∷ cs)) λ col k. (k, tt)

slots_loop-Known :
    (table : Text) (body : Slots → Text → Rhs → Outcome Error Slots)
    → ((st : Slots) (field : Text) (v : Rhs)
        → Ensures (λ (_ : Slots). Known table field) (body st field v))
    → (st : Slots) (bs : Bindings)
    → Ensures (λ (_ : Slots). AllKnown table (binding_fields bs)) (slots_loop body st bs)
unfolding slots_loop
slots_loop-Known table body one st [] = tt
slots_loop-Known table body one st ((field, v) ∷ bs) =
    Ensures-bind (λ _. Known table field) _ (body st field v) _ (one st field v)
      λ st' k.
        Ensures-mono (λ _. AllKnown table (binding_fields bs)) _ (slots_loop body st' bs)
          (λ _ ks. (k, ks)) (slots_loop-Known table body one st' bs)

-- The column of a slot is resolved before the rest.
slot-Known :
    {A : Type 0} (table field : Text) (rest : Text × Text × Text → Outcome Error A)
    → Ensures (λ (_ : A). Known table field) (resolve_column table field >>= rest)
slot-Known table field rest =
    Ensures-bind (λ _. Known table field) _ (resolve_column table field) rest
      (resolve_column-Known table field) λ r k. to_Ensures _ (rest r) λ _ _. k

-- The table resolves to one of the catalog's.
abbrev KnownTable : Text → Type 0
KnownTable raw =
    (t : Text × Text) × (resolve_table raw ≡ ok t)
    × ((columns : List Text) × (lookup (table_key t) catalog_allowlist ≡ some (some columns)))

quoted_table-Known : (raw : Text) → Ensures (λ (_ : Text). KnownTable raw) (quoted_table raw)
unfolding quoted_table
quoted_table-Known raw =
    Ensures-bind (λ t. resolve_table raw ≡ ok t) _ (resolve_table raw) _
      (Ensures-eq (resolve_table raw)) λ t h. (t, h, resolve_table-listed raw h)

-- The table and every column resolve.
pub record IsResolved (s : Stmt) : Type 0 where
  pub table :
      (t : Text × Text) × (resolve_table (table_of s) ≡ ok t)
      × ((columns : List Text) × (lookup (table_key t) catalog_allowlist ≡ some (some columns)))
  pub columns : All (Known (table_of s)) (columns_of s)

-- The first step of every lowering.
table_first :
    {A : Type 0} (raw : Text) (P : A → Type 0) (rest : Text → Outcome Error A)
    → ((q : Text) → KnownTable raw → Ensures P (rest q))
    → Ensures P (quoted_table raw >>= rest)
table_first raw P rest k =
    Ensures-bind (λ _. KnownTable raw) P (quoted_table raw) rest (quoted_table-Known raw) k

lowered-IsResolved : (s : Stmt) → Ensures (λ (_ : Lowered). IsResolved s) (lower_stmt s)
unfolding lower_stmt lower_read lower_insert lower_update lower_delete insert_slot update_slot
lowered-IsResolved (read s) = table_first s.table.raw _ _ λ q t.
    Ensures-bind (λ _. AllKnown s.table.raw (truthy s.columns)) _
      (lower_columns s.table.raw (truthy s.columns)) _
      (lower_columns-Known s.table.raw (truthy s.columns))
      λ cols c.
        Ensures-bind (λ _. AllKnown s.table.raw (where_column s.where_clause)) _
          (lower_where _ s.table.raw 1 [] s.where_clause) _
          (lower_where-Known _ s.table.raw 1 [] s.where_clause)
          λ l w.
            Ensures-bind (λ _. AllKnown s.table.raw (order_columns (truthy s.order_column))) _
              (lower_order s.table.raw (truthy s.order_column) s.order_desc) _
              (lower_order-Known s.table.raw (truthy s.order_column) s.order_desc)
              λ order o. record {
                table = t;
                columns =
                    All-append (Known s.table.raw) (truthy s.columns ++ where_column s.where_clause)
                      _ (All-append (Known s.table.raw) (truthy s.columns) _ c w) o;
              }
lowered-IsResolved (insert s) = table_first s.table.raw _ _ λ q t.
    Ensures-bind (λ _. AllKnown s.table.raw (binding_fields s.bindings)) _
      (slots_loop (insert_slot s.table.raw) no_slots s.bindings) _
      (slots_loop-Known s.table.raw (insert_slot s.table.raw)
        (λ st field v. slot-Known s.table.raw field _) no_slots s.bindings)
      λ st k. record { table = t; columns = k }
lowered-IsResolved (update s) = table_first s.table.raw _ _ λ q t.
    Ensures-bind (λ _. AllKnown s.table.raw (binding_fields s.bindings)) _
      (slots_loop (update_slot s.table.raw) no_slots s.bindings) _
      (slots_loop-Known s.table.raw (update_slot s.table.raw)
        (λ st field v. slot-Known s.table.raw field _) no_slots s.bindings)
      λ st k.
        Ensures-bind (λ _. AllKnown s.table.raw (where_column s.where_clause)) _
          (lower_where _ s.table.raw (st.idx + 1) st.schema s.where_clause) _
          (lower_where-Known _ s.table.raw (st.idx + 1) st.schema s.where_clause)
          λ l w.
            Ensures-bind (λ _. AllKnown s.table.raw (truthy s.returning)) _
              (lower_returning s.table.raw (truthy s.returning)) _
              (lower_returning-Known s.table.raw (truthy s.returning))
              λ ret r. record {
                table = t;
                columns =
                    All-append (Known s.table.raw)
                      (binding_fields s.bindings ++ where_column s.where_clause) _
                      (All-append (Known s.table.raw) (binding_fields s.bindings) _ k w) r;
              }
lowered-IsResolved (delete s) = table_first s.table.raw _ _ λ q t.
    Ensures-bind (λ _. AllKnown s.table.raw (where_column s.where_clause)) _
      (lower_where _ s.table.raw 1 [] s.where_clause) _
      (lower_where-Known _ s.table.raw 1 [] s.where_clause) λ l w. record { table = t; columns = w }

-- A statement that is lowered to SQL names a table of the catalog, and every column in its projection,
-- bindings, where, order and returning clauses is one that the catalog lists for that table.
pub lower_stmt-IsResolved : (s : Stmt) {l : Lowered} → lower_stmt s ≡ ok l → IsResolved s
lower_stmt-IsResolved s = of_Ensures (λ _. IsResolved s) (lower_stmt s) (lowered-IsResolved s)
