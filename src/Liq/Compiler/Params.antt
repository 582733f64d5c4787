-- ===== src/Liq/Compiler/Params.antt =====
-- The parameter schema of a compiled statement.
use lidb.Base.{
  ℕ, ◌+◌, ◌≡◌, refl, sym, ap, List, [], ◌∷◌, Option, none, some, Outcome, ok, ◌>>=◌, All, Ensures,
  Ensures-bind, to_Ensures, of_Ensures, Bool-cases, inl, inr,
}
use lidb.Str.{Text, ◌==◌, ==_iff}
use lidb.Dict.{put, keys}
use lidb.Dict.Laws.{keys-put}
use lidb.Errors.{Error}
use lidb.Liorm.Catalog.{resolve_column}
use lidb.Liq.Syntax.{Rhs, param_ref, const, Predicate, Bindings, Stmt, read, insert, update, delete}
use lidb.Liq.Compiler.{
  Lowered, Schema, Slots, quoted_table, quoted_col, truthy, lower_columns, where_rhs, lower_where,
  lower_order, lower_read, insert_slot, update_slot, slots_loop, no_slots, lower_insert,
  lower_returning, lower_update, lower_delete, lower_stmt, param_type, add_param, add_where,
  add_bindings, collect_params,
}

-- A schema with the keys `names`, each with the type that _PARAM_TYPES gives it.
pub record IsSchemaOf (names : List Text) (schema : Schema) : Type 0 where
  pub keys_are : keys schema ≡ names
  pub typed : All (λ (p : Text × Text). p.1 ≡ param_type p.0) schema

put-typed :
    (name : Text) (schema : Schema)
    → All (λ (p : Text × Text). p.1 ≡ param_type p.0) schema
    → All (λ (p : Text × Text). p.1 ≡ param_type p.0) (put name (param_type name) schema)
unfolding put
put-typed name [] h = (refl, tt)
put-typed name ((k, t) ∷ schema) h = elim (Bool-cases (k == name)) [
  | inl e ↦ rw e (ap param_type (sym ((==_iff k name).0 e)), h.1)
  | inr e ↦ rw e (h.0, put-typed name schema h.1)
]

put-IsSchemaOf :
    {names : List Text} {schema : Schema} (name : Text)
    → IsSchemaOf names schema
    → IsSchemaOf (add_param names (param_ref name)) (put name (param_type name) schema)
unfolding add_param
put-IsSchemaOf {names} {schema} name h = record {
  keys_are = rw keys-put (rw h.keys_are);
  typed = put-typed name schema h.typed;
}

-- The loop over the bindings records their parameters in order.
module _ (body : Slots → Text → Rhs → Outcome Error Slots)
    (one : (names : List Text) (st : Slots) (field : Text) (v : Rhs)
      → IsSchemaOf names st.schema
      → Ensures
          (λ (st' : Slots). IsSchemaOf (add_param names v) st'.schema)
          (body st field v)) where
  slots_loop-IsSchemaOf :
      (names : List Text) (st : Slots) (bs : Bindings)
      → IsSchemaOf names st.schema
      → Ensures
          (λ (st' : Slots). IsSchemaOf (add_bindings names bs) st'.schema)
          (slots_loop body st bs)
  unfolding slots_loop add_bindings
  slots_loop-IsSchemaOf names st [] h = h
  slots_loop-IsSchemaOf names st ((field, v) ∷ bs) h =
      Ensures-bind (λ (st' : Slots). IsSchemaOf (add_param names v) st'.schema)
        (λ (st' : Slots). IsSchemaOf (add_bindings (add_param names v) bs) st'.schema)
        (body st field v) _ (one names st field v h)
        λ st' h'. slots_loop-IsSchemaOf (add_param names v) st' bs h'

-- What an intermediate result is does not matter.
skip :
    {A B : Type 0} (P : B → Type 0) (m : Outcome Error A) (f : A → Outcome Error B)
    → ((a : A) → Ensures P (f a))
    → Ensures P (m >>= f)
skip P m f h = Ensures-bind (λ _. Unit) P m f (to_Ensures (λ _. Unit) m (λ _ _. tt)) (λ a _. h a)

insert_slot-IsSchemaOf :
    (table : Text) (names : List Text) (st : Slots) (field : Text) (v : Rhs)
    → IsSchemaOf names st.schema
    → Ensures
        (λ (st' : Slots). IsSchemaOf (add_param names v) st'.schema)
        (insert_slot table st field v)
unfolding insert_slot add_param
insert_slot-IsSchemaOf table names st field (param_ref name) h =
    skip _ (resolve_column table field) _
      λ _. skip _ (quoted_col table field) _ λ col. put-IsSchemaOf name h
insert_slot-IsSchemaOf table names st field (const l) h =
    skip _ (resolve_column table field) _ λ _. skip _ (quoted_col table field) _ λ col. h

update_slot-IsSchemaOf :
    (table : Text) (names : List Text) (st : Slots) (field : Text) (v : Rhs)
    → IsSchemaOf names st.schema
    → Ensures
        (λ (st' : Slots). IsSchemaOf (add_param names v) st'.schema)
        (update_slot table st field v)
unfolding update_slot add_param
update_slot-IsSchemaOf table names st field (param_ref name) h =
    skip _ (resolve_column table field) _
      λ _. skip _ (quoted_col table field) _ λ col. put-IsSchemaOf name h
update_slot-IsSchemaOf table names st field (const l) h =
    skip _ (resolve_column table field) _ λ _. skip _ (quoted_col table field) _ λ col. h

abbrev Records : List Text → Outcome Error Lowered → Type 0
Records names = Ensures (λ (l : Lowered). IsSchemaOf names l.1)

where_rhs-Records :
    (e : Error) (table : Text) (idx : ℕ) (names : List Text) (schema : Schema) (column : Text)
    (r : Rhs)
    → IsSchemaOf names schema
    → Records (add_param names r) (where_rhs e table idx schema column r)
unfolding where_rhs
where_rhs-Records e table idx names schema column (const l) h = tt
where_rhs-Records e table idx names schema column (param_ref name) h =
    skip _ (quoted_col table column) _ λ col. put-IsSchemaOf name h

lower_where-Records :
    (e : Error) (table : Text) (idx : ℕ) (names : List Text) (schema : Schema)
    (w : Option Predicate)
    → IsSchemaOf names schema
    → Records (add_where names w) (lower_where e table idx schema w)
unfolding lower_where add_where
lower_where-Records e table idx names schema none h = h
lower_where-Records e table idx names schema (some p) h =
    where_rhs-Records e table idx names schema p.column p.rhs h

empty-IsSchemaOf : IsSchemaOf [] []
empty-IsSchemaOf = record { keys_are = refl; typed = tt }

lower_stmt-Records : (s : Stmt) → Records (collect_params s) (lower_stmt s)
unfolding lower_stmt collect_params lower_read lower_insert lower_update lower_delete
lower_stmt-Records (read s) = skip _ (quoted_table s.table.raw) _ λ _.
    skip _ (lower_columns s.table.raw (truthy s.columns)) _ λ _.
      Ensures-bind (λ (l : Lowered). IsSchemaOf (add_where [] s.where_clause) l.1) _
        (lower_where _ s.table.raw 1 [] s.where_clause) _
        (lower_where-Records _ s.table.raw 1 [] [] s.where_clause empty-IsSchemaOf)
        λ l h. skip _ (lower_order s.table.raw (truthy s.order_column) s.order_desc) _ λ _. h
lower_stmt-Records (insert s) = skip _ (quoted_table s.table.raw) _ λ _.
    Ensures-bind (λ (st : Slots). IsSchemaOf (add_bindings [] s.bindings) st.schema) _
      (slots_loop (insert_slot s.table.raw) no_slots s.bindings) _
      (slots_loop-IsSchemaOf (insert_slot s.table.raw) (insert_slot-IsSchemaOf s.table.raw) []
        no_slots s.bindings empty-IsSchemaOf)
      λ st h. h
lower_stmt-Records (update s) =
    let names = add_bindings [] s.bindings in
    skip _ (quoted_table s.table.raw) _ λ _.
      Ensures-bind (λ (st : Slots). IsSchemaOf names st.schema) _
        (slots_loop (update_slot s.table.raw) no_slots s.bindings) _
        (slots_loop-IsSchemaOf (update_slot s.table.raw) (update_slot-IsSchemaOf s.table.raw) []
          no_slots s.bindings empty-IsSchemaOf)
        λ st h.
          Ensures-bind (λ (l : Lowered). IsSchemaOf (add_where names s.where_clause) l.1) _
            (lower_where _ s.table.raw (st.idx + 1) st.schema s.where_clause) _
            (lower_where-Records _ s.table.raw (st.idx + 1) names st.schema s.where_clause h)
            λ l k. skip _ (lower_returning s.table.raw (truthy s.returning)) _ λ _. k
lower_stmt-Records (delete s) = skip _ (quoted_table s.table.raw) _ λ _.
    Ensures-bind (λ (l : Lowered). IsSchemaOf (add_where [] s.where_clause) l.1) _
      (lower_where _ s.table.raw 1 [] s.where_clause) _
      (lower_where-Records _ s.table.raw 1 [] [] s.where_clause empty-IsSchemaOf) λ l h. h

-- The schema of a compiled statement has the parameters of the statement as _collect_params lists
-- them, once each and in order of appearance, each with its type of _PARAM_TYPES or "text".
pub lower_stmt-IsSchemaOf :
    (s : Stmt) {l : Lowered} → lower_stmt s ≡ ok l → IsSchemaOf (collect_params s) l.1
lower_stmt-IsSchemaOf s =
    of_Ensures (λ (l : Lowered). IsSchemaOf (collect_params s) l.1) (lower_stmt s)
      (lower_stmt-Records s)
