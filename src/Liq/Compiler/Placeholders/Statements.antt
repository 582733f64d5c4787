-- ===== src/Liq/Compiler/Placeholders/Statements.antt =====
-- The placeholders of each statement.
use lidb.Base.{
  ℕ, ◌+◌, ◌≡◌, refl, [], ◌∷◌, ◌++◌, Outcome, ok, ◌>>=◌, arith, Ensures, Ensures-bind, Ensures-mono,
  of_Ensures, to_Ensures, subst,
}
use lidb.Str.{Text, codes, decimal}
use lidb.Errors.{Error}
use lidb.Liorm.Catalog.{resolve_column}
use lidb.Liq.Syntax.{
  Rhs, param_ref, const, Bindings, ReadStmt, InsertStmt, UpdateStmt, DeleteStmt, Stmt, read, insert,
  update, delete,
}
use lidb.Liq.Compiler.{
  Lowered, Slots, quoted_table, quoted_col, truthy, lower_columns, lower_where, lower_order,
  lower_read, insert_value, insert_slot, update_value, update_slot, slots_loop, no_slots,
  lower_insert, lower_returning, lower_update, lower_delete, lower_stmt,
}
use lidb.Liq.Compiler.Placeholders.{
  dollars, total, dollars-append, total-snoc, dollars-join, dollars-decimal, CountsSql,
  quoted_table-Counts, quoted_col-Counts, lower_columns-Counts, lower_returning-Counts,
  lower_order-Counts, lower_limit-dollars, lower_where-CountsSql, rhs_uses, where_uses,
  binding_uses, uses,
}

-- An insert counts in its placeholders, an update in its assignments.
record InsertCount (n : ℕ) (st : Slots) : Type 0 where
  fields : total st.fields ≡ 0
  placeholders : total st.placeholders ≡ n

abbrev UpdateCount : ℕ → Slots → Type 0
UpdateCount n st = total st.fields ≡ n

insert_value-InsertCount :
    (n : ℕ) (st : Slots) (col : Text) (v : Rhs)
    → dollars col ≡ 0
    → InsertCount n st
    → InsertCount (n + rhs_uses v) (insert_value st col v)
unfolding insert_value
insert_value-InsertCount n st col (param_ref name) h c = record {
  fields = omega (arith, total-snoc st.fields col, h, c.fields);
  placeholders = omega (
    arith,
    total-snoc st.placeholders (b'$' ∷ decimal (st.idx + 1)),
    dollars-decimal (st.idx + 1),
    c.placeholders,
  );
}
insert_value-InsertCount n st col (const l) h c = record {
  fields = omega (arith, total-snoc st.fields col, h, c.fields);
  placeholders = omega (arith, total-snoc st.placeholders (codes "%s"), c.placeholders);
}

update_value-UpdateCount :
    (n : ℕ) (st : Slots) (col : Text) (v : Rhs)
    → dollars col ≡ 0
    → UpdateCount n st
    → UpdateCount (n + rhs_uses v) (update_value st col v)
unfolding update_value
update_value-UpdateCount n st col (param_ref name) h c = omega (
  arith,
  total-snoc st.fields (col ++ codes " = $" ++ decimal (st.idx + 1)),
  dollars-append (col ++ codes " = $") (decimal (st.idx + 1)),
  dollars-append col (codes " = $"),
  dollars-decimal (st.idx + 1),
  h,
  c,
)
update_value-UpdateCount n st col (const l) h c =
    omega
      (arith, total-snoc st.fields (col ++ codes " = %s"), dollars-append col (codes " = %s"), h, c)

-- The two resolutions of a binding's column, and what it adds.
counted_slot :
    (Keeps : Slots → Type 0) (table field : Text) (f : Text → Slots)
    → ((col : Text) → dollars col ≡ 0 → Keeps (f col))
    → Ensures Keeps
        (resolve_column table field >>= λ _. quoted_col table field >>= λ col. ok (f col))
counted_slot Keeps table field f h =
    Ensures-bind (λ _. Unit) Keeps (resolve_column table field) _
      (to_Ensures (λ _. Unit) (resolve_column table field) (λ _ _. tt))
      λ _ _.
        Ensures-bind (λ t. dollars t ≡ 0) Keeps (quoted_col table field) _
          (quoted_col-Counts table field) λ col c. h col c

module _ (Keeps : ℕ → Slots → Type 0) (body : Slots → Text → Rhs → Outcome Error Slots)
    (one : (n : ℕ) (st : Slots) (field : Text) (v : Rhs)
      → Keeps n st
      → Ensures (Keeps (n + rhs_uses v)) (body st field v)) where
  slots_loop-Keeps :
      (n : ℕ) (st : Slots) (bs : Bindings)
      → Keeps n st
      → Ensures (Keeps (n + binding_uses bs)) (slots_loop body st bs)
  unfolding slots_loop
  slots_loop-Keeps n st [] h = subst (λ (k : ℕ). Keeps k st) zero_more h
    where
      zero_more : n ≡ n + 0
      zero_more = omega arith
  slots_loop-Keeps n st ((field, v) ∷ bs) h =
      Ensures-bind (Keeps (n + rhs_uses v)) (Keeps (n + (rhs_uses v + binding_uses bs)))
        (body st field v) _ (one n st field v h)
        λ st' h'.
          Ensures-mono (Keeps (n + rhs_uses v + binding_uses bs))
            (Keeps (n + (rhs_uses v + binding_uses bs))) (slots_loop body st' bs)
            (λ st2 k. subst (λ (m : ℕ). Keeps m st2) (sum (rhs_uses v) (binding_uses bs)) k)
            (slots_loop-Keeps (n + rhs_uses v) st' bs h')
    where
      sum : (a b : ℕ) → n + a + b ≡ n + (a + b)
      sum a b = omega arith

lower_read-CountsSql : (s : ReadStmt) → CountsSql (uses (read s)) (lower_read s)
unfolding lower_read
lower_read-CountsSql s =
    Ensures-bind (λ t. dollars t ≡ 0) _ (quoted_table s.table.raw) _
      (quoted_table-Counts s.table.raw)
      λ qtable t.
        Ensures-bind (λ t. dollars t ≡ 0) _ (lower_columns s.table.raw (truthy s.columns)) _
          (lower_columns-Counts s.table.raw (truthy s.columns))
          λ cols c.
            Ensures-bind (λ (l : Lowered). dollars l.0 ≡ where_uses s.where_clause) _
              (lower_where _ s.table.raw 1 [] s.where_clause) _
              (lower_where-CountsSql _ s.table.raw 1 [] s.where_clause)
              λ l w.
                Ensures-bind (λ t. dollars t ≡ 0) _
                  (lower_order s.table.raw (truthy s.order_column) s.order_desc) _
                  (lower_order-Counts s.table.raw (truthy s.order_column) s.order_desc)
                  λ order o.
                    simp (dollars-append, t, c, w, o, lower_limit-dollars s.limit) (omega arith)

lower_delete-CountsSql : (s : DeleteStmt) → CountsSql (uses (delete s)) (lower_delete s)
unfolding lower_delete
lower_delete-CountsSql s =
    Ensures-bind (λ t. dollars t ≡ 0) _ (quoted_table s.table.raw) _
      (quoted_table-Counts s.table.raw)
      λ qtable t.
        Ensures-bind (λ (l : Lowered). dollars l.0 ≡ where_uses s.where_clause) _
          (lower_where _ s.table.raw 1 [] s.where_clause) _
          (lower_where-CountsSql _ s.table.raw 1 [] s.where_clause)
          λ l w. simp (dollars-append, t, w) (omega arith)

lower_insert-CountsSql : (s : InsertStmt) → CountsSql (uses (insert s)) (lower_insert s)
unfolding lower_insert insert_slot
lower_insert-CountsSql s =
    Ensures-bind (λ t. dollars t ≡ 0) _ (quoted_table s.table.raw) _
      (quoted_table-Counts s.table.raw)
      λ qtable t.
        Ensures-bind (InsertCount (0 + binding_uses s.bindings)) _
          (slots_loop (insert_slot s.table.raw) no_slots s.bindings) _
          (slots_loop-Keeps InsertCount (insert_slot s.table.raw)
            (λ n st field v c.
              counted_slot (InsertCount (n + rhs_uses v)) s.table.raw field
                (λ col. insert_value st col v) (λ col h. insert_value-InsertCount n st col v h c))
            0 no_slots s.bindings (record { fields = refl; placeholders = refl }))
          λ st c.
            simp
              (
                dollars-append,
                t,
                dollars-join st.fields,
                dollars-join st.placeholders,
                c.fields,
                c.placeholders,
              )
              (omega arith)

lower_update-CountsSql : (s : UpdateStmt) → CountsSql (uses (update s)) (lower_update s)
unfolding lower_update update_slot
lower_update-CountsSql s =
    Ensures-bind (λ t. dollars t ≡ 0) _ (quoted_table s.table.raw) _
      (quoted_table-Counts s.table.raw)
      λ qtable t.
        Ensures-bind (UpdateCount (0 + binding_uses s.bindings)) _
          (slots_loop (update_slot s.table.raw) no_slots s.bindings) _
          (slots_loop-Keeps UpdateCount (update_slot s.table.raw)
            (λ n st field v c.
              counted_slot (UpdateCount (n + rhs_uses v)) s.table.raw field
                (λ col. update_value st col v) (λ col h. update_value-UpdateCount n st col v h c))
            0 no_slots s.bindings refl)
          λ st c.
            Ensures-bind (λ (l : Lowered). dollars l.0 ≡ where_uses s.where_clause) _
              (lower_where _ s.table.raw (st.idx + 1) st.schema s.where_clause) _
              (lower_where-CountsSql _ s.table.raw (st.idx + 1) st.schema s.where_clause)
              λ l w.
                Ensures-bind (λ t. dollars t ≡ 0) _
                  (lower_returning s.table.raw (truthy s.returning)) _
                  (lower_returning-Counts s.table.raw (truthy s.returning))
                  λ ret r. simp (dollars-append, t, dollars-join st.fields, c, w, r) (omega arith)

lower_stmt-CountsSql : (s : Stmt) → CountsSql (uses s) (lower_stmt s)
unfolding lower_stmt
lower_stmt-CountsSql (read s) = lower_read-CountsSql s
lower_stmt-CountsSql (insert s) = lower_insert-CountsSql s
lower_stmt-CountsSql (update s) = lower_update-CountsSql s
lower_stmt-CountsSql (delete s) = lower_delete-CountsSql s

-- The SQL of a lowered statement has one placeholder sign $ for every use of a parameter in it.
pub lower_stmt-dollars : (s : Stmt) {l : Lowered} → lower_stmt s ≡ ok l → dollars l.0 ≡ uses s
lower_stmt-dollars s =
    of_Ensures (λ (l : Lowered). dollars l.0 ≡ uses s) (lower_stmt s) (lower_stmt-CountsSql s)
