-- ===== src/Liq/Compiler/Alphabet/Statements.antt =====
-- The SQL of each statement is SQL text, and so is that of a compiled source.
use lidb.Base.{◌+◌, ◌≡◌, refl, [], ok, all-append, to_Ensures, Ensures, Ensures-bind, of_Ensures}
use lidb.Str.{Text, codes}
use lidb.Liq.Syntax.{
  ReadStmt, InsertStmt, UpdateStmt, DeleteStmt, Stmt, read, insert, update, delete,
}
use lidb.Liq.Parser.{parse}
use lidb.Liq.Compiler.{
  CompileResult, compile, quoted_table, truthy, lower_columns, lower_where, lower_order, lower_read,
  insert_value, insert_slot, update_value, update_slot, slots_loop, no_slots, lower_insert,
  lower_returning, lower_update, lower_delete, lower_stmt,
}
use lidb.Liq.Compiler.Alphabet.{is_sql_char, IsSqlText, join-IsSqlText, quoted_table-TextOk}
use lidb.Liq.Compiler.Alphabet.Clauses.{
  HasSqlText, LoweredOk, lower_columns-TextOk, lower_returning-TextOk, lower_where-LoweredOk,
  lower_order-TextOk, lower_limit-IsSqlText,
}
use lidb.Liq.Compiler.Alphabet.Loops.{
  SlotsText, insert_value-SlotsText, update_value-SlotsText, resolved_slot, slots_loop-SlotsText,
}

lower_read-LoweredOk : (s : ReadStmt) → LoweredOk (lower_read s)
unfolding lower_read is_sql_char
lower_read-LoweredOk s =
    Ensures-bind IsSqlText HasSqlText (quoted_table s.table.raw) _ (quoted_table-TextOk s.table.raw)
      λ qtable t.
        Ensures-bind IsSqlText HasSqlText (lower_columns s.table.raw (truthy s.columns)) _
          (lower_columns-TextOk s.table.raw (truthy s.columns))
          λ cols c.
            Ensures-bind HasSqlText HasSqlText (lower_where _ s.table.raw 1 [] s.where_clause) _
              (lower_where-LoweredOk _ s.table.raw 1 [] s.where_clause)
              λ l w.
                Ensures-bind IsSqlText HasSqlText
                  (lower_order s.table.raw (truthy s.order_column) s.order_desc) _
                  (lower_order-TextOk s.table.raw (truthy s.order_column) s.order_desc)
                  λ order o. simp (all-append, t, c, w, o, lower_limit-IsSqlText s.limit)

lower_delete-LoweredOk : (s : DeleteStmt) → LoweredOk (lower_delete s)
unfolding lower_delete is_sql_char
lower_delete-LoweredOk s =
    Ensures-bind IsSqlText HasSqlText (quoted_table s.table.raw) _ (quoted_table-TextOk s.table.raw)
      λ qtable t.
        Ensures-bind HasSqlText HasSqlText (lower_where _ s.table.raw 1 [] s.where_clause) _
          (lower_where-LoweredOk _ s.table.raw 1 [] s.where_clause) λ l w. simp (all-append, t, w)

lower_insert-LoweredOk : (s : InsertStmt) → LoweredOk (lower_insert s)
unfolding lower_insert insert_slot is_sql_char
lower_insert-LoweredOk s =
    Ensures-bind IsSqlText HasSqlText (quoted_table s.table.raw) _ (quoted_table-TextOk s.table.raw)
      λ qtable t.
        Ensures-bind SlotsText HasSqlText (slots_loop (insert_slot s.table.raw) no_slots s.bindings)
          _
          (slots_loop-SlotsText (insert_slot s.table.raw)
            (λ st field v h.
              resolved_slot s.table.raw field (λ col. insert_value st col v)
                (λ col c. insert_value-SlotsText st col v c h))
            no_slots s.bindings (record { fields = refl; placeholders = refl }))
          λ st h. simp (
            all-append,
            t,
            join-IsSqlText (codes ", ") st.fields refl h.fields,
            join-IsSqlText (codes ", ") st.placeholders refl h.placeholders,
          )

lower_update-LoweredOk : (s : UpdateStmt) → LoweredOk (lower_update s)
unfolding lower_update update_slot is_sql_char
lower_update-LoweredOk s =
    Ensures-bind IsSqlText HasSqlText (quoted_table s.table.raw) _ (quoted_table-TextOk s.table.raw)
      λ qtable t.
        Ensures-bind SlotsText HasSqlText (slots_loop (update_slot s.table.raw) no_slots s.bindings)
          _
          (slots_loop-SlotsText (update_slot s.table.raw)
            (λ st field v h.
              resolved_slot s.table.raw field (λ col. update_value st col v)
                (λ col c. update_value-SlotsText st col v c h))
            no_slots s.bindings (record { fields = refl; placeholders = refl }))
          λ st h.
            Ensures-bind HasSqlText HasSqlText
              (lower_where _ s.table.raw (st.idx + 1) st.schema s.where_clause) _
              (lower_where-LoweredOk _ s.table.raw (st.idx + 1) st.schema s.where_clause)
              λ l w.
                Ensures-bind IsSqlText HasSqlText (lower_returning s.table.raw (truthy s.returning))
                  _ (lower_returning-TextOk s.table.raw (truthy s.returning))
                  λ ret r.
                    simp (all-append, t, join-IsSqlText (codes ", ") st.fields refl h.fields, w, r)

lower_stmt-LoweredOk : (s : Stmt) → LoweredOk (lower_stmt s)
unfolding lower_stmt
lower_stmt-LoweredOk (read s) = lower_read-LoweredOk s
lower_stmt-LoweredOk (insert s) = lower_insert-LoweredOk s
lower_stmt-LoweredOk (update s) = lower_update-LoweredOk s
lower_stmt-LoweredOk (delete s) = lower_delete-LoweredOk s

-- Whatever the source, the SQL that it compiles to has only letters, digits, underscores, dots, spaces,
-- double quotes, parentheses and the marks , = $ % *: no single quote, semicolon, dash or slash, so
-- nothing in the source can open a string, end the statement or begin a comment.
pub compile-IsSqlText :
    (sha256_hex : Text → Text) (source : Text) {r : CompileResult}
    → compile sha256_hex source ≡ ok r
    → IsSqlText r.sql
compile-IsSqlText sha256_hex source =
    of_Ensures (λ (r : CompileResult). IsSqlText r.sql) (compile sha256_hex source) compiled
  where
    compiled : Ensures (λ (r : CompileResult). IsSqlText r.sql) (compile sha256_hex source)
    compiled =
        unfold compile in
        Ensures-bind (λ (_ : Stmt). Unit {0}) (λ (r : CompileResult). IsSqlText r.sql)
          (parse source) _ (to_Ensures (λ _. Unit) (parse source) (λ _ _. tt))
          λ s _.
            Ensures-bind HasSqlText (λ (r : CompileResult). IsSqlText r.sql) (lower_stmt s) _
              (lower_stmt-LoweredOk s) λ l h. h
