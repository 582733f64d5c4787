-- ===== src/Liq/Compiler/Alphabet.antt =====
-- The characters of compiled SQL: whatever the source, there are letters, digits, the underscore and
-- ten marks, and no single quote, semicolon, dash, slash or backslash.
pub mod Clauses
pub mod Loops
pub mod Statements
use lidb.Base.{
  ℕ, ◌+◌, ◌<◌, ◌≡◌, ◌≢◌, ◌⊎◌, inl, inr, refl, sym, ap, ◌∙◌, Bool, true, false, ◌&&◌, ◌||◌, List, [],
  ◌∷◌, ◌++◌, Option, none, some, Outcome, ok, err, ◌>>=◌, ◌>>◌, traverse, arith, all, all-append,
  leb, nat_eq, Bool-cases, bind-eq-ok, Ensures, Ensures-bind, Ensures-eq, if◌then◌else◌,
}
use lidb.Str.{Text, codes, join, decimal, decimal-all}
use lidb.Errors.{Error}
use lidb.Liorm.Catalog.{resolve_table, resolve_column}
use lidb.Liorm.Catalog.Safety.{is_plain, IsPlain, resolve_table-IsPlain, resolve_column-IsPlain}
use lidb.Liq.Syntax.{
  Rhs, param_ref, const, Predicate, Bindings, ReadStmt, InsertStmt, UpdateStmt, DeleteStmt, Stmt,
  read, insert, update, delete,
}
use lidb.Liq.Compiler.{
  Lowered, Slots, quote, quoted_table, quoted_col, truthy, lower_columns, lower_where, lower_order,
  lower_limit, lower_read, insert_slot, update_slot, slots_loop, no_slots, lower_insert,
  lower_returning, lower_update, lower_delete, lower_stmt,
}

pub is_sql_char : ℕ → Bool
unfolding is_plain
is_sql_char c =
    is_plain c
    || leb b'A' c && leb c b'Z'
    || nat_eq c b' '
    || nat_eq c b'"'
    || nat_eq c b'('
    || nat_eq c b')'
    || nat_eq c b','
    || nat_eq c b'='
    || nat_eq c b'$'
    || nat_eq c b'%'
    || nat_eq c b'*'

abbrev pub IsSqlText : Text → Type 0
IsSqlText s = all is_sql_char s ≡ true

pub append-IsSqlText : (s t : Text) → IsSqlText s → IsSqlText t → IsSqlText (s ++ t)
append-IsSqlText s t h k = rw (all-append is_sql_char s t, h, k)

IsPlain-IsSqlText : (s : Text) → IsPlain s → IsSqlText s
unfolding is_sql_char
IsPlain-IsSqlText [] h = refl
IsPlain-IsSqlText (c ∷ s) h = ground (arith, IsPlain-IsSqlText s)

pub quote-IsSqlText : (s : Text) → IsPlain s → IsSqlText (quote s)
unfolding is_sql_char
quote-IsSqlText s h = append-IsSqlText s (b'"' ∷ []) (IsPlain-IsSqlText s h) refl

pub decimal-IsSqlText : (n : ℕ) → IsSqlText (decimal n)
decimal-IsSqlText = decimal-all is_sql_char digit
  where
    digit : (d : ℕ) → d < 10 → is_sql_char (d + 48) ≡ true
    digit d h = unfold is_sql_char in ground arith

abbrev pub AllSql : List Text → Type 0
AllSql ts = all (all is_sql_char) ts ≡ true

pub join-IsSqlText :
    (sep : Text) (ts : List Text) → IsSqlText sep → AllSql ts → IsSqlText (join sep ts)
unfolding join
join-IsSqlText sep [] h k = refl
join-IsSqlText sep (t ∷ []) h k = ground arith
join-IsSqlText sep (t ∷ u ∷ ts) h k =
    append-IsSqlText (t ++ sep) (join sep (u ∷ ts)) (append-IsSqlText t sep (ground arith) h)
      (join-IsSqlText sep (u ∷ ts) h (ground arith))

-- The text of a result is SQL text.
abbrev pub TextOk : Outcome Error Text → Type 0
TextOk = Ensures IsSqlText

pub quoted_table-TextOk : (table : Text) → TextOk (quoted_table table)
unfolding quoted_table is_sql_char
quoted_table-TextOk table =
    Ensures-bind (λ t. resolve_table table ≡ ok t) IsSqlText (resolve_table table) _
      (Ensures-eq (resolve_table table))
      λ t resolved.
        let plain = resolve_table-IsPlain table resolved in
        simp (all-append, IsPlain-IsSqlText t.0 plain.0, IsPlain-IsSqlText t.1 plain.1)

pub quoted_col-TextOk : (table column : Text) → TextOk (quoted_col table column)
unfolding quoted_col is_sql_char
quoted_col-TextOk table column =
    Ensures-bind (λ r. resolve_column table column ≡ ok r) IsSqlText (resolve_column table column) _
      (Ensures-eq (resolve_column table column))
      λ r resolved.
        let plain = resolve_column-IsPlain table column resolved in
        simp (
          all-append,
          IsPlain-IsSqlText r.0 plain.0,
          IsPlain-IsSqlText r.1 plain.1,
          IsPlain-IsSqlText r.2 plain.2,
        )
