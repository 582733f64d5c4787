-- ===== src/Liq/Compiler/Alphabet/Clauses.antt =====
-- The SQL of the clauses of a statement is SQL text.
use lidb.Base.{
  ℕ, refl, Bool, true, false, List, [], ◌∷◌, Option, none, some, Outcome, traverse, arith,
  all-append, Ensures, Ensures-bind, Ensures-mono,
}
use lidb.Str.{Text, codes, join}
use lidb.Errors.{Error}
use lidb.Liq.Syntax.{Rhs, param_ref, const, Predicate}
use lidb.Liq.Compiler.{
  Lowered, Schema, quoted_col, lower_columns, where_rhs, lower_where, lower_order, lower_limit,
  lower_returning,
}
use lidb.Liq.Compiler.Alphabet.{
  is_sql_char, IsSqlText, AllSql, TextOk, join-IsSqlText, decimal-IsSqlText, quoted_col-TextOk,
}

pub traverse-AllSql :
    (f : Text → Outcome Error Text) (cs : List Text)
    → ((c : Text) → TextOk (f c))
    → Ensures AllSql (traverse f cs)
traverse-AllSql f [] h = refl
traverse-AllSql f (c ∷ cs) h = Ensures-bind IsSqlText AllSql (f c) _ (h c) λ t text.
    Ensures-bind AllSql AllSql (traverse f cs) _ (traverse-AllSql f cs h) λ ts texts. ground arith

-- The columns of a projection or of a returning clause, joined.
pub columns_text :
    (table : Text) (cs : List Text)
    → Ensures (λ ts. IsSqlText (join (codes ", ") ts)) (traverse (quoted_col table) cs)
columns_text table cs =
    Ensures-mono AllSql (λ ts. IsSqlText (join (codes ", ") ts)) (traverse (quoted_col table) cs)
      (λ ts texts. join-IsSqlText (codes ", ") ts comma texts)
      (traverse-AllSql (quoted_col table) cs (quoted_col-TextOk table))
  where
    comma : IsSqlText (codes ", ")
    comma = unfold is_sql_char in refl

pub lower_columns-TextOk : (table : Text) (cs : List Text) → TextOk (lower_columns table cs)
unfolding lower_columns is_sql_char
lower_columns-TextOk table [] = refl
lower_columns-TextOk table (c ∷ cs) =
    Ensures-bind (λ ts. IsSqlText (join (codes ", ") ts)) IsSqlText
      (traverse (quoted_col table) (c ∷ cs)) _ (columns_text table (c ∷ cs)) λ ts text. text

pub lower_returning-TextOk : (table : Text) (cs : List Text) → TextOk (lower_returning table cs)
unfolding lower_returning is_sql_char
lower_returning-TextOk table [] = refl
lower_returning-TextOk table (c ∷ cs) =
    Ensures-bind (λ ts. IsSqlText (join (codes ", ") ts)) IsSqlText
      (traverse (quoted_col table) (c ∷ cs)) _ (columns_text table (c ∷ cs)) λ ts text. text

abbrev pub HasSqlText : Lowered → Type 0
HasSqlText l = IsSqlText l.0

abbrev pub LoweredOk : Outcome Error Lowered → Type 0
LoweredOk = Ensures HasSqlText

pub where_rhs-LoweredOk :
    (e : Error) (table : Text) (idx : ℕ) (schema : Schema) (column : Text) (r : Rhs)
    → LoweredOk (where_rhs e table idx schema column r)
unfolding where_rhs is_sql_char
where_rhs-LoweredOk e table idx schema column (const l) = tt
where_rhs-LoweredOk e table idx schema column (param_ref name) =
    Ensures-bind IsSqlText HasSqlText (quoted_col table column) _ (quoted_col-TextOk table column)
      λ col text. simp (all-append, text, decimal-IsSqlText idx)

pub lower_where-LoweredOk :
    (e : Error) (table : Text) (idx : ℕ) (schema : Schema) (w : Option Predicate)
    → LoweredOk (lower_where e table idx schema w)
unfolding lower_where is_sql_char
lower_where-LoweredOk e table idx schema none = refl
lower_where-LoweredOk e table idx schema (some p) =
    where_rhs-LoweredOk e table idx schema p.column p.rhs

pub lower_order-TextOk : (table c : Text) (desc : Bool) → TextOk (lower_order table c desc)
unfolding lower_order is_sql_char
lower_order-TextOk table [] desc = refl
lower_order-TextOk table (c ∷ cs) true =
    Ensures-bind IsSqlText IsSqlText (quoted_col table (c ∷ cs)) _
      (quoted_col-TextOk table (c ∷ cs)) λ col text. simp (all-append, text)
lower_order-TextOk table (c ∷ cs) false =
    Ensures-bind IsSqlText IsSqlText (quoted_col table (c ∷ cs)) _
      (quoted_col-TextOk table (c ∷ cs)) λ col text. simp (all-append, text)

pub lower_limit-IsSqlText : (n : Option ℕ) → IsSqlText (lower_limit n)
unfolding lower_limit is_sql_char
lower_limit-IsSqlText none = refl
lower_limit-IsSqlText (some n) = decimal-IsSqlText n
