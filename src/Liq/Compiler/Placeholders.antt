-- ===== src/Liq/Compiler/Placeholders.antt =====
-- How many placeholders the compiled SQL has, and how many keys its schema.
pub mod Statements
pub mod Keys
use lidb.Base.{
  ℕ, suc, ◌+◌, ◌<◌, ◌≡◌, refl, sym, ap, ◌∙◌, Bool, true, false, not, ◌||◌, ◌&&◌, List, [], ◌∷◌,
  ◌++◌, Option, none, some, nat_eq, leb, all, all-append, arith, Outcome, ok, err, ◌>>=◌, ◌>>◌,
  traverse, Ensures, Ensures-bind, Ensures-eq, Ensures-mono, of_Ensures, to_Ensures, if◌then◌else◌,
}
use lidb.Str.{Text, codes, join, decimal, decimal-all}
use lidb.Errors.{Error}
use lidb.Liorm.Catalog.{resolve_table, resolve_column}
use lidb.Liorm.Catalog.Safety.{is_plain, IsPlain, resolve_table-IsPlain, resolve_column-IsPlain}
use lidb.Liq.Syntax.{
  Rhs, param_ref, const, Predicate, Bindings, ReadStmt, InsertStmt, UpdateStmt, DeleteStmt, Stmt,
  read, insert, update, delete,
}
use lidb.Liq.Compiler.{
  Lowered, Schema, Slots, quote, quoted_table, quoted_col, truthy, lower_columns, where_rhs,
  lower_where, lower_order, lower_limit, lower_read, insert_value, insert_slot, update_value,
  update_slot, slots_loop, no_slots, lower_insert, lower_returning, lower_update, lower_delete,
  lower_stmt,
}

-- How often a parameter is used.
abbrev pub rhs_uses : Rhs → ℕ
rhs_uses (param_ref name) = 1
rhs_uses (const l) = 0

abbrev pub where_uses : Option Predicate → ℕ
where_uses none = 0
where_uses (some p) = rhs_uses p.rhs

abbrev pub binding_uses : Bindings → ℕ
binding_uses [] = 0
binding_uses ((field, v) ∷ bs) = rhs_uses v + binding_uses bs

abbrev pub uses : Stmt → ℕ
uses (read s) = where_uses s.where_clause
uses (insert s) = binding_uses s.bindings
uses (update s) = binding_uses s.bindings + where_uses s.where_clause
uses (delete s) = where_uses s.where_clause

-- The dollar signs of a text, and those of a list of texts.
abbrev pub dollars : Text → ℕ
dollars [] = 0
dollars (c ∷ s) = let rest = dollars s in if nat_eq c b'$' then suc rest else rest

abbrev pub total : List Text → ℕ
total [] = 0
total (t ∷ ts) = dollars t + total ts

pub dollars-append : (s t : Text) → dollars (s ++ t) ≡ dollars s + dollars t
dollars-append [] t = omega arith
dollars-append (c ∷ s) t = ground (arith, dollars-append s t)

pub total-snoc : (ts : List Text) (t : Text) → total (ts ++ t ∷ []) ≡ total ts + dollars t
total-snoc [] t = omega arith
total-snoc (u ∷ ts) t = omega (arith, total-snoc ts t)

pub dollars-join : (ts : List Text) → dollars (join (codes ", ") ts) ≡ total ts
unfolding join
dollars-join [] = refl
dollars-join (t ∷ []) = omega arith
dollars-join (t ∷ u ∷ ts) =
    dollars-append (t ++ codes ", ") (join (codes ", ") (u ∷ ts))
    ∙ omega (arith, dollars-append t (codes ", "), dollars-join (u ∷ ts))

dollars_none : (s : Text) → all (λ c. not (nat_eq c b'$')) s ≡ true → dollars s ≡ 0
dollars_none [] h = refl
dollars_none (c ∷ s) h = ground (arith, dollars_none s)

dollars-IsPlain : (s : Text) → IsPlain s → dollars s ≡ 0
unfolding is_plain
dollars-IsPlain [] h = refl
dollars-IsPlain (c ∷ s) h = ground (arith, dollars-IsPlain s)

pub dollars-decimal : (n : ℕ) → dollars (decimal n) ≡ 0
dollars-decimal n = dollars_none (decimal n) (decimal-all (λ c. not (nat_eq c b'$')) digit n)
  where
    digit : (d : ℕ) → d < 10 → not (nat_eq (d + 48) b'$') ≡ true
    digit d h = ground arith

-- A text with `n` dollar signs, where there is one.
abbrev pub Counts : ℕ → Outcome Error Text → Type 0
Counts n = Ensures (λ t. dollars t ≡ n)

pub quoted_table-Counts : (table : Text) → Counts 0 (quoted_table table)
unfolding quoted_table
quoted_table-Counts table =
    Ensures-bind (λ t. resolve_table table ≡ ok t) (λ t. dollars t ≡ 0) (resolve_table table) _
      (Ensures-eq (resolve_table table))
      λ t resolved.
        let plain = resolve_table-IsPlain table resolved in
        simp (dollars-append, dollars-IsPlain t.0 plain.0, dollars-IsPlain t.1 plain.1)

pub quoted_col-Counts : (table c : Text) → Counts 0 (quoted_col table c)
unfolding quoted_col
quoted_col-Counts table c =
    Ensures-bind (λ r. resolve_column table c ≡ ok r) (λ t. dollars t ≡ 0) (resolve_column table c)
      _ (Ensures-eq (resolve_column table c))
      λ r resolved.
        let plain = resolve_column-IsPlain table c resolved in
        simp (
          dollars-append,
          dollars-IsPlain r.0 plain.0,
          dollars-IsPlain r.1 plain.1,
          dollars-IsPlain r.2 plain.2,
        )

traverse-Counts :
    (table : Text) (cs : List Text) → Ensures (λ ts. total ts ≡ 0) (traverse (quoted_col table) cs)
traverse-Counts table [] = refl
traverse-Counts table (c ∷ cs) =
    Ensures-bind (λ t. dollars t ≡ 0) (λ ts. total ts ≡ 0) (quoted_col table c) _
      (quoted_col-Counts table c)
      λ t none_in.
        Ensures-bind (λ ts. total ts ≡ 0) (λ ts. total ts ≡ 0) (traverse (quoted_col table) cs) _
          (traverse-Counts table cs) λ ts none_left. omega (arith, none_in, none_left)

columns-Counts :
    (table : Text) (cs : List Text)
    → Ensures (λ ts. dollars (join (codes ", ") ts) ≡ 0) (traverse (quoted_col table) cs)
columns-Counts table cs =
    Ensures-mono (λ ts. total ts ≡ 0) (λ ts. dollars (join (codes ", ") ts) ≡ 0)
      (traverse (quoted_col table) cs) (λ ts h. dollars-join ts ∙ h) (traverse-Counts table cs)

pub lower_columns-Counts : (table : Text) (cs : List Text) → Counts 0 (lower_columns table cs)
unfolding lower_columns
lower_columns-Counts table [] = refl
lower_columns-Counts table (c ∷ cs) =
    Ensures-bind (λ ts. dollars (join (codes ", ") ts) ≡ 0) (λ t. dollars t ≡ 0)
      (traverse (quoted_col table) (c ∷ cs)) _ (columns-Counts table (c ∷ cs)) λ ts h. h

pub lower_returning-Counts : (table : Text) (cs : List Text) → Counts 0 (lower_returning table cs)
unfolding lower_returning
lower_returning-Counts table [] = refl
lower_returning-Counts table (c ∷ cs) =
    Ensures-bind (λ ts. dollars (join (codes ", ") ts) ≡ 0) (λ t. dollars t ≡ 0)
      (traverse (quoted_col table) (c ∷ cs)) _ (columns-Counts table (c ∷ cs)) λ ts h. h

pub lower_order-Counts : (table c : Text) (desc : Bool) → Counts 0 (lower_order table c desc)
unfolding lower_order
lower_order-Counts table [] desc = refl
lower_order-Counts table (c ∷ cs) true =
    Ensures-bind (λ t. dollars t ≡ 0) (λ t. dollars t ≡ 0) (quoted_col table (c ∷ cs)) _
      (quoted_col-Counts table (c ∷ cs)) λ col h. simp (dollars-append, h)
lower_order-Counts table (c ∷ cs) false =
    Ensures-bind (λ t. dollars t ≡ 0) (λ t. dollars t ≡ 0) (quoted_col table (c ∷ cs)) _
      (quoted_col-Counts table (c ∷ cs)) λ col h. simp (dollars-append, h)

pub lower_limit-dollars : (n : Option ℕ) → dollars (lower_limit n) ≡ 0
unfolding lower_limit
lower_limit-dollars none = refl
lower_limit-dollars (some n) = dollars-decimal n

abbrev pub CountsSql : ℕ → Outcome Error Lowered → Type 0
CountsSql n = Ensures (λ (l : Lowered). dollars l.0 ≡ n)

where_rhs-CountsSql :
    (e : Error) (table : Text) (idx : ℕ) (schema : Schema) (c : Text) (r : Rhs)
    → CountsSql (rhs_uses r) (where_rhs e table idx schema c r)
unfolding where_rhs
where_rhs-CountsSql e table idx schema c (const l) = tt
where_rhs-CountsSql e table idx schema c (param_ref name) =
    Ensures-bind (λ t. dollars t ≡ 0) (λ (l : Lowered). dollars l.0 ≡ 1) (quoted_col table c) _
      (quoted_col-Counts table c) λ col h. simp (dollars-append, h, dollars-decimal idx)

pub lower_where-CountsSql :
    (e : Error) (table : Text) (idx : ℕ) (schema : Schema) (w : Option Predicate)
    → CountsSql (where_uses w) (lower_where e table idx schema w)
unfolding lower_where
lower_where-CountsSql e table idx schema none = refl
lower_where-CountsSql e table idx schema (some p) =
    where_rhs-CountsSql e table idx schema p.column p.rhs
