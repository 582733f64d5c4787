-- ===== src/Liorm/Embed/Clauses.antt =====
-- What _flatten_sql makes of the where clause that the compiler writes.
use lidb.Base.{
  ℕ, ◌+◌, ◌<◌, ◌≡◌, refl, ap, ◌∙◌, Bool, true, false, not, [], ◌∷◌, ◌++◌, none, some, nat_eq,
  nat_eq_iff, is_empty, all, arith, append_assoc, ok, Ensures, Ensures-bind, Ensures-eq, of_Ensures,
  subst,
}
use lidb.Str.{Text, codes, decimal, decimal-all, decimal_value}
use lidb.Errors.{Error}
use lidb.Liq.Syntax.{param_ref}
use lidb.Liq.Compiler.{Schema, Lowered, where_rhs, quoted_col}
use lidb.Str.Numerals.{decimal-ne-nil, ascii_digit}
use lidb.Liorm.Embed.Flatten.{
  quoted_name, relation, column, after_digits, digits, placeholder, flatten_sql,
}
use lidb.Str.Regex.{sub_from, sub}
use lidb.Str.Regex.Substitution.{sub-free, sub-match}
use lidb.Liorm.Embed.Columns.{
  sub-plain, relation-plain, placeholder-plain, quoted_text, sub-quoted_text,
}
use lidb.Liorm.Embed.Names.{IsName, resolve_column-IsName}
use lidb.Liorm.Catalog.{resolve_column}
use lidb.Liorm.Catalog.Safety.{resolve_column-InCatalog}

abbrev is_decimal : ℕ → Bool
is_decimal c = elim (decimal_value c) [ none ↦ false | some _ ↦ true ]

-- The next text does not go on with a digit.
abbrev ends_digits : Text → Bool
ends_digits [] = true
ends_digits (c ∷ cs) = not (is_decimal c)

after_digits-append :
    (w t : Text) → all is_decimal w ≡ true → ends_digits t ≡ true → after_digits (w ++ t) ≡ t
unfolding after_digits
after_digits-append [] [] h k = refl
after_digits-append [] (c ∷ t) h k = ground arith
after_digits-append (c ∷ w) t h k = ground (arith, after_digits-append w t)

digits-append :
    (w t : Text)
    → is_empty w ≡ false
    → all is_decimal w ≡ true
    → ends_digits t ≡ true
    → digits (w ++ t) ≡ some (codes "?", t)
unfolding digits
digits-append [] t e h k = cc
digits-append (c ∷ w) t e h k = ground (arith, after_digits-append w t)

all-decimal : (n : ℕ) → all is_decimal (decimal n) ≡ true
all-decimal n = decimal-all is_decimal (λ d h. rw (is_decimal, ascii_digit d h) refl) n

abbrev not_quote : ℕ → Bool
not_quote c = not (nat_eq c b'"')

abbrev not_dollar : ℕ → Bool
not_dollar c = not (nat_eq c b'$')

decimal-not_quote : (n : ℕ) → all not_quote (decimal n) ≡ true
decimal-not_quote n = decimal-all not_quote digit n
  where
    digit : (d : ℕ) → d < 10 → not_quote (d + 48) ≡ true
    digit d h = ground arith

column-not_quote : (c : ℕ) (cs : Text) → not_quote c ≡ true → column (c ∷ cs) ≡ none
unfolding column relation quoted_name
column-not_quote c cs h = ground arith

relation-not_quote : (c : ℕ) (cs : Text) → not_quote c ≡ true → relation (c ∷ cs) ≡ none
unfolding relation quoted_name
relation-not_quote c cs h = ground arith

placeholder-not_dollar : (c : ℕ) (cs : Text) → not_dollar c ≡ true → placeholder (c ∷ cs) ≡ none
unfolding placeholder
placeholder-not_dollar c cs h = ground arith

-- A where clause, written from the right, and the one that the engine gets.
abbrev where_sql : Text → ℕ → Text → Text
where_sql col n t = codes " WHERE " ++ (col ++ (codes " = $" ++ (decimal n ++ t)))

module _ (a b c : Text) (n : ℕ) (h : IsName a) (k : IsName b) (l : IsName c) where
  sub-column-where :
      (t : Text) → sub column (where_sql (quoted_text a b c) n t) ≡ where_sql c n (sub column t)
  sub-column-where t =
      rw
        (
          sub-free column not_quote column-not_quote (codes " WHERE ")
              (quoted_text a b c ++ (codes " = $" ++ (decimal n ++ t))) refl,
          sub-quoted_text a b c (codes " = $" ++ (decimal n ++ t)) h k l,
          sub-free column not_quote column-not_quote (codes " = $") (decimal n ++ t) refl,
          sub-free column not_quote column-not_quote (decimal n) t (decimal-not_quote n),
        )
        refl

  sub-relation-where : (t : Text) → sub relation (where_sql c n t) ≡ where_sql c n (sub relation t)
  sub-relation-where t =
      rw
        (
          sub-free relation not_quote relation-not_quote (codes " WHERE ")
              (c ++ (codes " = $" ++ (decimal n ++ t))) refl,
          sub-plain relation relation-plain c (codes " = $" ++ (decimal n ++ t)) l.plain,
          sub-free relation not_quote relation-not_quote (codes " = $") (decimal n ++ t) refl,
          sub-free relation not_quote relation-not_quote (decimal n) t (decimal-not_quote n),
        )
        refl

  placeholder-decimal :
      (t : Text) → ends_digits t ≡ true → placeholder (b'$' ∷ decimal n ++ t) ≡ some (codes "?", t)
  unfolding placeholder
  placeholder-decimal t e = digits-append (decimal n) t (decimal-ne-nil n) (all-decimal n) e

  sub-placeholder-where :
      (t : Text)
      → ends_digits t ≡ true
      → sub placeholder (where_sql c n t)
        ≡ codes " WHERE " ++ (c ++ (codes " = ?" ++ sub placeholder t))
  sub-placeholder-where t e =
      rw
        (
          sub-free placeholder not_dollar placeholder-not_dollar (codes " WHERE ")
              (c ++ (codes " = $" ++ (decimal n ++ t))) refl,
          sub-plain placeholder placeholder-plain c (codes " = $" ++ (decimal n ++ t)) l.plain,
          sub-free placeholder not_dollar placeholder-not_dollar (codes " = ")
              (b'$' ∷ decimal n ++ t) refl,
          sub-match placeholder b'$' (decimal n) t (codes "?") (placeholder-decimal t e),
        )
        refl

-- Behind a where clause there is another clause, which begins with a space, or nothing.
abbrev pub begins_clause : Text → Bool
begins_clause [] = true
begins_clause (c ∷ cs) = nat_eq c b' '

ends_digits-begins_clause :
    (t : Text) → begins_clause t ≡ true → ends_digits (sub relation (sub column t)) ≡ true
ends_digits-begins_clause [] h = unfold sub sub_from in refl
ends_digits-begins_clause (c ∷ t) h =
    rw
      (
        sub-free column not_quote column-not_quote (c ∷ []) t (ground arith),
        sub-free relation not_quote relation-not_quote (c ∷ []) (sub column t) (ground arith),
        (nat_eq_iff c b' ').0 h,
      )
      (unfold decimal_value in refl)

flatten_sql-where_sql :
    (a b c : Text) (n : ℕ) (t : Text)
    → IsName a
    → IsName b
    → IsName c
    → begins_clause t ≡ true
    → flatten_sql (where_sql (quoted_text a b c) n t)
      ≡ codes " WHERE " ++ (c ++ (codes " = ?" ++ flatten_sql t))
unfolding flatten_sql
flatten_sql-where_sql a b c n t h k l e =
    ap (λ (u : Text). sub placeholder (sub relation u)) (sub-column-where a b c n h k l t)
    ∙ ap (sub placeholder) (sub-relation-where a b c n h k l (sub column t))
    ∙ sub-placeholder-where a b c n h k l (sub relation (sub column t))
        (ends_digits-begins_clause t e)

where_sql-append :
    (col : Text) (n : ℕ) (t : Text)
    → (codes " WHERE " ++ col ++ codes " = $" ++ decimal n) ++ t ≡ where_sql col n t
where_sql-append col n t = simp append_assoc

-- What the engine gets of a where clause.
abbrev pub flat_where : Text → Text → Text
flat_where column behind = codes " WHERE " ++ (column ++ (codes " = ?" ++ flatten_sql behind))

module _ (table_raw : Text) (idx : ℕ) (column behind : Text)
    (begins : begins_clause behind ≡ true) where
  quoted_col-flat_where :
      Ensures
        (λ col. flatten_sql (where_sql col idx behind) ≡ flat_where column behind)
        (quoted_col table_raw column)
  unfolding quoted_col
  quoted_col-flat_where =
      Ensures-bind (λ r. resolve_column table_raw column ≡ ok r)
        (λ col. flatten_sql (where_sql col idx behind) ≡ flat_where column behind)
        (resolve_column table_raw column) _ (Ensures-eq (resolve_column table_raw column))
        λ r resolved.
          let (a, b, c) = resolve_column-IsName table_raw column resolved in
          let (table, same, there) = resolve_column-InCatalog table_raw column resolved in
          subst
            (λ (name : Text).
              flatten_sql (where_sql (quoted_text r.0 r.1 r.2) idx behind) ≡ flat_where name behind)
            same (flatten_sql-where_sql r.0 r.1 r.2 idx behind a b c begins)

  where_rhs-flat_where :
      (e : Error) (schema : Schema) (name : Text)
      → Ensures
          (λ (l : Lowered). flatten_sql (l.0 ++ behind) ≡ flat_where column behind)
          (where_rhs e table_raw idx schema column (param_ref name))
  unfolding where_rhs
  where_rhs-flat_where e schema name =
      Ensures-bind (λ col. flatten_sql (where_sql col idx behind) ≡ flat_where column behind)
        (λ (l : Lowered). flatten_sql (l.0 ++ behind) ≡ flat_where column behind)
        (quoted_col table_raw column) _ quoted_col-flat_where
        λ col flat. ap flatten_sql (where_sql-append col idx behind) ∙ flat

-- _flatten_sql turns the where clause that the compiler has written, with its quoted column and its
-- numbered placeholder, into the bare column and a question mark, if nothing or another clause is
-- behind it, and goes on with that.
pub flatten_sql-where_rhs :
    (e : Error) (table_raw : Text) (idx : ℕ) (schema : Schema) (column name behind : Text)
    {l : Lowered}
    → where_rhs e table_raw idx schema column (param_ref name) ≡ ok l
    → begins_clause behind ≡ true
    → flatten_sql (l.0 ++ behind) ≡ flat_where column behind
flatten_sql-where_rhs e table_raw idx schema column name behind h begins =
    of_Ensures (λ (l : Lowered). flatten_sql (l.0 ++ behind) ≡ flat_where column behind)
      (where_rhs e table_raw idx schema column (param_ref name))
      (where_rhs-flat_where table_raw idx column behind begins e schema name) h
