-- ===== src/Liorm/Embed/Columns.antt =====
-- What _flatten_sql makes of the quoted columns that the compiler writes.
use lidb.Base.{
  ℕ, ◌≡◌, refl, ap, ◌∙◌, true, [], ◌∷◌, ◌++◌, none, some, arith, append_assoc, ok, bind-eq-ok,
}
use lidb.Str.{Text}
use lidb.Liorm.Catalog.Safety.{is_plain, IsPlain}
use lidb.Liorm.Catalog.{resolve_column}
use lidb.Liorm.Catalog.Safety.{resolve_column-InCatalog}
use lidb.Liq.Compiler.{quote, quoted_col}
use lidb.Liorm.Embed.Names.{IsName, resolve_column-IsName}
use lidb.Liorm.Embed.Flatten.{
  name_chars, quoted_name, dotted_name, relation, column, placeholder, flatten_sql,
}
use lidb.Str.Regex.{Pattern, sub}
use lidb.Str.Regex.Substitution.{sub-match, sub-free}

name_chars-IsPlain : (n t : Text) → IsPlain n → name_chars (n ++ b'"' ∷ t) ≡ (n, b'"' ∷ t)
unfolding name_chars is_plain
name_chars-IsPlain [] t h = refl
name_chars-IsPlain (c ∷ n) t h = ground (arith, name_chars-IsPlain n t)

quoted_name-IsName : (n t : Text) → IsName n → quoted_name (b'"' ∷ n ++ b'"' ∷ t) ≡ some (n, t)
unfolding quoted_name
quoted_name-IsName [] t h = cc (h.not_empty)
quoted_name-IsName (c ∷ n) t h = rw (name_chars-IsPlain (c ∷ n) t h.plain) refl

pub sub-plain :
    (p : Pattern)
    → ((c : ℕ) (cs : Text) → is_plain c ≡ true → p (c ∷ cs) ≡ none)
    → (w t : Text) → IsPlain w
    → sub p (w ++ t) ≡ w ++ sub p t
sub-plain p unmatched w t h = sub-free p is_plain unmatched w t h

pub column-plain : (c : ℕ) (cs : Text) → is_plain c ≡ true → column (c ∷ cs) ≡ none
unfolding column relation quoted_name is_plain
column-plain c cs h = ground arith

pub relation-plain : (c : ℕ) (cs : Text) → is_plain c ≡ true → relation (c ∷ cs) ≡ none
unfolding relation quoted_name is_plain
relation-plain c cs h = ground arith

pub placeholder-plain : (c : ℕ) (cs : Text) → is_plain c ≡ true → placeholder (c ∷ cs) ≡ none
unfolding placeholder is_plain
placeholder-plain c cs h = ground arith

-- A quoted column, written from the right, with the text behind it.
abbrev column_text : Text → Text → Text → Text → Text
column_text a b c t = b'"' ∷ (a ++ b'"' ∷ b'.' ∷ b'"' ∷ (b ++ b'"' ∷ b'.' ∷ b'"' ∷ (c ++ b'"' ∷ t)))

column-column_text :
    (a b c t : Text) → IsName a → IsName b → IsName c → column (column_text a b c t) ≡ some (c, t)
unfolding column relation dotted_name
column-column_text a b c t h k l =
    rw (quoted_name-IsName a _ h, quoted_name-IsName b _ k, quoted_name-IsName c t l) refl

-- The text that quoted_col writes.
abbrev pub quoted_text : Text → Text → Text → Text
quoted_text a b c = quote a ++ b'.' ∷ (quote b ++ b'.' ∷ quote c)

quoted_text-column_text : (a b c t : Text) → quoted_text a b c ++ t ≡ column_text a b c t
quoted_text-column_text a b c t = simp append_assoc

pub sub-quoted_text :
    (a b c t : Text)
    → IsName a
    → IsName b
    → IsName c
    → sub column (quoted_text a b c ++ t) ≡ c ++ sub column t
sub-quoted_text a b c t h k l =
    sub-match column b'"' _ t c
      (ap column (quoted_text-column_text a b c t) ∙ column-column_text a b c t h k l)

pub flatten_sql-IsPlain : (w t : Text) → IsPlain w → flatten_sql (w ++ t) ≡ w ++ flatten_sql t
unfolding flatten_sql
flatten_sql-IsPlain w t h =
    rw
      (
        sub-plain column column-plain w t h,
        sub-plain relation relation-plain w (sub column t) h,
        sub-plain placeholder placeholder-plain w (sub relation (sub column t)) h,
      )
      refl

flatten_sql-quoted_text :
    (a b c t : Text)
    → IsName a
    → IsName b
    → IsName c
    → flatten_sql (quoted_text a b c ++ t) ≡ c ++ flatten_sql t
unfolding flatten_sql
flatten_sql-quoted_text a b c t h k l =
    rw
      (
        sub-quoted_text a b c t h k l,
        sub-plain relation relation-plain c (sub column t) l.plain,
        sub-plain placeholder placeholder-plain c (sub relation (sub column t)) l.plain,
      )
      refl

-- _flatten_sql turns a column that the compiler has quoted into the bare column, whatever the text
-- behind it, and goes on with that text.
pub flatten_sql-quoted_col :
    (table_raw column : Text) (behind : Text) {q : Text}
    → quoted_col table_raw column ≡ ok q
    → flatten_sql (q ++ behind) ≡ column ++ flatten_sql behind
unfolding quoted_col
flatten_sql-quoted_col table_raw column behind {q} h =
    let (r, resolved, shown) =
      bind-eq-ok (resolve_column table_raw column) (λ r. ok (quoted_text r.0 r.1 r.2)) h in
    let (named_schema, named_table, named_column) =
      resolve_column-IsName table_raw column resolved in
    let (table, same, there) = resolve_column-InCatalog table_raw column resolved in
    let flat = flatten_sql-quoted_text r.0 r.1 r.2 behind named_schema named_table named_column in
    cc (flat, same, shown)
