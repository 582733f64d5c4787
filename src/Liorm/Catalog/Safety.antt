-- ===== src/Liorm/Catalog/Safety.antt =====
-- What a resolved name is: one of the catalog's, made of plain characters only.
use lidb.Base.{
  ℕ, ◌≡◌, inl, inr, refl, ap, ◌∙◌, Bool, true, false, ◌&&◌, ◌||◌, List, [], ◌∷◌, none, some,
  Option-cases, ok, arith, Bool-cases, all, all-append, leb, nat_eq, bind-eq-ok,
}
use lidb.Str.{Text, ◌==◌, ==_iff}
use lidb.Dict.{Dict, lookup, elem}
use lidb.Liorm.Catalog.{
  split_ident, table_key, known_table, known_column, resolve_table, resolve_column,
}
use lidb.Liorm.Catalog.Tables.{Columns, catalog_allowlist}

-- Lower-case letters, digits, the underscore, and the dot between a schema and a table. No quote,
-- no space, no semicolon.
unfoldable pub is_plain : ℕ → Bool
is_plain c = leb b'a' c && leb c b'z' || leb b'0' c && leb c b'9' || nat_eq c b'_' || nat_eq c b'.'

abbrev pub IsPlain : Text → Type 0
IsPlain s = all is_plain s ≡ true

abbrev plain_columns : Columns → Bool
plain_columns none = false
plain_columns (some cs) = all (all is_plain) cs

abbrev plain_row : Text × Columns → Bool
plain_row (key, columns) = all is_plain key && plain_columns columns

catalog_plain : all plain_row catalog_allowlist ≡ true
unfolding catalog_allowlist is_plain
catalog_plain = refl

lookup_plain :
    (d : Dict Columns) (key : Text) {columns : Columns}
    → all plain_row d ≡ true
    → lookup key d ≡ some columns
    → (all is_plain key ≡ true) × (plain_columns columns ≡ true)
unfolding lookup
lookup_plain [] key a h = cc
lookup_plain ((k, cs) ∷ d) key {columns} a h = elim (Bool-cases (k == key)) [
  | inl e ↦ ground (arith, (==_iff k key).0 e)
  | inr e ↦ lookup_plain d key {columns = columns} (ground arith) (ground arith)
]

elem-IsPlain :
    (cs : List Text) (c : Text) → all (all is_plain) cs ≡ true → elem c cs ≡ true → IsPlain c
unfolding elem
elem-IsPlain [] c a h = cc
elem-IsPlain (d ∷ ds) c a h = elim (Bool-cases (d == c)) [
  | inl e ↦ ground (arith, (==_iff d c).0 e)
  | inr e ↦ elem-IsPlain ds c (ground arith) (ground arith)
]

-- A column of a table that the catalog lists.
pub record InCatalog (schema name column : Text) : Type 0 where
  pub columns : List Text
  pub listed : lookup (table_key (schema, name)) catalog_allowlist ≡ some (some columns)
  pub allowed : elem column columns ≡ true

columns_listed :
    (key : Text) (columns : Columns)
    → lookup key catalog_allowlist ≡ some columns
    → (cs : List Text) × (columns ≡ some cs)
columns_listed key none h = cc ((lookup_plain catalog_allowlist key catalog_plain h).1)
columns_listed key (some cs) h = (cs, refl)

known_table-listed :
    (u : Text × Text) {t : Text × Text}
    → known_table u ≡ ok t
    → (u ≡ t)
      × ((columns : List Text) × (lookup (table_key t) catalog_allowlist ≡ some (some columns)))
unfolding known_table
known_table-listed u {t} h = elim (Option-cases (lookup (table_key u) catalog_allowlist)) [
  | inl missing ↦ absurd (ground arith)
  | inr (columns, found) ↦
      let (cs, listed) = columns_listed (table_key u) columns found in
      let same : u ≡ t = ground arith in (same, (cs, rw (← same) (found ∙ ap some listed)))
]

-- A resolved table is one of the catalog's, and the catalog lists its columns.
pub resolve_table-listed :
    (raw : Text) {t : Text × Text}
    → resolve_table raw ≡ ok t
    → (columns : List Text) × (lookup (table_key t) catalog_allowlist ≡ some (some columns))
unfolding resolve_table
resolve_table-listed raw h =
    let (u, split, known) = bind-eq-ok (split_ident raw) known_table h in
    (known_table-listed u known).1

-- The characters of a resolved table are plain, those of its schema and those of its name.
pub resolve_table-IsPlain :
    (raw : Text) {t : Text × Text} → resolve_table raw ≡ ok t → IsPlain t.0 × IsPlain t.1
resolve_table-IsPlain raw {t} h =
    let (columns, listed) = resolve_table-listed raw h in
    let key = (lookup_plain catalog_allowlist (table_key t) catalog_plain listed).0 in
    ground (arith, all-append is_plain t.0 (b'.' ∷ t.1))

known_column-InCatalog :
    (t : Text × Text) (column : Text) {r : Text × Text × Text}
    → known_column t column ≡ ok r
    → (r ≡ (t.0, t.1, column)) × InCatalog t.0 t.1 column
unfolding known_column
known_column-InCatalog t column {r} h =
    elim (Option-cases (lookup (table_key t) catalog_allowlist)) [
      | inl missing ↦ absurd (ground arith)
      | inr (columns, found) ↦
          let (cs, listed) = columns_listed (table_key t) columns found in
          elim (Bool-cases (elem column cs)) [
            | inl there ↦ (
              ground arith,
              record { columns = cs; listed = found ∙ ap some listed; allowed = there },
            )
            | inr lacks ↦ absurd (ground arith)
          ]
    ]

-- A resolved column is the column that was asked for, and the catalog lists it for the table.
pub resolve_column-InCatalog :
    (table_raw column : Text) {r : Text × Text × Text}
    → resolve_column table_raw column ≡ ok r
    → (resolve_table table_raw ≡ ok (r.0, r.1)) × (r.2 ≡ column) × InCatalog r.0 r.1 column
unfolding resolve_column
resolve_column-InCatalog table_raw column {r} h =
    let (t, table, known) = bind-eq-ok (resolve_table table_raw) (λ t. known_column t column) h in
    let (same, there) = known_column-InCatalog t column known in rw same (table, refl, there)

-- The schema, the table and the column of a resolved column are of plain characters.
pub resolve_column-IsPlain :
    (table_raw column : Text) {r : Text × Text × Text}
    → resolve_column table_raw column ≡ ok r
    → IsPlain r.0 × IsPlain r.1 × IsPlain r.2
resolve_column-IsPlain table_raw column {r} h =
    let (table, same, there) = resolve_column-InCatalog table_raw column h in
    let plain = resolve_table-IsPlain table_raw table in
    let row = lookup_plain catalog_allowlist (table_key (r.0, r.1)) catalog_plain there.listed in
    (plain.0, plain.1, rw same (elem-IsPlain there.columns column row.1 there.allowed))
