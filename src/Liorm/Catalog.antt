-- ===== src/Liorm/Catalog.antt =====
-- liorm/catalog.py: _split_ident, resolve_table and resolve_column. The tables are in a child.
pub mod Tables
pub mod Safety
use lidb.Base.{
  ◌≡◌, refl, Bool, true, false, List, [], ◌∷◌, ◌++◌, Option, none, some, Outcome, ok, err, ◌>>=◌,
  not, if◌then◌else◌,
}
use lidb.Str.{Text, codes, split_on}
use lidb.Dict.{lookup, elem}
use lidb.Errors.{Error, catalog_error, invalid_ident, unknown_table, unknown_column}
use lidb.Liorm.Catalog.Tables.{catalog_allowlist}

unfoldable pub split_ident : Text → Outcome Error (Text × Text)
split_ident raw = elim (split_on b'.' raw) [
  | name ∷ [] ↦ ok (codes "public", name)
  | schema ∷ name ∷ [] ↦ ok (schema, name)
  | _ ↦ err (catalog_error (invalid_ident raw))
]

abbrev pub table_key : Text × Text → Text
table_key t = t.0 ++ b'.' ∷ t.1

-- `if key not in CATALOG_ALLOWLIST`
known_table : Text × Text → Outcome Error (Text × Text)
known_table t = elim (lookup (table_key t) catalog_allowlist) [
  | none ↦ err (catalog_error (unknown_table (table_key t)))
  | some _ ↦ ok t
]

unfoldable pub resolve_table : Text → Outcome Error (Text × Text)
unfolding known_table
resolve_table raw = do t ← split_ident raw; known_table t

-- The test of the column against CATALOG_ALLOWLIST[key]; `none` in it allows all columns.
known_column : Text × Text → Text → Outcome Error (Text × Text × Text)
known_column t column = elim (lookup (table_key t) catalog_allowlist) [
  | none ↦ err Error.key_error
  | some none ↦ ok (t.0, t.1, column)
  | some (some allowed) ↦
      if not (elem column allowed)
      then err (catalog_error (unknown_column (table_key t) column))
      else ok (t.0, t.1, column)
]

unfoldable pub resolve_column : Text → Text → Outcome Error (Text × Text × Text)
unfolding known_column
resolve_column table_raw column = do t ← resolve_table table_raw; known_column t column
