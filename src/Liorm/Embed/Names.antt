-- ===== src/Liorm/Embed/Names.antt =====
-- The names of the catalog can stand between quotes: they are plain, and none is empty.
use lidb.Base.{
  ◌≡◌, refl, Bool, true, false, not, ◌&&◌, List, [], ◌∷◌, ◌++◌, none, some, nat_eq, is_empty, all,
  arith, Bool-cases, inl, inr, ok,
}
use lidb.Str.{Text, ◌==◌, ==_iff}
use lidb.Dict.{Dict, lookup, elem}
use lidb.Liorm.Catalog.{table_key, resolve_column}
use lidb.Liorm.Catalog.Tables.{Columns, catalog_allowlist}
use lidb.Liorm.Catalog.Safety.{IsPlain, resolve_column-InCatalog, resolve_column-IsPlain}

pub record IsName (n : Text) : Type 0 where
  pub not_empty : is_empty n ≡ false
  pub plain : IsPlain n

starts_dot : Text → Bool
starts_dot [] = false
starts_dot (c ∷ cs) = nat_eq c b'.'

ends_dot : Text → Bool
ends_dot [] = false
ends_dot (c ∷ []) = nat_eq c b'.'
ends_dot (c ∷ d ∷ cs) = ends_dot (d ∷ cs)

ends_dot-snoc : (s : Text) → ends_dot (s ++ b'.' ∷ []) ≡ true
unfolding ends_dot
ends_dot-snoc [] = refl
ends_dot-snoc (c ∷ []) = refl
ends_dot-snoc (c ∷ d ∷ s) = ends_dot-snoc (d ∷ s)

no_empty : Columns → Bool
no_empty none = false
no_empty (some cs) = all (λ c. not (is_empty c)) cs

named_row : Text × Columns → Bool
named_row (key, columns) = not (starts_dot key) && not (ends_dot key) && no_empty columns

catalog_named : all named_row catalog_allowlist ≡ true
unfolding catalog_allowlist named_row starts_dot ends_dot no_empty
catalog_named = refl

lookup_row :
    (p : Text × Columns → Bool) (d : Dict Columns) (key : Text) {columns : Columns}
    → all p d ≡ true
    → lookup key d ≡ some columns
    → p (key, columns) ≡ true
unfolding lookup
lookup_row p [] key a h = cc
lookup_row p ((k, cs) ∷ d) key {columns} a h = elim (Bool-cases (k == key)) [
  | inl e ↦ ground (arith, (==_iff k key).0 e)
  | inr e ↦ lookup_row p d key {columns = columns} (ground arith) (ground arith)
]

elem_named :
    (cs : List Text) (c : Text)
    → all (λ c. not (is_empty c)) cs ≡ true
    → elem c cs ≡ true
    → is_empty c ≡ false
unfolding elem
elem_named [] c a h = cc
elem_named (d ∷ ds) c a h = elim (Bool-cases (d == c)) [
  | inl e ↦ ground (arith, (==_iff d c).0 e)
  | inr e ↦ elem_named ds c (ground arith) (ground arith)
]

schema_named : (s t : Text) → starts_dot (table_key (s, t)) ≡ false → is_empty s ≡ false
unfolding starts_dot
schema_named [] t h = cc
schema_named (c ∷ s) t h = refl

table_named : (s t : Text) → ends_dot (table_key (s, t)) ≡ false → is_empty t ≡ false
table_named s [] h = cc (h, ends_dot-snoc s)
table_named s (c ∷ t) h = refl

-- The schema, the table and the column of a resolved column are names.
pub resolve_column-IsName :
    (table_raw column : Text) {r : Text × Text × Text}
    → resolve_column table_raw column ≡ ok r
    → IsName r.0 × IsName r.1 × IsName r.2
unfolding named_row no_empty
resolve_column-IsName table_raw column {r} h =
    let (table, same, there) = resolve_column-InCatalog table_raw column h in
    let plain = resolve_column-IsPlain table_raw column h in
    let row =
      lookup_row named_row catalog_allowlist (table_key (r.0, r.1)) catalog_named there.listed in
    (
      record { not_empty = schema_named r.0 r.1 (ground (arith, row)); plain = plain.0 },
      record { not_empty = table_named r.0 r.1 (ground (arith, row)); plain = plain.1 },
      record {
        not_empty = rw same (elem_named there.columns column (ground (arith, row)) there.allowed);
        plain = plain.2;
      },
    )
