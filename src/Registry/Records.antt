-- ===== src/Registry/Records.antt =====
-- The records of registry/service.py, _row_to_record and the loops over rows. float() and the repr of
-- lists and dicts are parameters; float() returns the text of the float's repr.
use lidb.Base.{
  ℕ, Bool, false, ◌&&◌, ◌||◌, not, nat_eq, List, [], ◌∷◌, Option, none, some, Outcome, ok, err,
  ◌>>=◌, if◌then◌else◌,
}
use lidb.Str.{Text, codes, ◌==◌}
use lidb.Dict.{Dict, lookup, put}
use lidb.Errors.{Error, key_error}
use lidb.Json.{Json, null, bool, num, float, str, is_truthy, py_str}
use lidb.Liorm.Execute.{Rows}

pub record PackageVersionRecord : Type 0 where
  pub name : Text
  pub version : Text
  pub tree_digest : Text
  pub proof_digest : Option Text
  pub coverage_pct : Text
  pub publisher_id : Text
  pub published_at : Option Text
  pub yanked : Bool
  pub package_id : Text
  pub version_id : Text

-- bytes | str
pub data PublicKey : Type 0 where
  bytes text : List ℕ → PublicKey

-- public_key.decode("latin-1") if isinstance(public_key, bytes) else public_key
abbrev pub key_text : PublicKey → Text
key_text (bytes bs) = bs
key_text (text s) = s

abbrev pub Row : Type 0
Row = Dict Json

-- row[k]
abbrev pub field_of : Row → Text → Outcome Error Json
field_of row k = elim (lookup k row) [ none ↦ err key_error | some v ↦ ok v ]

-- row.get(k, default)
abbrev pub get : Row → Text → Json → Json
get row k default = elim (lookup k row) [ none ↦ default | some v ↦ v ]

-- yanked_raw in (True, "true", "1", 1)
unfoldable pub is_yanked : Json → Bool
is_yanked (bool b) = b
is_yanked (num n) = nat_eq n 1
is_yanked (float r) = r == codes "1.0"
is_yanked (str s) = s == codes "true" || s == codes "1"
is_yanked _ = false

-- value if value else "-"
abbrev pub or_dash : Option Text → Text
or_dash none = codes "-"
or_dash (some []) = codes "-"
or_dash (some (c ∷ cs)) = c ∷ cs

-- What `publish_package_version` is called with.
pub record Publication : Type 0 where
  pub publisher_name : Text
  pub publisher_public_key : PublicKey
  pub package_name : Text
  pub version : Text
  pub tree_digest : Text
  pub coverage_pct : Text
  pub proof_digest : Option Text
  pub package_description : Option Text
  pub repository_url : Option Text

abbrev pub some_record :
    Outcome Error PackageVersionRecord → Outcome Error (Option PackageVersionRecord)
some_record (ok r) = ok (some r)
some_record (err e) = err e

-- A record in front of those of the later rows, if it is to be listed.
abbrev pub listed :
    Bool
    → PackageVersionRecord
    → Outcome Error (List PackageVersionRecord)
    → Outcome Error (List PackageVersionRecord)
listed include_yanked rec (err e) = err e
listed include_yanked rec (ok recs) =
    if not include_yanked && rec.yanked then ok recs else ok (rec ∷ recs)

module _ (repr : Json → Text) where
  -- str(row["id"])
  abbrev pub id_of : Row → Outcome Error Text
  id_of row = elim (field_of row (codes "id")) [ ok v ↦ ok (py_str repr v) | err e ↦ err e ]

module _ (repr : Json → Text) (to_float : Json → Outcome Error Text) where
  -- str(proof) if proof not in (None, "") else None
  abbrev pub proof_of : Json → Option Text
  proof_of null = none
  proof_of (str []) = none
  proof_of j = some (py_str repr j)

  -- str(row["published_at"]) if row.get("published_at") else None
  abbrev pub published_of : Json → Option Text
  published_of j = if is_truthy j then some (py_str repr j) else none

  unfoldable pub row_to_record : Text → Row → Outcome Error PackageVersionRecord
  row_to_record package_name row = do
    version ← field_of row (codes "version")
    tree_digest ← field_of row (codes "tree_digest")
    coverage_pct ← to_float (get row (codes "coverage_pct") (num 0))
    version_id ← field_of row (codes "id")
    ok (record {
      name = package_name;
      version = py_str repr version;
      tree_digest = py_str repr tree_digest;
      proof_digest = proof_of (get row (codes "proof_digest") null);
      coverage_pct = coverage_pct;
      publisher_id = py_str repr (get row (codes "publisher_id") (str []));
      published_at = published_of (get row (codes "published_at") null);
      yanked = is_yanked (get row (codes "yanked") (bool false));
      package_id = py_str repr (get row (codes "package_id") (str []));
      version_id = py_str repr version_id;
    })

  -- The loop of get_package_version: the first row of the version decides.
  unfoldable pub find_version :
      Text → Text → Text → Rows → Outcome Error (Option PackageVersionRecord)
  find_version name version pkg_id [] = ok none
  find_version name version pkg_id (row ∷ rows) =
      let rest = find_version name version pkg_id rows in
      if py_str repr (get row (codes "version") null) == version
      then some_record (row_to_record name (put (codes "package_id") (str pkg_id) row))
      else rest

  -- The loop of list_package_versions.
  unfoldable pub list_rows : Bool → Text → Rows → Outcome Error (List PackageVersionRecord)
  list_rows include_yanked name [] = ok []
  list_rows include_yanked name (row ∷ rows) =
      let rest = list_rows include_yanked name rows in
      row_to_record name row >>= λ rec. listed include_yanked rec rest

-- PackageVersionRecord.to_api_dict
pub to_api_dict : PackageVersionRecord → Dict Json
to_api_dict rec =
    (codes "name", str rec.name)
    ∷ (codes "version", str rec.version)
    ∷ (codes "tree_digest", str rec.tree_digest)
    ∷ (codes "proof_digest", or_null rec.proof_digest)
    ∷ (codes "coverage_pct", float rec.coverage_pct)
    ∷ (codes "publisher_id", str rec.publisher_id)
    ∷ (codes "published_at", or_null rec.published_at)
    ∷ (codes "yanked", bool rec.yanked)
    ∷ []
  where
    or_null : Option Text → Json
    or_null none = null
    or_null (some t) = str t
