-- ===== src/Registry/Versions.antt =====
-- The record that get_package_version and publish_package_version return is the one asked for.
use lidb.Base.{
  ◌≡◌, refl, sym, ap, ◌∙◌, true, [], ◌∷◌, Option, none, some, Outcome, ok, err, arith, Bool-cases,
  inl, inr, Ensures, Ensures-bind, to_Ensures, of_Ensures,
}
use lidb.Str.{Text, codes, ◌==◌, ==_iff}
use lidb.Dict.{lookup, put}
use lidb.Dict.Laws.{lookup-put}
use lidb.Errors.{Error}
use lidb.Json.{Json, null, str, num, py_str}
use lidb.Liorm.Execute.{Plans, Rows, Engine}
use lidb.Action.{Yields, Yields-rest, pure}
use lidb.Registry.Records.{
  PackageVersionRecord, Row, field_of, get, row_to_record, id_of, some_record, find_version,
}
use lidb.Registry.Plans.{package_by_name, versions_for_package}
use lidb.Registry.Service.{run_rows, version_of, get_package_version}

module _ (repr : Json → Text) (to_float : Json → Outcome Error Text) where
  -- A record has the name it is made with and the version of its row.
  pub record IsOfRow (name : Text) (row : Row) (rec : PackageVersionRecord) : Type 0 where
    pub named : rec.name ≡ name
    pub version : Json
    pub has_version : lookup (codes "version") row ≡ some version
    pub version_is : rec.version ≡ py_str repr version
    pub package_is : rec.package_id ≡ py_str repr (get row (codes "package_id") (str []))

  field_of-Ensures : (row : Row) (k : Text) → Ensures (λ v. lookup k row ≡ some v) (field_of row k)
  field_of-Ensures row k =
      to_Ensures (λ v. lookup k row ≡ some v) (field_of row k) (λ v h. ground arith)

  any_of : {A : Type 0} (m : Outcome Error A) → Ensures (λ (_ : A). Unit {0}) m
  any_of m = to_Ensures (λ _. Unit) m (λ _ _. tt)

  pub row_to_record-IsOfRow :
      (name : Text) (row : Row) → Ensures (IsOfRow name row) (row_to_record repr to_float name row)
  unfolding row_to_record
  row_to_record-IsOfRow name row =
      Ensures-bind (λ v. lookup (codes "version") row ≡ some v) (IsOfRow name row)
        (field_of row (codes "version")) _ (field_of-Ensures row (codes "version"))
        λ v found.
          Ensures-bind (λ _. Unit {0}) (IsOfRow name row) (field_of row (codes "tree_digest")) _
            (any_of (field_of row (codes "tree_digest")))
            λ _ _.
              Ensures-bind (λ _. Unit {0}) (IsOfRow name row)
                (to_float (get row (codes "coverage_pct") (num 0))) _
                (any_of (to_float (get row (codes "coverage_pct") (num 0))))
                λ _ _.
                  Ensures-bind (λ _. Unit {0}) (IsOfRow name row) (field_of row (codes "id")) _
                    (any_of (field_of row (codes "id")))
                    λ _ _. record {
                      named = refl;
                      version = v;
                      has_version = found;
                      version_is = refl;
                      package_is = refl;
                    }

-- What a lookup of a version may return: no record, or one with the name and the version.
abbrev pub IsFor : Text → Text → Option PackageVersionRecord → Type 0
IsFor name version none = Unit
IsFor name version (some rec) = (rec.name ≡ name) × (rec.version ≡ version)

version_kept :
    (pkg_id : Text) (row : Row)
    → lookup (codes "version") (put (codes "package_id") (str pkg_id) row)
      ≡ lookup (codes "version") row
unfolding ◌==◌
version_kept pkg_id row = lookup-put (codes "package_id") (codes "version") (str pkg_id) row

module _ (repr : Json → Text) (to_float : Json → Outcome Error Text) where
  some_record-IsFor :
      (name version pkg_id : Text) (row : Row) (o : Outcome Error PackageVersionRecord)
      → (py_str repr (get row (codes "version") null) == version) ≡ true
      → Ensures (IsOfRow repr to_float name (put (codes "package_id") (str pkg_id) row)) o
      → Ensures (IsFor name version) (some_record o)
  some_record-IsFor name version pkg_id row (err e) same h = tt
  some_record-IsFor name version pkg_id row (ok rec) same h =
      let kept = sym (version_kept pkg_id row) ∙ h.has_version in
      (
        h.named,
        h.version_is
            ∙ ap (λ (v : Option Json). py_str repr (elim v [ none ↦ null | some j ↦ j ])) (sym kept)
            ∙ (==_iff _ version).0 same,
      )

  pub find_version-IsFor :
      (name version pkg_id : Text) (rows : Rows)
      → Ensures (IsFor name version) (find_version repr to_float name version pkg_id rows)
  unfolding find_version
  find_version-IsFor name version pkg_id [] = tt
  find_version-IsFor name version pkg_id (row ∷ rows) =
      elim (Bool-cases (py_str repr (get row (codes "version") null) == version)) [
        | inl same ↦ rw same (
            some_record-IsFor name version pkg_id row _ same (
              row_to_record-IsOfRow repr to_float name (put (codes "package_id") (str pkg_id) row)))
        | inr other ↦ rw other (find_version-IsFor name version pkg_id rows)
      ]

module _ (repr : Json → Text) (to_float : Json → Outcome Error Text) {S : Type 0}
    (engine : Engine S) (plans : Plans) where
  version_of-IsFor :
      (name version : Text) (rows : Rows)
      → Yields (IsFor name version) (version_of repr to_float engine plans name version rows)
  unfolding version_of
  version_of-IsFor name version [] = λ s. tt
  version_of-IsFor name version (pkg ∷ rows) =
      Yields-rest (IsFor name version) (pure (id_of repr pkg)) _ λ pkg_id.
        Yields-rest (IsFor name version)
          (run_rows engine plans versions_for_package ((codes "package_id", str pkg_id) ∷ [])) _
          λ found s. find_version-IsFor repr to_float name version pkg_id found

  pub get_package_version-IsFor :
      (name version : Text)
      → Yields (IsFor name version) (get_package_version repr to_float engine plans name version)
  unfolding get_package_version
  get_package_version-IsFor name version =
      Yields-rest (IsFor name version)
        (run_rows engine plans package_by_name ((codes "name", str name) ∷ [])) _
        λ rows. version_of-IsFor name version rows

  -- A record that get_package_version returns has the name and the version that were asked for.
  pub get_package_version-name :
      (name version : Text) (s : S) {rec : PackageVersionRecord} {s' : S}
      → get_package_version repr to_float engine plans name version s ≡ (ok (some rec), s')
      → (rec.name ≡ name) × (rec.version ≡ version)
  get_package_version-name name version s h =
      of_Ensures (IsFor name version)
        (get_package_version repr to_float engine plans name version s).0
        (get_package_version-IsFor name version s)
        (ap (λ (r : Outcome Error (Option PackageVersionRecord) × S). r.0) h)
