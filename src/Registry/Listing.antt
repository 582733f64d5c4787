-- ===== src/Registry/Listing.antt =====
-- What list_package_versions lists, and the names that no lookup accepts.
use lidb.Base.{
  ◌≡◌, refl, Bool, true, false, List, [], ◌∷◌, some, Outcome, ok, err, ◌>>=◌, traverse, arith,
  if◌then◌else◌,
}
use lidb.Str.{Text, codes, ◌==◌}
use lidb.Str.Search.{Occurs}
use lidb.Dict.{lookup}
use lidb.Errors.{Error, parameter_mismatch, value_in_sql}
use lidb.Json.{Json, str}
use lidb.Liorm.Execute.{Plans, Rows, Engine}
use lidb.Liorm.Execute.Refusals.{execute_refuses_value}
use lidb.Registry.Plans.{package_by_name, plan_of}
use lidb.Registry.Records.{PackageVersionRecord, row_to_record, listed, list_rows}
use lidb.Registry.Service.{get_package_version}

-- The records that are not yanked, in their order.
abbrev pub without_yanked : List PackageVersionRecord → List PackageVersionRecord
without_yanked [] = []
without_yanked (rec ∷ recs) = if rec.yanked then without_yanked recs else rec ∷ without_yanked recs

abbrev pub shown : Bool → List PackageVersionRecord → List PackageVersionRecord
shown include_yanked recs = if include_yanked then recs else without_yanked recs

listed-shown :
    (include_yanked : Bool) (rec : PackageVersionRecord)
    (o : Outcome Error (List PackageVersionRecord))
    → listed include_yanked rec (o >>= λ recs. ok (shown include_yanked recs))
      ≡ (o >>= λ recs. ok (shown include_yanked (rec ∷ recs)))
listed-shown include_yanked rec (err e) = refl
listed-shown true rec (ok recs) = refl
listed-shown false rec (ok recs) = ground arith

module _ (repr : Json → Text) (to_float : Json → Outcome Error Text) where
  listed-bind :
      (include_yanked : Bool) (o : Outcome Error PackageVersionRecord)
      (rest rest' : Outcome Error (List PackageVersionRecord))
      → rest ≡ (rest' >>= λ recs. ok (shown include_yanked recs))
      → (o >>= λ rec. listed include_yanked rec rest)
        ≡ (o >>= λ rec. rest' >>= λ recs. ok (rec ∷ recs)) >>= λ recs.
            ok (shown include_yanked recs)
  listed-bind include_yanked (err e) rest rest' h = refl
  listed-bind include_yanked (ok rec) rest (err e) h = rw h refl
  listed-bind include_yanked (ok rec) rest (ok recs) h =
      rw h (listed-shown include_yanked rec (ok recs))

  -- The loop of list_package_versions makes a record of every row, in order, and the first row that
  -- has none raises its error; the yanked records are then left out, unless they are asked for.
  pub list_rows-traverse :
      (include_yanked : Bool) (name : Text) (rows : Rows)
      → list_rows repr to_float include_yanked name rows ≡ (
          traverse (row_to_record repr to_float name) rows >>= λ recs.
          ok (shown include_yanked recs))
  unfolding list_rows
  list_rows-traverse true name [] = refl
  list_rows-traverse false name [] = refl
  list_rows-traverse include_yanked name (row ∷ rows) =
      listed-bind include_yanked (row_to_record repr to_float name row) _
        (traverse (row_to_record repr to_float name) rows)
        (list_rows-traverse include_yanked name rows)

module _ (repr : Json → Text) (to_float : Json → Outcome Error Text) {S : Type 0}
    (engine : Engine S) (plans : Plans) where
  -- With the frozen plans registered, a lookup of a package whose name occurs in the SQL of the plan
  -- package_by_name, such as "name" or "packages", raises ParameterMismatch and asks the engine nothing.
  pub get_package_version_refuses :
      (name version : Text) (s : S)
      → lookup package_by_name.plan_id plans ≡ some (plan_of package_by_name)
      → Occurs package_by_name.sql name
      → (j : Text) × (get_package_version repr to_float engine plans name version s
          ≡ (err (parameter_mismatch (value_in_sql j)), s))
  get_package_version_refuses name version s found occurs =
      let (j, refused) =
        execute_refuses_value engine plans package_by_name.plan_id ((codes "name", str name) ∷ []) s
          (plan_of package_by_name) (codes "name") name found (λ k. refl)
          (unfold lookup ◌==◌ in refl) occurs in
      (j, unfold get_package_version in rw refused refl)
