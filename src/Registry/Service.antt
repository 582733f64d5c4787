-- ===== src/Registry/Service.antt =====
-- registry/service.py: RegistryOltp over the execution of the frozen plans, which its constructor has
-- registered. uuid4, float() and the repr of lists and dicts are parameters.
use lidb.Base.{Bool, List, [], ◌∷◌, Option, none, some, Outcome, ok, err}
use lidb.Str.{Text, codes}
use lidb.Errors.{Error, runtime_error}
use lidb.Json.{Json, str}
use lidb.Liorm.Execute.{Params, Plans, Rows, Engine, ExecuteResult, execute}
use lidb.Action.{Action, done, pure, ◌>>=◌, ◌>>◌}
use lidb.Registry.Plans.{
  RegistryPlanSpec, package_by_name, versions_for_package, insert_package, insert_package_version,
  publisher_by_name, insert_publisher,
}
use lidb.Registry.Records.{
  PackageVersionRecord, Publication, PublicKey, key_text, id_of, or_dash, find_version, list_rows,
}

-- `if rec is None: raise RuntimeError`
abbrev pub read_back : Option PackageVersionRecord → Outcome Error PackageVersionRecord
read_back none = err runtime_error
read_back (some rec) = ok rec

module _ {S : Type 0} (engine : Engine S) (plans : Plans) where
  -- self._run(plan_id, params).rows
  abbrev pub run_rows : RegistryPlanSpec → Params → Action S Rows
  run_rows spec params =
      execute engine plans spec.plan_id params >>= λ (r : ExecuteResult). done r.rows

module _ (repr : Json → Text) (to_float : Json → Outcome Error Text) {S : Type 0}
    (engine : Engine S) (plans : Plans) where
  -- What get_package_version does with the rows of the package.
  unfoldable pub version_of : Text → Text → Rows → Action S (Option PackageVersionRecord)
  version_of name version [] = done none
  version_of name version (pkg ∷ _) = do
    pkg_id ← pure (id_of repr pkg)
    rows ← run_rows engine plans versions_for_package ((codes "package_id", str pkg_id) ∷ [])
    pure (find_version repr to_float name version pkg_id rows)

  unfoldable pub get_package_version : Text → Text → Action S (Option PackageVersionRecord)
  get_package_version name version = do
    pkg_rows ← run_rows engine plans package_by_name ((codes "name", str name) ∷ [])
    version_of name version pkg_rows

  -- What list_package_versions does with the rows of the package.
  unfoldable pub versions_of : Bool → Text → Rows → Action S (List PackageVersionRecord)
  versions_of include_yanked name [] = done []
  versions_of include_yanked name (pkg ∷ _) = do
    pkg_id ← pure (id_of repr pkg)
    rows ← run_rows engine plans versions_for_package ((codes "package_id", str pkg_id) ∷ [])
    pure (list_rows repr to_float include_yanked name rows)

  unfoldable pub list_package_versions : Text → Bool → Action S (List PackageVersionRecord)
  list_package_versions name include_yanked = do
    pkg_rows ← run_rows engine plans package_by_name ((codes "name", str name) ∷ [])
    versions_of include_yanked name pkg_rows

module _ (repr : Json → Text) (to_float : Json → Outcome Error Text) {S : Type 0}
    (engine : Engine S) (plans : Plans) (uuid4 : S → Text × S) where
  -- str(uuid.uuid4())
  abbrev pub fresh_id : Action S Text
  fresh_id s = let (id, s') = uuid4 s in (ok id, s')

  -- The id of the first row, or that of a row inserted with a fresh id.
  unfoldable pub found_or : (Text → Action S Rows) → Rows → Action S Text
  found_or insert (row ∷ _) = pure (id_of repr row)
  found_or insert [] = do id ← fresh_id; insert id; done id

  unfoldable pub ensure_publisher : Text → PublicKey → Action S Text
  unfolding found_or
  ensure_publisher name public_key = do
    existing ← run_rows engine plans publisher_by_name ((codes "name", str name) ∷ [])
    found_or
        (λ id. run_rows engine plans insert_publisher (
          (codes "id", str id)
          ∷ (codes "name", str name)
          ∷ (codes "public_key", str (key_text public_key))
          ∷ []))
        existing

  unfoldable pub ensure_package : Text → Option Text → Option Text → Action S Text
  unfolding found_or
  ensure_package name description repository_url = do
    existing ← run_rows engine plans package_by_name ((codes "name", str name) ∷ [])
    found_or
        (λ id. run_rows engine plans insert_package (
          (codes "id", str id)
          ∷ (codes "name", str name)
          ∷ (codes "description", str (or_dash description))
          ∷ (codes "repository_url", str (or_dash repository_url))
          ∷ []))
        existing

  -- The insertion of the version, with the ids of the publisher, the package and the version.
  unfoldable pub insert_version : Publication → Text → Text → Text → Action S Rows
  insert_version p pub_id pkg_id ver_id = run_rows engine plans insert_package_version (
      (codes "id", str ver_id)
      ∷ (codes "package_id", str pkg_id)
      ∷ (codes "version", str p.version)
      ∷ (codes "tree_digest", str p.tree_digest)
      ∷ (codes "proof_digest", str (or_dash p.proof_digest))
      ∷ (codes "coverage_pct", str p.coverage_pct)
      ∷ (codes "publisher_id", str pub_id)
      ∷ [])

  -- get_package_version, and the error when it finds nothing
  unfoldable pub read_version : Publication → Action S PackageVersionRecord
  read_version p = do
    rec ← get_package_version repr to_float engine plans p.package_name p.version
    pure (read_back rec)

  unfoldable pub publish_package_version : Publication → Action S PackageVersionRecord
  unfolding insert_version read_version
  publish_package_version p = do
    pub_id ← ensure_publisher p.publisher_name p.publisher_public_key
    pkg_id ← ensure_package p.package_name p.package_description p.repository_url
    ver_id ← fresh_id
    insert_version p pub_id pkg_id ver_id
    read_version p
