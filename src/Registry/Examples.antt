-- ===== src/Registry/Examples.antt =====
-- The theorems on the registry applied to a small engine with one package.
use lidb.Base.{
  ℕ, suc, ◌≡◌, refl, true, false, nat_eq, [], ◌∷◌, none, some, All, Outcome, ok, err, ◌>>=◌,
  traverse, if◌then◌else◌,
}
use lidb.Str.{Text, codes, ◌==◌, contains, starts_with}
use lidb.Dict.{lookup, put, elem}
use lidb.Errors.{Error, value_error, parameter_mismatch, value_in_sql}
use lidb.Json.{Json, num, float, str}
use lidb.Liorm.Execute.{
  Plans, Rows, Engine, execute, prepare, keys_match, check_values, ordered_params, run_engine,
  register_plan,
}
use lidb.Registry.Plans.{
  RegistryPlanSpec, all_registry_plans, plan_of, register_all, Bootstrap, register_registry_plans,
}
use lidb.Registry.Records.{
  PackageVersionRecord, Publication, text, row_to_record, find_version, list_rows, is_yanked,
}
use lidb.Registry.Service.{
  version_of, get_package_version, ensure_publisher, ensure_package, read_version,
  publish_package_version,
}
use lidb.Registry.Registration.{register_registry_plans_lem}
use lidb.Registry.Versions.{get_package_version-name}
use lidb.Registry.Publication.{IsPublished, publish_package_version-IsPublished}
use lidb.Registry.Listing.{shown, list_rows-traverse, get_package_version_refuses}

abbrev versions : Rows
versions =
    ((codes "id", str (codes "v-1"))
      ∷ (codes "version", str (codes "0.9.9"))
      ∷ (codes "tree_digest", str (codes "sha256:aa"))
      ∷ (codes "yanked", str (codes "true"))
      ∷ [])
    ∷ ((codes "id", str (codes "v-2"))
        ∷ (codes "version", str (codes "1.0.3"))
        ∷ (codes "tree_digest", str (codes "sha256:bb"))
        ∷ [])
    ∷ []

-- An engine that has the package and its publisher: its fifth call is the one for the versions.
abbrev one_package : Engine ℕ
one_package = record {
  engine_ready = λ n. (true, n);
  execute_sql = λ sql bound n.
      (ok (if nat_eq n 4 then versions else ((codes "id", str (codes "q-7")) ∷ []) ∷ []), suc n);
}

abbrev no_repr : Json → Text
no_repr _ = codes "[]"

abbrev float_of : Json → Outcome Error Text
float_of (num _) = ok (codes "0.0")
float_of (float r) = ok r
float_of _ = err value_error

abbrev counted_id : ℕ → Text × ℕ
counted_id n = (codes "u-1", n)

abbrev fresh : Bootstrap
fresh = record { registered = false; plans = [] }

abbrev plans : Plans
plans = (register_registry_plans false fresh).1.plans

abbrev found : PackageVersionRecord
found = record {
  name = codes "tokenizer";
  version = codes "1.0.3";
  tree_digest = codes "sha256:bb";
  proof_digest = none;
  coverage_pct = codes "0.0";
  publisher_id = [];
  published_at = none;
  yanked = false;
  package_id = codes "q-7";
  version_id = codes "v-2";
}

abbrev publication : Publication
publication = record {
  publisher_name = codes "team";
  publisher_public_key = text (codes "k3y");
  package_name = codes "tokenizer";
  version = codes "1.0.3";
  tree_digest = codes "sha256:bb";
  coverage_pct = codes "97.5";
  proof_digest = none;
  package_description = none;
  repository_url = none;
}

-- All that the service computes through.
service_found :
    get_package_version no_repr float_of one_package plans (codes "tokenizer") (codes "1.0.3") 3
    ≡ (ok (some found), 5)
unfolding get_package_version version_of find_version row_to_record is_yanked execute prepare lookup
    put ◌==◌ keys_match elem check_values contains starts_with ordered_params run_engine
    register_registry_plans register_all register_plan
service_found = refl

service_published :
    publish_package_version no_repr float_of one_package plans counted_id publication 0
    ≡ (ok found, 5)
unfolding publish_package_version read_version ensure_publisher ensure_package get_package_version
    version_of find_version row_to_record is_yanked execute prepare lookup put ◌==◌ keys_match elem
    check_values contains starts_with ordered_params run_engine register_registry_plans register_all
    register_plan
service_published = refl

get_package_version-name_example :
    (found.name ≡ codes "tokenizer") × (found.version ≡ codes "1.0.3")
get_package_version-name_example =
    get_package_version-name no_repr float_of one_package plans (codes "tokenizer") (codes "1.0.3")
      3 service_found

publish_package_version-IsPublished_example :
    IsPublished no_repr float_of one_package plans counted_id publication found 0 5
publish_package_version-IsPublished_example =
    publish_package_version-IsPublished no_repr float_of one_package plans counted_id publication 0
      service_published

list_rows-traverse_example : list_rows no_repr float_of false (codes "tokenizer") versions ≡ (
    traverse (row_to_record no_repr float_of (codes "tokenizer")) versions >>= λ recs.
    ok (shown false recs))
list_rows-traverse_example = list_rows-traverse no_repr float_of false (codes "tokenizer") versions

get_package_version_refuses_example :
    (j : Text) × (get_package_version no_repr float_of one_package plans
        (codes "packages")
        (codes "1.0.3")
        3
      ≡ (err (parameter_mismatch (value_in_sql j)), 3))
get_package_version_refuses_example =
    get_package_version_refuses no_repr float_of one_package plans (codes "packages")
      (codes "1.0.3") 3
      (unfold register_registry_plans register_all register_plan put lookup ◌==◌ in refl)
      (
        codes "SELECT id, name, description, repository_url FROM ",
        codes " WHERE name = $1 LIMIT 1",
        refl,
      )

register_registry_plans_lem_example :
    All
      (λ (spec : RegistryPlanSpec).
        lookup spec.plan_id (register_registry_plans false fresh).1.plans ≡ some (plan_of spec))
      all_registry_plans
    × (register_registry_plans false (register_registry_plans false fresh).1
        ≡ ([], (register_registry_plans false fresh).1))
register_registry_plans_lem_example = register_registry_plans_lem false fresh refl
