-- ===== src/Registry/Plans.antt =====
-- registry/plans.py and registry/bootstrap.py: the frozen plans and their registration.
use lidb.Base.{Bool, true, ◌&&◌, List, [], ◌∷◌, ◌++◌, map, not, if◌then◌else◌}
use lidb.Str.{Text, codes}
use lidb.Dict.{Dict}
use lidb.Json.{Json, str, object, array}
use lidb.Liorm.Execute.{Plans, RegisteredPlan, register_plan}

pub record RegistryPlanSpec : Type 0 where
  pub name : Text
  pub plan_id : Text
  pub sql : Text
  pub param_schema : Dict Text
  pub ir : Json

abbrev uuid : Text
uuid = codes "uuid"

abbrev text : Text
text = codes "text"

abbrev pub package_by_name : RegistryPlanSpec
package_by_name = record {
  name = codes "registry.package_by_name";
  plan_id = codes "registry:package_by_name:v1";
  sql = codes "SELECT id, name, description, repository_url FROM packages WHERE name = $1 LIMIT 1";
  param_schema = (codes "name", text) ∷ [];
  ir = object (
      (codes "verb", str (codes "read"))
      ∷ (codes "table", str (codes "packages"))
      ∷ (codes "filter", str (codes "name"))
      ∷ []);
}

abbrev pub version_by_pkg_version : RegistryPlanSpec
version_by_pkg_version = record {
  name = codes "registry.version_by_pkg_version";
  plan_id = codes "registry:version_by_pkg_version:v1";
  sql =
      codes "SELECT id, package_id, version, tree_digest, proof_digest, coverage_pct, "
      ++ codes "publisher_id, published_at, yanked FROM package_versions "
      ++ codes "WHERE package_id = $1 AND version = $2 LIMIT 1";
  param_schema = (codes "package_id", uuid) ∷ (codes "version", text) ∷ [];
  ir = object (
      (codes "verb", str (codes "read"))
      ∷ (codes "table", str (codes "package_versions"))
      ∷ (codes "filter", array (str (codes "package_id") ∷ str (codes "version") ∷ []))
      ∷ []);
}

abbrev pub versions_for_package : RegistryPlanSpec
versions_for_package = record {
  name = codes "registry.versions_for_package";
  plan_id = codes "registry:versions_for_package:v1";
  sql =
      codes "SELECT id, version, tree_digest, proof_digest, coverage_pct, published_at, yanked "
      ++ codes "FROM package_versions WHERE package_id = $1";
  param_schema = (codes "package_id", uuid) ∷ [];
  ir = object (
      (codes "verb", str (codes "read"))
      ∷ (codes "table", str (codes "package_versions"))
      ∷ (codes "filter", str (codes "package_id"))
      ∷ []);
}

abbrev pub insert_package : RegistryPlanSpec
insert_package = record {
  name = codes "registry.insert_package";
  plan_id = codes "registry:insert_package:v1";
  sql =
      codes "INSERT INTO packages (id, name, description, repository_url) VALUES ($1, $2, $3, $4)";
  param_schema =
      (codes "id", uuid)
      ∷ (codes "name", text)
      ∷ (codes "description", text)
      ∷ (codes "repository_url", text)
      ∷ [];
  ir = object ((codes "verb", str (codes "insert")) ∷ (codes "table", str (codes "packages")) ∷ []);
}

abbrev pub insert_package_version : RegistryPlanSpec
insert_package_version = record {
  name = codes "registry.insert_package_version";
  plan_id = codes "registry:insert_package_version:v1";
  sql =
      codes "INSERT INTO package_versions "
      ++ codes "(id, package_id, version, tree_digest, proof_digest, coverage_pct, publisher_id) "
      ++ codes "VALUES ($1, $2, $3, $4, $5, $6, $7)";
  param_schema =
      (codes "id", uuid)
      ∷ (codes "package_id", uuid)
      ∷ (codes "version", text)
      ∷ (codes "tree_digest", text)
      ∷ (codes "proof_digest", text)
      ∷ (codes "coverage_pct", text)
      ∷ (codes "publisher_id", uuid)
      ∷ [];
  ir =
      object (
        (codes "verb", str (codes "insert"))
        ∷ (codes "table", str (codes "package_versions"))
        ∷ []);
}

abbrev pub publisher_by_name : RegistryPlanSpec
publisher_by_name = record {
  name = codes "registry.publisher_by_name";
  plan_id = codes "registry:publisher_by_name:v1";
  sql = codes "SELECT id, name FROM publishers WHERE name = $1 LIMIT 1";
  param_schema = (codes "name", text) ∷ [];
  ir = object (
      (codes "verb", str (codes "read"))
      ∷ (codes "table", str (codes "publishers"))
      ∷ (codes "filter", str (codes "name"))
      ∷ []);
}

abbrev pub insert_publisher : RegistryPlanSpec
insert_publisher = record {
  name = codes "registry.insert_publisher";
  plan_id = codes "registry:insert_publisher:v1";
  sql = codes "INSERT INTO publishers (id, name, public_key) VALUES ($1, $2, $3)";
  param_schema = (codes "id", uuid) ∷ (codes "name", text) ∷ (codes "public_key", text) ∷ [];
  ir =
      object
        ((codes "verb", str (codes "insert")) ∷ (codes "table", str (codes "publishers")) ∷ []);
}

-- _REGISTRY_PLANS
abbrev pub all_registry_plans : List RegistryPlanSpec
all_registry_plans =
    package_by_name ∷ version_by_pkg_version ∷ versions_for_package ∷ insert_package
    ∷ insert_package_version ∷ publisher_by_name ∷ insert_publisher ∷ []

-- The arguments that register_registry_plans takes out of a spec.
abbrev pub plan_of : RegistryPlanSpec → RegisteredPlan
plan_of spec = record {
  name = spec.name;
  ir = spec.ir;
  sql = spec.sql;
  param_schema = spec.param_schema;
}

-- The loop over the specs.
unfoldable pub register_all : List RegistryPlanSpec → Plans → Plans
register_all [] plans = plans
register_all (spec ∷ specs) plans =
    register_all specs (register_plan plans spec.plan_id (plan_of spec))

-- _REGISTERED with the plans of liorm/execute.py
pub record Bootstrap : Type 0 where
  pub registered : Bool
  pub plans : Plans

unfoldable pub register_registry_plans : Bool → Bootstrap → List Text × Bootstrap
unfolding register_all
register_registry_plans force st = if st.registered && not force then ([], st) else (
  map (λ (spec : RegistryPlanSpec). spec.plan_id) all_registry_plans,
  record { registered = true; plans = register_all all_registry_plans st.plans },
)
