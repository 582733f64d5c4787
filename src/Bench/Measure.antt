-- ===== src/Bench/Measure.antt =====
-- The measurements of scripts/bench/tier_db_csv_impl.py.
pub mod Memory
pub mod Security
use lidb.Base.{
  ℕ, zero, suc, ◌+◌, ◌/◌, Bool, true, false, not, ◌&&◌, List, [], ◌∷◌, ◌++◌, map, Option, none,
  some, Outcome, ok, err, length, traverse, if◌then◌else◌,
}
use lidb.Str.{Text, codes, contains, decimal}
use lidb.Errors.{Error, runtime_error}
use lidb.Action.{Action, done, pure, ◌>>=◌, ◌>>◌}
use lidb.Liorm.Embed.Binary.{Process}
use lidb.Bench.Percentile.{p95_of_tier, tier_position}
use lidb.Bench.Lab.{Lab, Floats, asked, run_checked, samples_of, for_range}

-- The module's constants, from the environment; numbers are natural.
pub record Settings : Type 0 where
  pub lidb_root : Text
  pub build_dir : Text
  pub embed_path : Text
  pub variant : Text
  pub read_iters : ℕ
  pub memory_clients : ℕ
  pub memory_seconds : ℕ
  pub parallel_clients : ℕ
  pub parallel_seconds : ℕ
  pub rls_harness : Bool

-- The SQL texts of seed_registry and collect_rows.
abbrev pub publisher_sql : Text → Text
publisher_sql pub_id =
    codes "INSERT INTO publishers (id, name, public_key) VALUES ('"
    ++ pub_id
    ++ codes "', 'bench-publisher', '00');"

abbrev pub package_sql : Text → Text
package_sql pkg_id =
    codes "INSERT INTO packages (id, name, description) VALUES ('"
    ++ pkg_id
    ++ codes "', 'li-bench', 'harness seed');"

abbrev pub version_sql : (ver_id pkg_id version digest pub_id : Text) → Text
version_sql ver_id pkg_id version digest pub_id =
    codes
      "INSERT INTO package_versions (id, package_id, version, tree_digest, coverage_pct, publisher_id) VALUES ('"
    ++ ver_id
    ++ codes "', '"
    ++ pkg_id
    ++ codes "', '"
    ++ version
    ++ codes "', '"
    ++ digest
    ++ codes "', 100.0, '"
    ++ pub_id
    ++ codes "');"

module _ {W F : Type 0} (lab : Lab W F) (set : Settings) where
  open lab use {make_dir, is_file, is_executable, uuid4}

  abbrev pub build_embed : Action W Unit
  build_embed = do
    asked (λ w. (tt, make_dir set.build_dir w))
    run_checked lab (
        codes "cmake"
        ∷ codes "-S"
        ∷ set.lidb_root
        ∷ codes "-B"
        ∷ set.build_dir
        ∷ codes "-DCMAKE_BUILD_TYPE=Release"
        ∷ [])
    run_checked lab (
        codes "cmake"
        ∷ codes "--build"
        ∷ set.build_dir
        ∷ codes "--target"
        ∷ codes "lidb_embed"
        ∷ codes "-j"
        ∷ [])

  unfoldable pub ensure_embed : Action W Text
  unfolding run_checked
  ensure_embed w =
      let build = build_embed >>= λ _. λ w'.
        (if not (is_file set.embed_path w')
          then (err runtime_error, w')
          else (ok set.embed_path, w')) in
      if is_file set.embed_path w && is_executable set.embed_path w
      then (ok set.embed_path, w)
      else build w

  unfoldable pub exec_sql : (embed data_dir sql : Text) → Action W Unit
  unfolding run_checked
  exec_sql embed data_dir sql = run_checked lab (embed ∷ codes "exec" ∷ data_dir ∷ sql ∷ [])

  -- The ids of the package and of the publisher.
  unfoldable pub seed_registry : (embed data_dir : Text) → Action W (Text × Text)
  unfolding exec_sql
  seed_registry embed data_dir = do
    pub_id ← asked uuid4
    pkg_id ← asked uuid4
    ver_id ← asked uuid4
    exec_sql embed data_dir (publisher_sql pub_id)
    exec_sql embed data_dir (package_sql pkg_id)
    exec_sql embed data_dir
        (version_sql ver_id pkg_id (codes "0.0.1-bench") (codes "sha256:bench") pub_id)
    done (pkg_id, pub_id)

  module _ (floats : Floats F) where
    open floats use {le, nothing, ratio}

    unfoldable pub time_query : (embed data_dir sql : Text) (iters : ℕ) → Action W F
    unfolding samples_of exec_sql p95_of_tier
    time_query embed data_dir sql iters = do
      samples ← samples_of (asked lab.perf_counter) floats iters (exec_sql embed data_dir sql)
      pure (p95_of_tier le nothing tier_position samples)
