-- ===== src/Bench/Collect.antt =====
-- collect_rows of scripts/bench/tier_db_csv_impl.py.
pub mod Catalog
use lidb.Base.{
  ℕ, ◌/◌, Bool, true, false, List, [], ◌∷◌, ◌++◌, map, Option, none, some, Outcome, ok, err, nat_eq,
  if◌then◌else◌,
}
use lidb.Str.{Text, codes}
use lidb.Errors.{Error, called_process_error}
use lidb.Action.{Action, done, pure, ◌>>=◌, ◌>>◌}
use lidb.Bench.Rows.{Row, base_row, blocked_row, measured_row}
use lidb.Bench.Percentile.{max}
use lidb.Bench.Lab.{Lab, Floats, asked, finally, run_checked}
use lidb.Bench.Measure.{Settings, ensure_embed, seed_registry, time_query, version_sql}
use lidb.Bench.Measure.Memory.{peak_rss_kib_darwin, measure_memory, measure_parallel_readers}
use lidb.Bench.Measure.Security.{Rate, measure_security}

-- A tuple of blocked_specs.
pub record BlockedSpec : Type 0 where
  pub benchmark : Text
  pub metric : Text
  pub unit : Text
  pub reason : Text

abbrev pub spec : Text → Text → Text → Text → BlockedSpec
spec benchmark metric unit reason = record {
  benchmark = benchmark;
  metric = metric;
  unit = unit;
  reason = reason;
}

abbrev pub blocked_specs : List BlockedSpec
blocked_specs =
    spec (codes "ann_qps_10k") (codes "queries_per_sec") (codes "qps")
      (codes "vector_ann_harness_pending")
    ∷ spec (codes "ann_recall_at_10_10k") (codes "recall_at_10") (codes "ratio")
        (codes "vector_ann_harness_pending")
    ∷ spec (codes "ann_recall_at_10_1m") (codes "recall_at_10") (codes "ratio")
        (codes "vector_ann_nightly_pending")
    ∷ spec (codes "gpu_ann_speedup_10k") (codes "speedup_ratio") (codes "ratio")
        (codes "gpu_harness_pending")
    ∷ spec (codes "gpu_ann_speedup_1m") (codes "speedup_ratio") (codes "ratio")
        (codes "gpu_harness_nightly_pending")
    ∷ spec (codes "graph_cycle_detect") (codes "latency_p95") (codes "ms")
        (codes "graph_registry_harness_pending")
    ∷ spec (codes "graph_dep_closure") (codes "latency_p95") (codes "ms")
        (codes "graph_registry_harness_pending")
    ∷ spec (codes "query_log_complete") (codes "completeness_ratio") (codes "ratio")
        (codes "audit_harness_pending")
    ∷ spec (codes "tamper_evidence") (codes "pass_rate") (codes "ratio")
        (codes "audit_harness_pending")
    ∷ spec (codes "ws_publish_latency") (codes "latency_p95") (codes "ms")
        (codes "realtime_harness_pending")
    ∷ []

abbrev pub by_name_sql : Text
by_name_sql = codes "SELECT id FROM packages WHERE name = 'li-bench';"

abbrev pub latest_sql : Text → Text
latest_sql pkg_id =
    codes "SELECT version FROM package_versions WHERE package_id = '" ++ pkg_id ++ codes "';"

module _ {W F : Type 0} (lab : Lab W F) (floats : Floats F) (set : Settings)
    (to_kib : Text → Option ℕ) where
  open lab use {make_temp_dir, remove_tree, uuid4, machine, printing}
  open floats use {le, of_kib}

  -- A row of p95 latencies.
  unfoldable pub latency_row : (benchmark : Text) (value : F) (flags : Text) → Row
  unfolding measured_row
  latency_row benchmark value flags =
      measured_row printing machine benchmark (codes "latency_p95") value (codes "ms") set.variant
        flags

  abbrev pub publish_flags : Text
  publish_flags = codes "lidb_embed_smoke_insert"

  -- except subprocess.CalledProcessError
  unfoldable pub publish_row : Outcome Error F → Outcome Error Row
  unfolding latency_row blocked_row
  publish_row (ok p95) = ok (latency_row (codes "registry_publish") p95 publish_flags)
  publish_row (err called_process_error) = ok (
      blocked_row printing machine (codes "registry_publish") (codes "latency_p95") (codes "ms")
        (codes "publish_insert_failed") set.variant)
  publish_row (err e) = err e

  abbrev pub tried : Outcome Error F × W → Outcome Error Row × W
  tried (r, w) = (publish_row r, w)

  unfoldable pub measure_publish : (embed data_dir pkg_id pub_id : Text) → Action W Row
  unfolding publish_row time_query
  measure_publish embed data_dir pkg_id pub_id = do
    ver_id ← asked uuid4
    let sql = version_sql ver_id pkg_id (codes "0.0.2-bench") (codes "sha256:bench2") pub_id
    let measured = time_query lab set floats embed data_dir sql (max 10 (set.read_iters / 4))
    λ w. tried (measured w)

  -- max(idle_mb, idle_kib / 1024.0) if idle_kib
  unfoldable pub idle_of : ℕ → F → F
  idle_of idle_kib idle_mb =
      if nat_eq idle_kib 0
      then idle_mb
      else if le (of_kib idle_kib) idle_mb
      then idle_mb
      else of_kib idle_kib

  abbrev pub rate_row : Text → Rate F → Row
  rate_row benchmark r =
      base_row printing machine benchmark (codes "lidb") (codes "pass_rate") r.value (codes "ratio")
        set.variant (some r.is_passed) r.flags

  -- The rows that are measured, or were to be.
  unfoldable pub measured_rows : (embed data_dir : Text) → Action W (List Row)
  unfolding run_checked seed_registry peak_rss_kib_darwin time_query latency_row measure_publish
      measure_memory idle_of measured_row measure_parallel_readers blocked_row measure_security
      base_row
  measured_rows embed data_dir = do
    run_checked lab (embed ∷ codes "open" ∷ data_dir ∷ [])
    run_checked lab (embed ∷ codes "migrate" ∷ data_dir ∷ [])
    (pkg_id, pub_id) ← seed_registry lab set embed data_dir
    idle_kib ← peak_rss_kib_darwin lab set to_kib (embed ∷ codes "migrate" ∷ data_dir ∷ [])
    by_name ← time_query lab set floats embed data_dir by_name_sql set.read_iters
    latest ← time_query lab set floats embed data_dir (latest_sql pkg_id) set.read_iters
    publish ← measure_publish embed data_dir pkg_id pub_id
    (idle_mb, peak_mb) ← measure_memory lab set to_kib floats embed data_dir
    ops ← measure_parallel_readers lab set floats embed data_dir
    (inj, rls) ← measure_security lab set floats
    done (
        latency_row (codes "registry_read_by_name") by_name (codes "lidb_embed_smoke")
        ∷ latency_row (codes "registry_read_latest") latest (codes "lidb_embed_smoke")
        ∷ publish
        ∷ measured_row printing machine (codes "rss_idle") (codes "rss_mb")
            (idle_of idle_kib idle_mb) (codes "mb") set.variant []
        ∷ measured_row printing machine (codes "rss_peak_load") (codes "rss_mb") peak_mb
            (codes "mb") set.variant []
        ∷ measured_row printing machine (codes "concurrent_readers") (codes "ops_per_sec") ops
            (codes "ops") set.variant (codes "lidb_embed_parallel")
        ∷ blocked_row printing machine (codes "concurrent_writers") (codes "ops_per_sec")
            (codes "ops") (codes "writer_scalability_pending") set.variant
        ∷ rate_row (codes "injection_blocked") inj
        ∷ rate_row (codes "rls_bypass_blocked") rls
        ∷ [])

  abbrev pub blocked_rows : List BlockedSpec → List Row
  blocked_rows =
      map (λ s. blocked_row printing machine s.benchmark s.metric s.unit s.reason set.variant)

  abbrev pub with_blocked : List Row → Action W (List Row)
  with_blocked rows = done (rows ++ blocked_rows blocked_specs)

  -- What follows mkdtemp in collect_rows.
  abbrev pub collect_in : (embed data_dir : Text) → Action W (List Row)
  collect_in embed data_dir =
      finally (measured_rows embed data_dir) (remove_tree data_dir) >>= with_blocked

  unfoldable pub collect_rows : Action W (List Row)
  unfolding ensure_embed measured_rows
  collect_rows = do
    embed ← ensure_embed lab set
    data_dir ← asked make_temp_dir
    collect_in embed data_dir
