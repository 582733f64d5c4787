-- ===== src/Bench/Tiers.antt =====
-- split_by_tier and emit_all of scripts/bench/emit_csv.py. Files are a dict from paths to contents.
pub mod Split
pub mod Written
use lidb.Base.{List, [], ◌∷◌, ◌++◌, Option, none, some}
use lidb.Str.{Text, codes}
use lidb.Dict.{Dict, lookup, put}
use lidb.Bench.Rows.{Row}
use lidb.Bench.Csv.{csv_text}

abbrev pub tier_dirs : Dict Text
tier_dirs =
    (codes "ann_qps_10k", codes "tier_db_vector_ann")
    ∷ (codes "ann_recall_at_10_10k", codes "tier_db_vector_ann")
    ∷ (codes "ann_recall_at_10_1m", codes "tier_db_vector_ann")
    ∷ (codes "gpu_ann_speedup_10k", codes "tier_db_gpu_speedup")
    ∷ (codes "gpu_ann_speedup_1m", codes "tier_db_gpu_speedup")
    ∷ (codes "graph_cycle_detect", codes "tier_db_graph_registry")
    ∷ (codes "graph_dep_closure", codes "tier_db_graph_registry")
    ∷ (codes "registry_publish", codes "tier_db_registry")
    ∷ (codes "registry_read_by_name", codes "tier_db_registry")
    ∷ (codes "registry_read_latest", codes "tier_db_registry")
    ∷ (codes "injection_blocked", codes "tier_db_security")
    ∷ (codes "rls_bypass_blocked", codes "tier_db_security")
    ∷ (codes "rss_idle", codes "tier_db_memory")
    ∷ (codes "rss_peak_load", codes "tier_db_memory")
    ∷ (codes "concurrent_readers", codes "tier_db_parallel")
    ∷ (codes "concurrent_writers", codes "tier_db_parallel")
    ∷ (codes "query_log_complete", codes "tier_db_audit")
    ∷ (codes "tamper_evidence", codes "tier_db_audit")
    ∷ (codes "ws_publish_latency", codes "tier_db_realtime")
    ∷ []

abbrev pub Buckets : Type 0
Buckets = Dict (List Row)

abbrev pub or_empty : Option (List Row) → List Row
or_empty none = []
or_empty (some rows) = rows

-- buckets.setdefault(tier, []).append(row)
unfoldable pub add_to : Text → Row → Buckets → Buckets
add_to tier row buckets = put tier (or_empty (lookup tier buckets) ++ row ∷ []) buckets

-- A row of a benchmark that is in no tier is left out.
abbrev pub add_known : Option Text → Row → Buckets → Buckets
add_known none row buckets = buckets
add_known (some tier) row buckets = add_to tier row buckets

-- The loop over the rows.
unfoldable pub fill : List Row → Buckets → Buckets
unfolding add_to
fill [] buckets = buckets
fill (row ∷ rows) buckets = fill rows (add_known (lookup row.benchmark tier_dirs) row buckets)

-- str(bench_root / tier / "results" / "latest.csv"), for a root with no slash at its end
unfoldable pub csv_path : Text → Text → Text
csv_path bench_root tier = (bench_root ++ codes "/") ++ tier ++ codes "/results/latest.csv"

-- The loop over the buckets.
unfoldable pub under_paths : Text → Buckets → Buckets → Buckets
unfolding csv_path
under_paths bench_root [] out = out
under_paths bench_root ((tier, rows) ∷ buckets) out =
    under_paths bench_root buckets (put (csv_path bench_root tier) rows out)

unfoldable pub split_by_tier : List Row → Text → Buckets
unfolding fill under_paths
split_by_tier rows bench_root = under_paths bench_root (fill rows []) []

-- write_csv on the path: the file is written anew.
unfoldable pub write_csv : Text → List Row → Dict Text → Dict Text
unfolding csv_text
write_csv path rows files = put path (csv_text rows) files

-- The loop of emit_all, with the paths that it returns.
unfoldable pub write_all : Buckets → Dict Text → List Text × Dict Text
unfolding write_csv
write_all [] files = ([], files)
write_all ((path, rows) ∷ buckets) files =
    let (paths, files') = write_all buckets (write_csv path rows files) in (path ∷ paths, files')

unfoldable pub emit_all : List Row → Text → Dict Text → List Text × Dict Text
unfolding split_by_tier write_all
emit_all rows bench_root files = write_all (split_by_tier rows bench_root) files
