-- ===== src/Bench/Examples.antt =====
-- The theorems on the benchmark scripts applied to small rows, scenarios and samples.
use lidb.Base.{ℕ, ◌≡◌, ◌↔◌, refl, true, ◌||◌, all, [], ◌∷◌, map, some, ok}
use lidb.Str.{Text, codes, strip, ◌==◌, is_space}
use lidb.Dict.{lookup, put, elem}
use lidb.Json.{Json, str, null, object}
use lidb.Liq.Parser.{lower}
use lidb.Liorm.Audit.{without}
use lidb.Bench.Rows.{Printing, Machine, Row, blocked_row, measured_row}
use lidb.Bench.Csv.{fieldnames, row_fields, csv_text}
use lidb.Bench.Csv.Reader.{read_csv, read_csv-csv_text}
use lidb.Bench.Tiers.{csv_path, emit_all}
use lidb.Bench.Tiers.Split.{rows_of, any_rows}
use lidb.Bench.Tiers.Written.{written_or, emit_all-lookup}
use lidb.Bench.Harness.{
  Scenario, status_of, is_status, has_status, status_from, failing, stubbed, passing, emit,
  payload_of,
}
use lidb.Bench.Harness.Verdict.{status_from_iff}
use lidb.Bench.Harness.Exit.{emit-red}

-- Whole numbers as floats.
abbrev whole : Printing ℕ
whole = record { round = λ x n. x; show = λ x. codes "7.0" }

abbrev machine : Machine
machine = record {
  system = codes "Linux";
  architecture = codes "x86_64";
  git_output = some (codes "abc123\n");
}

abbrev read_row : Row
read_row =
    measured_row whole machine (codes "registry_read_latest") (codes "latency_p95") 7 (codes "ms")
      (codes "a,\"b\"") []

abbrev rss_row : Row
rss_row =
    blocked_row whole machine (codes "rss_idle") (codes "rss_mb") (codes "mb") (codes "x")
      (codes "ci")

abbrev unknown_row : Row
unknown_row =
    blocked_row whole machine (codes "other") (codes "m") (codes "u") (codes "x") (codes "ci")

row_is_quoted :
    csv_text (read_row ∷ [])
    ≡ codes
        "benchmark,lang,variant,threads,metric,value,unit,git_sha,cpu_model,flags,passed,os\r\nregistry_read_latest,lidb,\"a,\"\"b\"\"\",1,latency_p95,7.0,ms,abc123,x86_64,,true,linux\r\n"
unfolding csv_text measured_row strip ◌==◌ is_space lower
row_is_quoted = refl

read_csv-csv_text_example :
    read_csv (csv_text (read_row ∷ rss_row ∷ []))
    ≡ fieldnames ∷ map row_fields (read_row ∷ rss_row ∷ [])
read_csv-csv_text_example = read_csv-csv_text (read_row ∷ rss_row ∷ [])

emit_all-lookup_example :
    lookup
      (csv_path (codes "b") (codes "tier_db_memory"))
      (emit_all (read_row ∷ unknown_row ∷ rss_row ∷ []) (codes "b") []).1
    ≡ written_or
        (any_rows (rows_of (codes "tier_db_memory") (read_row ∷ unknown_row ∷ rss_row ∷ [])))
        (lookup (csv_path (codes "b") (codes "tier_db_memory")) [])
emit_all-lookup_example =
    emit_all-lookup (read_row ∷ unknown_row ∷ rss_row ∷ []) (codes "b") (codes "tier_db_memory") []

abbrev scenario : Text → Scenario
scenario status =
    (codes "id", str (codes "s"))
    ∷ (codes "status", str status)
    ∷ (codes "lidb", object ((codes "p95", null) ∷ []))
    ∷ []

status_from_iff_example :
    (let xs = map status_of (scenario (codes "green") ∷ scenario (codes "stub") ∷ []) in
      ((status_from xs ≡ failing) ↔ (has_status (codes "red") xs ≡ true))
      × ((status_from xs ≡ stubbed) ↔ (all (is_status (codes "stub")) xs ≡ true))
      × ((status_from xs ≡ passing) ↔ (
          (all (λ x. is_status (codes "stub") x || is_status (codes "green") x) xs ≡ true)
          × (has_status (codes "green") xs ≡ true))))
status_from_iff_example =
    status_from_iff (map status_of (scenario (codes "green") ∷ scenario (codes "stub") ∷ []))

-- The two scenarios as build_payload leaves them.
abbrev moved : Text → Scenario
moved status =
    (codes "id", str (codes "s"))
    ∷ (codes "status", str status)
    ∷ (
      codes "engines",
      object ((codes "lidb", object ((codes "p95", null) ∷ [])) ∷ (codes "postgres", null) ∷ []),
    )
    ∷ []

abbrev ran : Json
ran =
    payload_of (codes "2026-01-01") (codes "tier_db_audit") (codes "ci") (codes "1") failing
      (moved (codes "green") ∷ moved (codes "red") ∷ [])

emits :
    emit
      (codes "2026-01-01")
      (codes "tier_db_audit")
      (codes "ci")
      (codes "1")
      (scenario (codes "green") ∷ scenario (codes "red") ∷ [])
    ≡ ok (1, ran)
unfolding emit lookup put elem ◌==◌ without
emits = refl

emit-red_example : (◌≡◌ {A = ℕ} 1 1) ↔ (
    has_status
      (codes "red")
      (map status_of (scenario (codes "green") ∷ scenario (codes "red") ∷ []))
    ≡ true)
emit-red_example =
    emit-red (codes "2026-01-01") (codes "tier_db_audit") (codes "ci") (codes "1")
      (scenario (codes "green") ∷ scenario (codes "red") ∷ []) emits
