-- ===== src/Bench/Compare.antt =====
-- run_compare of scripts/bench/registry_oltp_compare.py.
pub mod Run
pub mod Published
pub mod Transcript
pub mod Sending
use lidb.Base.{
  ℕ, zero, suc, ◌+◌, ◌-◌, ◌/◌, ◌%◌, Bool, true, false, not, ◌&&◌, List, [], ◌∷◌, ◌++◌, Option, none,
  some, Outcome, ok, err, length, nat_eq, if◌then◌else◌,
}
use lidb.Str.{Text, codes, decimal, ◌==◌}
use lidb.Errors.{Error, value_error}
use lidb.Action.{Action, done, pure, ◌>>=◌, ◌>>◌}
use lidb.Liorm.Embed.Binary.{non_empty}
use lidb.Bench.Percentile.{sorted, item, min, p95_of_compare, compare_position}
use lidb.Bench.Lab.{Floats, asked, for_range, samples_of}
use lidb.Bench.Rig.{
  Rig, PgCall, execute, fetchone, commit, close, lidb_exec, lidb_open_migrate, pg_connect, pg_seed,
}

-- What the comparison needs of float besides: (x + y) / 2, x / y, x > 0, x == 0.0 and round(x, n).
pub record Ratios (F : Type 0) : Type 0 where
  pub mean : F → F → F
  pub divide : F → F → F
  pub is_positive : F → Bool
  pub is_zero : F → Bool
  pub round : F → ℕ → F

-- SCENARIOS
pub data Scenario : Type 0 where
  registry_publish registry_read_by_name registry_read_latest : Scenario

abbrev pub scenarios : List Scenario
scenarios = registry_publish ∷ registry_read_by_name ∷ registry_read_latest ∷ []

abbrev pub scenario_name : Scenario → Text
scenario_name registry_publish = codes "registry_publish"
scenario_name registry_read_by_name = codes "registry_read_by_name"
scenario_name registry_read_latest = codes "registry_read_latest"

-- The state with pub_n["n"] and pg_pub_n["n"].
pub record Counted (W : Type 0) : Type 0 where
  pub world : W
  pub pub_n : ℕ
  pub pg_pub_n : ℕ

pub record CompareRow (F : Type 0) : Type 0 where
  pub benchmark : Text
  pub lidb_p95_ms : F
  pub lidb_p50_ms : F
  pub postgres_p95_ms : Option F
  pub ratio_vs_postgres : Option F
  pub threshold : F
  pub status : Text

pub record Comparison (F : Type 0) : Type 0 where
  pub engine_mode : Text
  pub profile : Text
  pub threshold : F
  pub rows : List (CompareRow F)

module _ {W : Type 0} where
  -- A step that leaves the counters alone.
  abbrev pub on_world : {A : Type 0} → Action W A → Action (Counted W) A
  on_world m c = let (r, w) = m c.world in (r, record c { world = w })

module _ {F : Type 0} (floats : Floats F) (ratios : Ratios F) where
  open floats use {le, nothing}
  open ratios use {mean, divide, is_positive, is_zero, round}

  -- The middle of sorted samples, by their number.
  abbrev pub middle : ℕ → List F → Outcome Error F
  middle n ordered =
      let upper = item (n / 2) ordered in
      let lower = item (n / 2 - 1) ordered in
      if nat_eq (n % 2) 1
      then upper
      else elim lower [ err e ↦ err e | ok x ↦ elim upper [ err e ↦ err e | ok y ↦ ok (mean x y) ] ]

  -- statistics.median, whose StatisticsError is a ValueError
  unfoldable pub median : List F → Outcome Error F
  unfolding sorted item
  median [] = err value_error
  median (x ∷ xs) = middle (length (x ∷ xs)) (sorted le (x ∷ xs))

  abbrev pub both : Outcome Error F → Outcome Error F → Outcome Error (F × F)
  both (err e) _ = err e
  both (ok x) (err e) = err e
  both (ok x) (ok y) = ok (x, y)

  unfoldable pub time_fn :
      {S : Type 0} → Action S F → Action S Unit → (warmup measure : ℕ) → Action S (F × F)
  unfolding for_range samples_of median p95_of_compare
  time_fn perf_counter fn warmup measure = do
    for_range warmup fn
    samples ← samples_of perf_counter floats measure fn
    pure (both (median samples) (p95_of_compare le nothing compare_position samples))

  -- The ratio, if the Postgres time is there and positive.
  unfoldable pub ratio_of : F → Option F → Option F
  ratio_of p95_l none = none
  ratio_of p95_l (some p95_p) =
      if not (is_zero p95_p) && is_positive p95_p then some (round (divide p95_l p95_p) 4) else none

  abbrev pub verdict : F → Option F → Text
  verdict threshold none = codes "measured"
  verdict threshold (some ratio) = if le ratio threshold then codes "passed" else codes "failed"

  -- round(p95_p, 4) if p95_p else None
  abbrev pub shown : Option F → Option F
  shown none = none
  shown (some p95_p) = if is_zero p95_p then none else some (round p95_p 4)

  -- The row of a scenario; without a cursor there is no Postgres time, and the status is unknown.
  unfoldable pub compare_row : F → Scenario → (F × F) → (has_pg : Bool) → Option F → CompareRow F
  unfolding ratio_of
  compare_row threshold sid (p50_l, p95_l) has_pg p95_p = record {
    benchmark = scenario_name sid;
    lidb_p95_ms = round p95_l 4;
    lidb_p50_ms = round p50_l 4;
    postgres_p95_ms = shown p95_p;
    ratio_vs_postgres = ratio_of p95_l p95_p;
    threshold = threshold;
    status = if has_pg then verdict threshold (ratio_of p95_l p95_p) else codes "unknown";
  }

module _ {W F : Type 0} (rig : Rig W F) where
  -- What each function of the source sends, for the number of the version.
  abbrev pub send_version : Text → ℕ → Action W Unit
  send_version lidb_dir n =
      lidb_exec rig lidb_dir
        (codes
          "INSERT INTO package_versions (package_id, version, tree_digest, coverage_pct, publisher_id) VALUES (?, ?, ?, ?, ?)")
        (codes "1"
          ∷ (codes "0.0." ++ decimal n)
          ∷ (codes "sha256:t" ++ decimal n)
          ∷ codes "90"
          ∷ codes "1"
          ∷ [])

  abbrev pub send_by_name : Text → Action W Unit
  send_by_name lidb_dir =
      lidb_exec rig lidb_dir (codes "SELECT id, name FROM packages WHERE name = ?")
        (codes "bench-pkg" ∷ [])

  abbrev pub send_latest : Text → Action W Unit
  send_latest lidb_dir =
      lidb_exec rig lidb_dir
        (codes
          "SELECT pv.version FROM package_versions pv JOIN packages p ON p.id = pv.package_id WHERE p.name = ?")
        (codes "bench-pkg" ∷ [])

  -- lidb_publish: each call publishes the next version.
  unfoldable pub lidb_publish : Text → Action (Counted W) Unit
  unfolding lidb_exec decimal
  lidb_publish lidb_dir c =
      let n = c.pub_n + 1 in on_world (send_version lidb_dir n) (record c { pub_n = n })

  unfoldable pub lidb_fn : Text → Scenario → Action (Counted W) Unit
  unfolding lidb_publish lidb_exec
  lidb_fn lidb_dir registry_publish = lidb_publish lidb_dir
  lidb_fn lidb_dir registry_read_by_name = on_world (send_by_name lidb_dir)
  lidb_fn lidb_dir registry_read_latest = on_world (send_latest lidb_dir)

  abbrev pub pg_send_version : ℕ → Action W Unit
  pg_send_version n =
      rig.pg (
        execute
          (codes
            "INSERT INTO package_versions (package_id, version, tree_digest, coverage_pct) VALUES ((SELECT id FROM packages WHERE name=%s), %s, %s, %s)")
          (codes "bench-pkg"
            ∷ (codes "0.0." ++ decimal n)
            ∷ (codes "sha256:t" ++ decimal n)
            ∷ codes "90.0"
            ∷ []))
      >> rig.pg commit

  abbrev pub pg_by_name : Action W Unit
  pg_by_name =
      rig.pg
        (execute (codes "SELECT id, name FROM packages WHERE name=%s") (codes "bench-pkg" ∷ []))
      >> rig.pg fetchone

  abbrev pub pg_latest : Action W Unit
  pg_latest =
      rig.pg (
        execute
          (codes "\n                    SELECT pv.version FROM package_versions pv\n"
            ++ codes "                    JOIN packages p ON p.id = pv.package_id\n"
            ++ codes "                    WHERE p.name = %s ORDER BY pv.published_at DESC LIMIT 1\n"
            ++ codes "                    ")
          (codes "bench-pkg" ∷ []))
      >> rig.pg fetchone

  unfoldable pub pg_publish : Action (Counted W) Unit
  unfolding decimal
  pg_publish c = let n = c.pg_pub_n + 1 in on_world (pg_send_version n) (record c { pg_pub_n = n })

  unfoldable pub pg_fn : Scenario → Action (Counted W) Unit
  unfolding pg_publish
  pg_fn registry_publish = pg_publish
  pg_fn registry_read_by_name = on_world pg_by_name
  pg_fn registry_read_latest = on_world pg_latest
