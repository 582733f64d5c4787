-- ===== src/Bench/Compare/Run.antt =====
-- The loop of run_compare over the scenarios, and run_compare.
use lidb.Base.{ℕ, Bool, true, false, List, [], ◌∷◌, Option, none, some, Outcome, if◌then◌else◌}
use lidb.Str.{Text, codes, ◌==◌}
use lidb.Errors.{Error}
use lidb.Action.{Action, done, ◌>>=◌, ◌>>◌}
use lidb.Liorm.Embed.Binary.{non_empty}
use lidb.Bench.Percentile.{min}
use lidb.Bench.Lab.{Floats, asked}
use lidb.Bench.Rig.{
  Rig, embed_binary, build_embed, or_build, close, lidb_exec, lidb_open_migrate, pg_connect,
  pg_seed,
}
use lidb.Bench.Compare.{
  Ratios, Scenario, scenarios, Counted, CompareRow, Comparison, on_world, time_fn, compare_row,
  lidb_fn, pg_fn,
}

module _ {W F : Type 0} (rig : Rig W F) (floats : Floats F) (ratios : Ratios F)
    (threshold : F) where
  -- One call of time_fn on the rig's clock.
  abbrev pub time_on : Action (Counted W) Unit → (warmup measure : ℕ) → Action (Counted W) (F × F)
  time_on fn warmup measure =
      time_fn floats ratios (on_world (asked rig.perf_counter)) fn warmup measure

  -- The Postgres time of a scenario, if there is a cursor.
  unfoldable pub pg_time : Bool → Scenario → (warmup measure : ℕ) → Action (Counted W) (Option F)
  unfolding time_fn pg_fn
  pg_time false sid warmup measure = done none
  pg_time true sid warmup measure =
      time_on (pg_fn rig sid) warmup measure >>= λ (t : F × F). done (some t.1)

  unfoldable pub measure_scenario :
      (lidb_dir : Text) (has_pg : Bool) (warmup measure : ℕ)
      → Scenario
      → Action (Counted W) (CompareRow F)
  unfolding pg_time lidb_fn time_fn compare_row
  measure_scenario lidb_dir has_pg warmup measure sid = do
    times ← time_on (lidb_fn rig lidb_dir sid) warmup measure
    p95_p ← pg_time has_pg sid warmup measure
    done (compare_row floats ratios threshold sid times has_pg p95_p)

  -- The loop over SCENARIOS.
  unfoldable pub measure_all :
      (lidb_dir : Text) (has_pg : Bool) (warmup measure : ℕ)
      → List Scenario
      → Action (Counted W) (List (CompareRow F))
  unfolding measure_scenario
  measure_all lidb_dir has_pg warmup measure [] = done []
  measure_all lidb_dir has_pg warmup measure (sid ∷ sids) = do
    row ← measure_scenario lidb_dir has_pg warmup measure sid
    rows ← measure_all lidb_dir has_pg warmup measure sids
    done (row ∷ rows)

  -- The three inserts before the measurements.
  unfoldable pub seed_lidb : Text → Action W Unit
  unfolding lidb_exec
  seed_lidb lidb_dir = do
    lidb_exec rig lidb_dir (codes "INSERT INTO publishers (id, name, public_key) VALUES (?, ?, ?)")
        (codes "1" ∷ codes "bench-pub" ∷ codes "00" ∷ [])
    lidb_exec rig lidb_dir (codes "INSERT INTO packages (id, name) VALUES (?, ?)")
        (codes "1" ∷ codes "bench-pkg" ∷ [])
    lidb_exec rig lidb_dir
        (codes
          "INSERT INTO package_versions (id, package_id, version, tree_digest, coverage_pct, publisher_id, yanked) VALUES (?, ?, ?, ?, ?, ?, ?)")
        (codes "1"
          ∷ codes "1"
          ∷ codes "0.1.0"
          ∷ codes "sha256:tree"
          ∷ codes "90"
          ∷ codes "1"
          ∷ codes "0"
          ∷ [])

  abbrev pub seed_if : Bool → Action W Unit
  seed_if false = done tt
  seed_if true = pg_seed rig

  abbrev pub close_if : Bool → Action W Unit
  close_if false = done tt
  close_if true = rig.pg close

  -- warmup and measure, which the profile ci limits
  abbrev pub limited : (profile : Text) (limit n : ℕ) → ℕ
  limited profile limit n = if profile == codes "ci" then min n limit else n

  -- The directory of lidb, and whether there is Postgres.
  unfoldable pub set_up : Action W (Text × Bool)
  unfolding lidb_open_migrate seed_lidb pg_seed
  set_up = do
    lidb_dir ← asked rig.make_temp_dir
    lidb_open_migrate rig lidb_dir
    seed_lidb lidb_dir
    has_pg ← pg_connect rig (non_empty rig.database_url)
    seed_if has_pg
    done (lidb_dir, has_pg)

  -- The measurements, from the counters at their start, and what is left of them.
  unfoldable pub measured :
      (warmup measure : ℕ) → (Text × Bool) → Action (Counted W) (List (CompareRow F))
  unfolding measure_all
  measured warmup measure (lidb_dir, has_pg) = measure_all lidb_dir has_pg warmup measure scenarios

  abbrev pub dropped :
      Outcome Error (List (CompareRow F)) × Counted W → Outcome Error (List (CompareRow F)) × W
  dropped (r, c) = (r, c.world)

  unfoldable pub run_compare : (profile : Text) (warmup measure : ℕ) → Action W (Comparison F)
  unfolding set_up measured
  run_compare profile warmup measure = do
    (lidb_dir, has_pg) ← set_up
    rows ← λ w. dropped (
        measured (limited profile 5 warmup) (limited profile 30 measure) (lidb_dir, has_pg)
          (record { world = w; pub_n = 1; pg_pub_n = 1000 }))
    close_if has_pg
    done (record {
      engine_mode = if has_pg then codes "lidb_vs_postgres" else codes "lidb_only";
      profile = profile;
      threshold = threshold;
      rows = rows;
    })

  -- What main does once it has looked for lidb_embed; what it writes and prints is left out.
  unfoldable pub main_with : (profile : Text) (warmup measure : ℕ) → Option Text → Action W ℕ
  unfolding run_compare
  main_with profile warmup measure none = done 1
  main_with profile warmup measure (some exe) = run_compare profile warmup measure >>= λ _. done 0

  -- main, whose result is the exit code
  unfoldable pub compare_main : (profile : Text) (warmup measure : ℕ) → Action W ℕ
  unfolding embed_binary build_embed main_with
  compare_main profile warmup measure w =
      (or_build rig (embed_binary rig w) >>= main_with profile warmup measure) w
