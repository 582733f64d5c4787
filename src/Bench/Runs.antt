-- ===== src/Bench/Runs.antt =====
-- The theorems on the measuring scripts applied to a machine on which every program succeeds.
use lidb.Base.{
  ℕ, suc, ◌+◌, ◌-◌, ◌*◌, ◌/◌, ◌≡◌, refl, true, false, leb, List, [], ◌∷◌, ◌++◌, none, some, ok,
  arith, Ensures, if◌then◌else◌,
}
use lidb.Str.{Text, codes, ◌==◌, contains, starts_with, is_space, split}
use lidb.Bench.Percentile.{
  min, p95_of_tier, p95_of_compare, sorted, item, tier_position, compare_position,
}
use lidb.Bench.Percentile.Rank.{IsOrder, HasRank, p95_of_tier-HasRank, p95_of_compare-HasRank}
use lidb.Bench.Lab.{Lab, Floats}
use lidb.Bench.Measure.{Settings}
use lidb.Bench.Measure.Memory.{first_rss, splitlines}
use lidb.Bench.Rig.{Rig}
use lidb.Bench.Compare.{Ratios, Counted, CompareRow, scenarios}
use lidb.Bench.Compare.Run.{measured}
use lidb.Bench.Compare.Transcript.{Sent, to_pg, said, IsRecorded, Followed}
use lidb.Bench.Compare.Published.{compare_script, measured-Follows}
use lidb.Bench.Collect.{collect_rows}
use lidb.Bench.Collect.Catalog.{IsCatalog, collect_rows-IsCatalog}

leb-IsOrder : IsOrder leb
leb-IsOrder = record { total = λ x y h. ground arith; trans = λ x y z h k. ground arith }

p95_of_tier-HasRank_example :
    (x : ℕ) × (p95_of_tier leb 0 tier_position (30 ∷ 10 ∷ 20 ∷ []) ≡ ok x)
    × HasRank leb (min 2 (tier_position 3)) (30 ∷ 10 ∷ 20 ∷ []) x
p95_of_tier-HasRank_example = p95_of_tier-HasRank leb leb-IsOrder 0 tier_position 30 (10 ∷ 20 ∷ [])

p95_runs : p95_of_tier leb 0 tier_position (30 ∷ 10 ∷ 20 ∷ []) ≡ ok 30
unfolding p95_of_tier sorted item
p95_runs = refl

p95_of_compare-HasRank_example :
    (x : ℕ) × (p95_of_compare leb 0 compare_position (30 ∷ 10 ∷ 20 ∷ []) ≡ ok x)
    × HasRank leb (compare_position 2) (30 ∷ 10 ∷ 20 ∷ []) x
p95_of_compare-HasRank_example =
    p95_of_compare-HasRank leb leb-IsOrder 0 compare_position 30 (10 ∷ 20 ∷ []) (omega arith)

-- The report of time -l on macOS has the number in front of the phrase, so that the last word of the line
-- is no number, and the size is given as 0.
macos_rss_is_lost :
    first_rss
      (λ t. if t == codes "size" then none else some 1560)
      (splitlines (codes "  0.00 real\n  1597440  maximum resident set size\n"))
    ≡ 0
unfolding first_rss splitlines contains starts_with split is_space ◌==◌
macos_rss_is_lost = refl

abbrev succeeding : Lab ℕ ℕ
succeeding = record {
  perf_counter = λ n. (n, suc n);
  run = λ args n. (ok (record { succeeded = true; stdout = []; stderr = [] }), suc n);
  uuid4 = λ n. (codes "0000-0000", suc n);
  make_temp_dir = λ n. (codes "/tmp/d", n);
  remove_tree = λ dir n. n;
  make_dir = λ dir n. n;
  is_file = λ path n. true;
  is_executable = λ path n. true;
  rounds_within = λ seconds n. (seconds, n);
  rls_scripts = λ n. [];
  machine = record { system = codes "Linux"; architecture = codes "x86_64"; git_output = none };
  printing = record { round = λ x n. x; show = λ x. codes "7.0" };
}

abbrev whole : Floats ℕ
whole = record {
  le = leb;
  nothing = 0;
  minus = λ x y. x - y;
  thousandfold = λ x. x * 1000;
  of_kib = λ n. n / 1024;
  ratio = λ n d. n / d;
}

abbrev settings : Settings
settings = record {
  lidb_root = codes "/lidb";
  build_dir = codes "/lidb/build/bench";
  embed_path = codes "/lidb/build/bench/lidb_embed";
  variant = codes "ci";
  read_iters = 3;
  memory_clients = 2;
  memory_seconds = 1;
  parallel_clients = 2;
  parallel_seconds = 1;
  rls_harness = false;
}

collect_rows-IsCatalog_example :
    Ensures IsCatalog (collect_rows succeeding whole settings (λ _. none) 0).0
collect_rows-IsCatalog_example = collect_rows-IsCatalog succeeding whole settings (λ _. none) 0

-- A system whose state is the log itself, with a clock that stands still.
abbrev rig : Rig (List Sent) ℕ
rig = record {
  perf_counter = λ log. (0, log);
  root = codes "/lidb";
  embed_variable = none;
  database_url = none;
  is_file = λ path log. true;
  make_dir = λ path log. log;
  make_temp_dir = λ log. (codes "/tmp/d", log);
  call = λ args input log.
      (ok (record { succeeded = true; stdout = []; stderr = [] }), log ++ said args input);
  connect = λ url log. (ok true, log);
  pg = λ call log. (ok tt, log ++ to_pg call ∷ []);
}

rig-IsRecorded : IsRecorded rig (λ log. log)
rig-IsRecorded = record {
  clock = λ w. refl;
  new_dir = λ path w. refl;
  called = λ args input w h. cc;
  pg_called = λ call w h. cc;
}

abbrev ratios : Ratios ℕ
ratios = record {
  mean = λ x y. (x + y) / 2;
  divide = λ x y. x / y;
  is_positive = λ x. leb 1 x;
  is_zero = λ x. leb x 0;
  round = λ x n. x;
}

abbrev counted : Counted (List Sent)
counted = record { world = []; pub_n = 1; pg_pub_n = 1000 }

abbrev measured_row : Text → CompareRow ℕ
measured_row name = record {
  benchmark = name;
  lidb_p95_ms = 0;
  lidb_p50_ms = 0;
  postgres_p95_ms = none;
  ratio_vs_postgres = none;
  threshold = 1;
  status = codes "measured";
}

abbrev measured_rows : List (CompareRow ℕ)
measured_rows =
    measured_row (codes "registry_publish")
    ∷ measured_row (codes "registry_read_by_name")
    ∷ measured_row (codes "registry_read_latest")
    ∷ []

measured_returns :
    measured rig whole ratios 1 1 1 (codes "/tmp/d", true) counted
    ≡ (ok measured_rows, (measured rig whole ratios 1 1 1 (codes "/tmp/d", true) counted).1)
unfolding measured p95_of_compare sorted item
measured_returns = refl

measured-Follows_example :
    Followed
      (λ log. log)
      (compare_script true 2 scenarios)
      counted
      (measured rig whole ratios 1 1 1 (codes "/tmp/d", true) counted).1
measured-Follows_example =
    measured-Follows rig (λ log. log) rig-IsRecorded whole ratios 1 (codes "/tmp/d") true 1 1
      counted measured_returns
