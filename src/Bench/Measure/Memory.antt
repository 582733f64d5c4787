-- ===== src/Bench/Measure/Memory.antt =====
-- peak_rss_kib_darwin, measure_memory and measure_parallel_readers of scripts/bench/tier_db_csv_impl.py.
-- The threads of a pool run one after the other.
use lidb.Base.{
  ℕ, zero, suc, ◌+◌, Bool, true, false, ◌||◌, ◌&&◌, List, [], ◌∷◌, ◌++◌, Option, none, some,
  Outcome, ok, err, nat_eq, leb, if◌then◌else◌,
}
use lidb.Str.{Text, codes, contains, split}
use lidb.Errors.{Error}
use lidb.Action.{Action, done, caught, ◌>>=◌, ◌>>◌}
use lidb.Bench.Percentile.{max}
use lidb.Bench.Lab.{Lab, Floats, asked, for_range}
use lidb.Bench.Measure.{Settings, exec_sql}

-- A character that ends a line for splitlines.
unfoldable pub ends_line : ℕ → Bool
ends_line c =
    leb 10 c && leb c 13
    || leb 28 c && leb c 30
    || nat_eq c 0x85
    || nat_eq c 0x2028
    || nat_eq c 0x2029

-- The line read so far, if the text does not end behind a line.
abbrev pub last_line : Text → List Text
last_line [] = []
last_line (c ∷ cs) = (c ∷ cs) ∷ []

-- Behind a carriage return a line feed belongs to the same end.
unfoldable pub split_lines : Bool → Text → Text → List Text
unfolding ends_line
split_lines after_cr line [] = last_line line
split_lines after_cr line (c ∷ cs) =
    let skipped = split_lines false line cs in
    let ended = line ∷ split_lines (nat_eq c b'\r') [] cs in
    let longer = split_lines false (line ++ c ∷ []) cs in
    if after_cr && nat_eq c b'\n' then skipped else if ends_line c then ended else longer

-- s.splitlines()
unfoldable pub splitlines : Text → List Text
unfolding split_lines
splitlines s = split_lines false [] s

-- parts[-1]
unfoldable pub last_word : List Text → Option Text
last_word [] = none
last_word (w ∷ []) = some w
last_word (w ∷ v ∷ ws) = last_word (v ∷ ws)

abbrev pub rss_phrase : Text
rss_phrase = codes "maximum resident set size"

-- int(float(parts[-1]) / 1024), or none where it raises ValueError or IndexError
abbrev pub number_of : (Text → Option ℕ) → Option Text → Option ℕ
number_of to_kib none = none
number_of to_kib (some w) = to_kib w

-- The loop over the lines, for the function to_kib on the last word of a line.
unfoldable pub first_rss : (Text → Option ℕ) → List Text → ℕ
unfolding last_word split
first_rss to_kib [] = 0
first_rss to_kib (line ∷ lines) =
    let rest = first_rss to_kib lines in
    if contains line rss_phrase
    then (elim (number_of to_kib (last_word (split line))) [ none ↦ rest | some kib ↦ kib ])
    else rest

abbrev pub load_sql : Text
load_sql = codes "SELECT COUNT(*) FROM package_versions"

-- sum() over them: the first exception is raised.
unfoldable pub sum_of : List (Outcome Error ℕ) → Outcome Error ℕ
sum_of [] = ok 0
sum_of (err e ∷ rs) = err e
sum_of (ok n ∷ rs) = elim (sum_of rs) [ err e ↦ err e | ok m ↦ ok (n + m) ]

module _ {W : Type 0} where
  -- The workers of pool.submit, whose exceptions stay in their futures.
  unfoldable pub submit_all : (clients : ℕ) → Action W ℕ → Action W Unit
  submit_all zero job = done tt
  submit_all (suc clients) job = caught (λ _. true) job >> submit_all clients job

  -- The outcomes of pool.map, all of whose jobs run.
  unfoldable pub map_all : (clients : ℕ) → Action W ℕ → W → List (Outcome Error ℕ) × W
  map_all zero job w = ([], w)
  map_all (suc clients) job w =
      let (r, w1) = job w in let (rs, w2) = map_all clients job w1 in (r ∷ rs, w2)

module _ {W F : Type 0} (lab : Lab W F) (set : Settings) where
  open lab use {rounds_within}

  -- A worker, for the rounds that the clock leaves it; the number of its calls.
  unfoldable pub worker : (embed data_dir : Text) (seconds : ℕ) → Action W ℕ
  unfolding exec_sql for_range
  worker embed data_dir seconds = do
    n ← asked (rounds_within seconds)
    for_range n (exec_sql lab set embed data_dir load_sql)
    done n

  unfoldable pub total_ops : (embed data_dir : Text) → Action W ℕ
  unfolding map_all worker sum_of
  total_ops embed data_dir w =
      let (rs, w') = map_all set.parallel_clients (worker embed data_dir set.parallel_seconds) w in
      (sum_of rs, w')

  module _ (floats : Floats F) where
    open floats use {ratio}

    unfoldable pub measure_parallel_readers : (embed data_dir : Text) → Action W F
    unfolding total_ops
    measure_parallel_readers embed data_dir = do
      ops ← total_ops embed data_dir
      done (lab.printing.round (ratio ops (max set.parallel_seconds 1)) 2)

module _ {W F : Type 0} (lab : Lab W F) (set : Settings) (to_kib : Text → Option ℕ) where
  open lab use {run}

  unfoldable pub peak_rss_kib_darwin : List Text → Action W ℕ
  unfolding first_rss splitlines
  peak_rss_kib_darwin cmd = run (codes "/usr/bin/time" ∷ codes "-l" ∷ cmd) >>= λ proc.
      done (first_rss to_kib (splitlines proc.stderr))

  module _ (floats : Floats F) where
    open floats use {of_kib}

    unfoldable pub measure_memory : (embed data_dir : Text) → Action W (F × F)
    unfolding peak_rss_kib_darwin worker submit_all
    measure_memory embed data_dir = do
      let cmd = embed ∷ codes "exec" ∷ data_dir ∷ load_sql ∷ []
      idle_kib ← peak_rss_kib_darwin cmd
      submit_all set.memory_clients (worker lab set embed data_dir set.memory_seconds)
      exec_kib ← peak_rss_kib_darwin cmd
      done (of_kib idle_kib, of_kib (max idle_kib exec_kib))
