-- ===== src/Bench/Compare/Published.antt =====
-- What the measurements of run_compare send, and in which order.
use lidb.Base.{
  ℕ, ◌+◌, ◌≡◌, ap, sym, ◌∙◌, Bool, true, false, List, [], ◌∷◌, none, some, ok, append-nil,
}
use lidb.Str.{Text}
use lidb.Action.{Action}
use lidb.Bench.Percentile.{p95_of_compare, compare_position}
use lidb.Bench.Lab.{Floats, asked, for_range, samples_of}
use lidb.Bench.Rig.{Rig}
use lidb.Bench.Compare.{
  Ratios, Scenario, scenarios, Counted, CompareRow, on_world, time_fn, median, both, compare_row,
  lidb_fn, pg_fn,
}
use lidb.Bench.Compare.Run.{time_on, pg_time, measure_scenario, measure_all, measured}
use lidb.Bench.Compare.Transcript.{
  Sent, IsRecorded, Says, Script, silent, seq, iterate, iterate-add, Followed, Follows,
  Follows-cast, pure-Follows, bind-Follows, bind-silent, for_range-Follows, samples_of-Follows,
}
use lidb.Bench.Compare.Sending.{lidb_script, pg_script, lidb_fn-Follows, pg_fn-Follows}

-- Without a connection nothing is sent to Postgres.
abbrev pub pg_part : Bool → ℕ → Scenario → Script
pg_part false n sid = silent
pg_part true n sid = iterate n (pg_script sid)

-- The scenarios in turn, each with `n` calls on lidb and then as many on Postgres.
abbrev pub compare_script : Bool → ℕ → List Scenario → Script
compare_script has_pg n [] = silent
compare_script has_pg n (sid ∷ sids) =
    seq (seq (iterate n (lidb_script sid)) (pg_part has_pg n sid)) (compare_script has_pg n sids)

module _ {W F : Type 0} (rig : Rig W F) (log : W → List Sent) (rec : IsRecorded rig log)
    (floats : Floats F) (ratios : Ratios F) (threshold : F) where
  clock-Says : Says log [] (asked rig.perf_counter)
  clock-Says w a w' h =
      let there : w' ≡ (rig.perf_counter w).1 = cc h in
      ap log there ∙ rec.clock w ∙ sym (append-nil (log w))

  time_on-Follows :
      (s : Script) (warmup measure : ℕ) (fn : Action (Counted W) Unit)
      → Follows log s fn
      → Follows log
          (iterate (warmup + measure) s)
          (time_on rig floats ratios threshold fn warmup measure)
  unfolding time_fn
  time_on-Follows s warmup measure fn h =
      Follows-cast log (time_on rig floats ratios threshold fn warmup measure)
        (iterate-add warmup measure s)
        (bind-Follows log (iterate warmup s) (iterate measure s) (for_range warmup fn) _
          (for_range-Follows log s warmup fn h)
          λ _.
            bind-silent log (iterate measure s)
              (samples_of (on_world (asked rig.perf_counter)) floats measure fn) _
              (samples_of-Follows log (asked rig.perf_counter) clock-Says floats s measure fn h)
              λ samples. pure-Follows log (
                both floats ratios (median floats ratios samples)
                  (p95_of_compare floats.le floats.nothing compare_position samples)))

  pg_time-Follows :
      (has_pg : Bool) (sid : Scenario) (warmup measure : ℕ)
      → Follows log
          (pg_part has_pg (warmup + measure) sid)
          (pg_time rig floats ratios threshold has_pg sid warmup measure)
  unfolding pg_time
  pg_time-Follows false sid warmup measure = pure-Follows log (ok none)
  pg_time-Follows true sid warmup measure =
      bind-silent log (iterate (warmup + measure) (pg_script sid))
        (time_on rig floats ratios threshold (pg_fn rig sid) warmup measure) _
        (time_on-Follows (pg_script sid) warmup measure (pg_fn rig sid)
          (pg_fn-Follows rig log rec sid))
        λ t. pure-Follows log (ok (some t.1))

  measure_scenario-Follows :
      (dir : Text) (has_pg : Bool) (warmup measure : ℕ) (sid : Scenario)
      → Follows log
          (seq
            (iterate (warmup + measure) (lidb_script sid))
            (pg_part has_pg (warmup + measure) sid))
          (measure_scenario rig floats ratios threshold dir has_pg warmup measure sid)
  unfolding measure_scenario
  measure_scenario-Follows dir has_pg warmup measure sid =
      bind-Follows log (iterate (warmup + measure) (lidb_script sid))
        (pg_part has_pg (warmup + measure) sid)
        (time_on rig floats ratios threshold (lidb_fn rig dir sid) warmup measure) _
        (time_on-Follows (lidb_script sid) warmup measure (lidb_fn rig dir sid)
          (lidb_fn-Follows rig log rec dir sid))
        λ times.
          bind-silent log (pg_part has_pg (warmup + measure) sid)
            (pg_time rig floats ratios threshold has_pg sid warmup measure) _
            (pg_time-Follows has_pg sid warmup measure)
            λ p95_p.
              pure-Follows log (ok (compare_row floats ratios threshold sid times has_pg p95_p))

  measure_all-Follows :
      (dir : Text) (has_pg : Bool) (warmup measure : ℕ) (sids : List Scenario)
      → Follows log
          (compare_script has_pg (warmup + measure) sids)
          (measure_all rig floats ratios threshold dir has_pg warmup measure sids)
  unfolding measure_all
  measure_all-Follows dir has_pg warmup measure [] = pure-Follows log (ok [])
  measure_all-Follows dir has_pg warmup measure (sid ∷ sids) =
      bind-Follows log
        (seq (iterate (warmup + measure) (lidb_script sid)) (pg_part has_pg (warmup + measure) sid))
        (compare_script has_pg (warmup + measure) sids)
        (measure_scenario rig floats ratios threshold dir has_pg warmup measure sid) _
        (measure_scenario-Follows dir has_pg warmup measure sid)
        λ row.
          bind-silent log (compare_script has_pg (warmup + measure) sids)
            (measure_all rig floats ratios threshold dir has_pg warmup measure sids) _
            (measure_all-Follows dir has_pg warmup measure sids)
            λ rows. pure-Follows log (ok (row ∷ rows))

  -- Let a log of the system have in it the statements of all calls that came back. Measurements that
  -- return then have sent what compare_script lists, in its order: for each scenario the statement of
  -- lidb once for every warm-up and every timed call, and after that the one of Postgres as often, if
  -- there is a connection. Every publication has the number behind the counter, which goes on by one.
  pub measured-Follows :
      (dir : Text) (has_pg : Bool) (warmup measure : ℕ) (c : Counted W) {rows : List (CompareRow F)}
      {c' : Counted W}
      → measured rig floats ratios threshold warmup measure (dir, has_pg) c ≡ (ok rows, c')
      → Followed log (compare_script has_pg (warmup + measure) scenarios) c c'
  unfolding measured
  measured-Follows dir has_pg warmup measure c {rows} {c'} h =
      measure_all-Follows dir has_pg warmup measure scenarios c rows c' h
