-- ===== src/Probes/Race/Clean.antt =====
-- No thread records an error, in no interleaving.
use lidb.Base.{ℕ, zero, suc, ◌≡◌, refl, ap, List, [], ◌∷◌, ok, is_empty}
use lidb.Str.{Text, codes, ==_refl}
use lidb.Json.{Json}
use lidb.Liorm.Execute.{
  Plans, RegisteredPlan, Engine, prepare, register_plan, keys_match, check_values, ordered_params,
}
use lidb.Liorm.Execute.Outcomes.{prepare_registered}
use lidb.Liorm.Execute.Answers.{Answers}
use lidb.Pipeline.{plan_named}
use lidb.Probes.Steps.{World}
use lidb.Probes.Sources.{race_plan, race_source_compiles, registered_found}
use lidb.Probes.Exits.{Passes}
use lidb.Probes.Race.{
  RaceError, Phase, idle, checked, Shared, compare_id, check, advance, step, follow, steps_left,
  repeat, join_all, run_threads, threads, race, probe_parallel_race,
}

-- No error so far, and an engine that answers.
abbrev pub Clean : {S : Type 0} → (S → Type 0) → Shared S → Type 0
Clean I sh = (sh.errors ≡ []) × I sh.state

module _ {S : Type 0} (engine : Engine S) (I : S → Type 0) (a : Answers engine I) (plans : Plans)
    (pid : Text) (plan : RegisteredPlan) (bound : List Json)
    (prepared : prepare plans pid [] ≡ ok (plan, bound)) where
  advance-Clean :
      (p : Phase) (sh : Shared S) → Clean I sh → Clean I (advance engine plans pid p sh).1
  unfolding advance check compare_id
  advance-Clean (idle zero) sh c = c
  advance-Clean (idle (suc k)) sh (e, i) =
      let (ready, j) = a.ready sh.state i in rw (prepared, ready) (e, j)
  advance-Clean (checked k plan bound) sh (e, i) =
      let (rows, answered, j) = a.rows plan.sql bound sh.state i in
      rw (answered, ==_refl pid) (e, j)

  step-Clean :
      (i : ℕ) (ps : List Phase) (sh : Shared S)
      → Clean I sh
      → Clean I (step engine plans pid i ps sh).1
  unfolding step
  step-Clean i [] sh c = c
  step-Clean zero (p ∷ ps) sh c = advance-Clean p sh c
  step-Clean (suc i) (p ∷ ps) sh c = step-Clean i ps sh c

  follow-Clean :
      (schedule : List ℕ) (ps : List Phase) (sh : Shared S)
      → Clean I sh
      → Clean I (follow engine plans pid schedule ps sh).1
  unfolding follow
  follow-Clean [] ps sh c = c
  follow-Clean (i ∷ schedule) ps sh c = follow-Clean schedule _ _ (step-Clean i ps sh c)

  repeat-Clean :
      (n : ℕ) (p : Phase) (sh : Shared S) → Clean I sh → Clean I (repeat engine plans pid n p sh).1
  unfolding repeat
  repeat-Clean zero p sh c = c
  repeat-Clean (suc n) p sh c = repeat-Clean n _ _ (advance-Clean p sh c)

  join_all-Clean :
      (ps : List Phase) (sh : Shared S) → Clean I sh → Clean I (join_all engine plans pid ps sh).1
  unfolding join_all
  join_all-Clean [] sh c = c
  join_all-Clean (p ∷ ps) sh c = join_all-Clean ps _ (repeat-Clean (steps_left p) p sh c)

  -- After every schedule of a registered plan the list of errors is empty, on an engine that is ready
  -- and answers.
  pub run_threads-Clean :
      (schedule : List ℕ) (ps : List Phase) (sh : Shared S)
      → Clean I sh
      → Clean I (run_threads engine plans pid schedule ps sh).1
  unfolding run_threads
  run_threads-Clean schedule ps sh c =
      let r = follow engine plans pid schedule ps sh in
      join_all-Clean r.0 r.1 (follow-Clean schedule ps sh c)

module _ (sha256_hex : Text → Text) {S : Type 0} (engine : Engine S) (I : S → Type 0)
    (a : Answers engine I) where
  race_prepared :
      (name : Text)
      → (let r = race_plan sha256_hex in
          prepare (register_plan [] r.plan_id (plan_named name r)) r.plan_id []
          ≡ ok (plan_named name r, []))
  unfolding keys_match check_values ordered_params
  race_prepared name =
      let r = race_plan sha256_hex in
      prepare_registered (register_plan [] r.plan_id (plan_named name r)) r.plan_id []
        (plan_named name r) (registered_found r name)

  -- The probe passes under every schedule.
  pub parallel_race-Passes :
      (schedule : List ℕ)
      → Passes (λ (w : World S). I w.1) (probe_parallel_race sha256_hex engine schedule)
  unfolding probe_parallel_race race
  parallel_race-Passes schedule (plans, s) i =
      let r = race_plan sha256_hex in
      let name = codes "race.read" in
      let c =
        run_threads-Clean engine I a (register_plan [] r.plan_id (plan_named name r)) r.plan_id
          (plan_named name r) [] (race_prepared name) schedule threads
          (record { errors = []; state = s }) (refl, i) in
      rw (race_source_compiles sha256_hex) (ap (λ (es : List RaceError). ok (is_empty es)) c.0)
