-- ===== src/Probes/Examples.antt =====
-- The theorems on the probes applied to an engine that counts its calls, and runs of a race.
use lidb.Base.{
  ℕ, suc, ◌≡◌, refl, true, false, length, ◌+◌, [], ◌∷◌, Outcome, ok, err, All, if◌then◌else◌,
}
use lidb.Str.{Text, codes, ◌==◌}
use lidb.Dict.{keys, elem, lookup}
use lidb.Errors.{Error, runtime_error}
use lidb.Json.{Json, null}
use lidb.Liorm.Execute.{
  Plans, RegisteredPlan, Engine, prepare, keys_match, check_values, ordered_params,
}
use lidb.Liorm.Execute.Answers.{Answers}
use lidb.Probes.Steps.{main}
use lidb.Probes.Security.{security_probes}
use lidb.Probes.Race.{idle, Shared, raised, run_threads, threads}
use lidb.Probes.Race.Dead.{all_waiting, run_threads-errors}
use lidb.Probes.Trail.{audit_probes}
use lidb.Probes.Passing.{security_main, audit_main}

-- An engine that is ready, counts its calls and answers with no rows.
abbrev counting_engine : Engine ℕ
counting_engine = record {
  engine_ready = λ n. (true, n);
  execute_sql = λ sql bound n. (ok [], suc n);
}

abbrev AnyCount : ℕ → Type 0
AnyCount _ = Unit

counting_engine-Answers : Answers counting_engine AnyCount
counting_engine-Answers = record {
  ready = λ n _. (refl, tt);
  rows = λ sql bound n _. ([], refl, tt);
}

-- An engine that fails at every call.
abbrev failing_engine : Engine ℕ
failing_engine = record {
  engine_ready = λ n. (true, n);
  execute_sql = λ sql bound n. (err runtime_error, suc n);
}

-- An engine that is never ready.
abbrev missing_engine : Engine ℕ
missing_engine = record {
  engine_ready = λ n. (false, suc n);
  execute_sql = λ sql bound n. (err runtime_error, n);
}

abbrev digest : Text → Text
digest _ = codes "0123456789abcdef01"

abbrev to_float : Json → Outcome Error Text
to_float _ = ok (codes "0.0")

abbrev clock : ℕ → Text
clock _ = codes "1.0"

security_main_example :
    (main
      (security_probes digest counting_engine)
      (codes "security_probe.py" ∷ codes "cve-raw-sql-capability-audit-escalation" ∷ [])
      ([], 0)).0
    ≡ ok (
        if elem
          (codes "cve-raw-sql-capability-audit-escalation")
          (keys (security_probes digest counting_engine))
        then 0
        else 2)
security_main_example =
    security_main digest counting_engine AnyCount counting_engine-Answers
      (codes "security_probe.py") (codes "cve-raw-sql-capability-audit-escalation") [] 0 tt

audit_main_example :
    (main
      (audit_probes digest to_float clock counting_engine (3 ∷ 0 ∷ 3 ∷ []))
      (codes "audit_probe.py" ∷ codes "parallel-race-plan-registry" ∷ [])
      ([], 0)).0
    ≡ ok (
        if elem
          (codes "parallel-race-plan-registry")
          (keys (audit_probes digest to_float clock counting_engine (3 ∷ 0 ∷ 3 ∷ [])))
        then 0
        else 2)
audit_main_example =
    audit_main digest counting_engine AnyCount counting_engine-Answers to_float clock
      (3 ∷ 0 ∷ 3 ∷ []) (codes "audit_probe.py") (codes "parallel-race-plan-registry") [] 0 tt

abbrev plan : RegisteredPlan
plan = record { name = codes "race.read"; ir = null; sql = codes "SELECT 1"; param_schema = [] }

abbrev plans : Plans
plans = (codes "p", plan) ∷ []

abbrev fresh : Shared ℕ
fresh = record { errors = []; state = 0 }

-- The failure of a thread in its first round ends the thread, and the others go on.
failures_end_threads :
    run_threads failing_engine plans (codes "p") (1 ∷ 0 ∷ 1 ∷ 0 ∷ []) (idle 5 ∷ idle 2 ∷ []) fresh
    ≡ (
      idle 0 ∷ idle 0 ∷ [],
      record { errors = raised runtime_error ∷ raised runtime_error ∷ []; state = 2 },
    )
unfolding run_threads prepare lookup ◌==◌ keys_match check_values ordered_params
failures_end_threads = refl

run_threads-errors_example :
    (length (run_threads missing_engine plans (codes "p") (1 ∷ 0 ∷ []) threads fresh).1.errors
      ≡ length fresh.errors + all_waiting threads)
    × All
        (λ p. p ≡ idle 0)
        (run_threads missing_engine plans (codes "p") (1 ∷ 0 ∷ []) threads fresh).0
run_threads-errors_example =
    run_threads-errors missing_engine (λ _. refl) plans (codes "p") (1 ∷ 0 ∷ []) threads fresh
      (refl, (refl, (refl, (refl, (refl, (refl, (refl, (refl, tt))))))))
