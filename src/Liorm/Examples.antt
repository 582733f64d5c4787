-- ===== src/Liorm/Examples.antt =====
-- The theorems on liorm applied to small registries, catalog entries and logs.
use lidb.Base.{ℕ, suc, ◌≡◌, ◌↔◌, ◌⊎◌, refl, true, List, [], ◌∷◌, ◌++◌, map, Outcome, ok, err}
use lidb.Str.{Text, codes, ◌==◌, starts_with, contains}
use lidb.Dict.{lookup, elem}
use lidb.Errors.{Error, parameter_mismatch, value_in_sql}
use lidb.Json.{Json, null, str}
use lidb.Liorm.Capabilities.{
  session, migration, cli_admin, migration_runner, assert_capability, assert_capability_iff,
}
use lidb.Liorm.Execute.{
  Params, Plans, RegisteredPlan, ExecuteResult, Engine, prepare, execute, run_engine, keys_match,
  check_values, ordered_params,
}
use lidb.Liorm.Execute.Outcomes.{Course, Accepts, after, execute-Course}
use lidb.Liorm.Execute.Refusals.{execute_refuses_value, execute_returns}
use lidb.Liorm.Audit.{
  AuditEntry, Entries, append, verify_chain, hash_of, last_hash, genesis, new_entry,
}
use lidb.Liorm.Audit.Chain.{append-verify_chain}
use lidb.Json.Escape.{is_written}
use lidb.Liorm.Audit.Bodies.{IsWritten}
use lidb.Liorm.Audit.Tamper.{recorded_text, Collision, tamper_evident}

-- An engine that is ready, counts its calls and answers with no rows.
abbrev counting_engine : Engine ℕ
counting_engine = record {
  engine_ready = λ n. (true, n);
  execute_sql = λ sql bound n. (ok [], suc n);
}

abbrev status_plan : RegisteredPlan
status_plan = record {
  name = codes "runs";
  ir = null;
  sql = codes "SELECT id FROM agent_runs WHERE status = $1 LIMIT 10";
  param_schema = (codes "status", codes "text") ∷ [];
}

abbrev other_plan : RegisteredPlan
other_plan = record status_plan { sql = codes "SELECT * FROM yanks" }

abbrev plans : Plans
plans = (codes "runs", status_plan) ∷ []

abbrev good : Params
good = (codes "status", str (codes "failed")) ∷ []

-- A status that happens to be written as a digit of the SQL.
abbrev digit : Params
digit = (codes "status", str (codes "1")) ∷ []

abbrev good_result : ExecuteResult
good_result = record {
  plan_id = codes "runs";
  sql = status_plan.sql;
  bound_params = str (codes "failed") ∷ [];
  rows = [];
}

good_executes : execute counting_engine plans (codes "runs") good 7 ≡ (ok good_result, 8)
unfolding execute prepare lookup ◌==◌ keys_match elem check_values contains starts_with
    ordered_params run_engine
good_executes = refl

execute-Course_example :
    (m : Outcome Error (RegisteredPlan × List Json)) × (execute counting_engine plans
        (codes "runs")
        good
        7
      ≡ after counting_engine plans (codes "runs") good 7 m)
    × Course plans (codes "runs") good m
execute-Course_example = execute-Course counting_engine plans (codes "runs") good 7

execute_returns_example :
    (plan : RegisteredPlan) × Accepts plans (codes "runs") good plan good_result.bound_params
    × (good_result.plan_id ≡ codes "runs")
    × (good_result.sql ≡ plan.sql)
    × (run_engine counting_engine plan.sql good_result.bound_params 7 ≡ (ok good_result.rows, 8))
execute_returns_example = execute_returns counting_engine plans (codes "runs") good 7 good_executes

execute_refuses_value_example :
    (j : Text) × (execute counting_engine plans (codes "runs") digit 7
      ≡ (err (parameter_mismatch (value_in_sql j)), 7))
execute_refuses_value_example =
    execute_refuses_value counting_engine plans (codes "runs") digit 7 status_plan (codes "status")
      (codes "1") (unfold lookup ◌==◌ in refl) (λ k. refl) (unfold lookup ◌==◌ in refl)
      (codes "SELECT id FROM agent_runs WHERE status = $", codes " LIMIT 10", refl)

assert_capability_iff_example : (assert_capability cli_admin migration ≡ ok tt) ↔ (
    (cli_admin ≡ cli_admin) × (migration ≡ session)
    ⊎ (cli_admin ≡ migration_runner) × (migration ≡ migration))
assert_capability_iff_example = assert_capability_iff cli_admin migration

-- A digest that tells nothing apart, and two logs of one entry under it.
abbrev blind : Text → Text
blind _ = codes "0"

abbrev entry : Text → AuditEntry
entry event = record {
  seq = 0;
  event = event;
  payload = [];
  recorded_at = codes "1.0";
  prev_hash = genesis;
  entry_hash = codes "0";
}

abbrev log : Text → Entries
log event = entry event ∷ []

log_verified : (event : Text) → verify_chain blind (log event) ≡ true
unfolding verify_chain ◌==◌ hash_of
log_verified event = refl

abbrev next_entry : AuditEntry
next_entry = record {
  seq = 1;
  event = codes "plan.run";
  payload = [];
  recorded_at = codes "2.0";
  prev_hash = codes "0";
  entry_hash = codes "0";
}

append-verify_chain_example :
    ((log (codes "start") ++ next_entry ∷ []) ≡ (log (codes "start") ++ next_entry ∷ []))
    × (verify_chain blind (log (codes "start") ++ next_entry ∷ []) ≡ true)
append-verify_chain_example =
    append-verify_chain blind (λ _. ok (codes "2.0")) (codes "2.0") (log (codes "start"))
      (codes "plan.run") [] (unfold append new_entry lookup last_hash hash_of in refl)
      (log_verified (codes "start"))

blind-IsWritten : (s : Text) → IsWritten (blind s)
unfolding is_written
blind-IsWritten s = refl

tamper_evident_example :
    Collision blind (log (codes "start")) (log (codes "other"))
    ⊎ (map recorded_text (log (codes "start")) ≡ map recorded_text (log (codes "other")))
tamper_evident_example =
    tamper_evident blind blind-IsWritten (log (codes "start")) (log (codes "other"))
      (log_verified (codes "start")) (log_verified (codes "other")) (refl, tt) (refl, tt) refl
      (unfold last_hash in refl)
