-- ===== src/Liorm/Execute/Answers.antt =====
-- Calls of execute on an engine that answers.
use lidb.Base.{◌≡◌, refl, ap, true, List, Outcome, ok}
use lidb.Errors.{Error}
use lidb.Str.{Text}
use lidb.Json.{Json}
use lidb.Liorm.Execute.{
  Params, Plans, Rows, RegisteredPlan, ExecuteResult, Engine, prepare, execute, run_engine,
}
use lidb.Liorm.Execute.Outcomes.{execute-after}

-- From the states `I` the engine is ready and answers every call, and its state stays in `I`.
pub record Answers {S : Type 0} (engine : Engine S) (I : S → Type 0) : Type 0 where
  pub ready : (s : S) → I s → ((engine.engine_ready s).0 ≡ true) × I (engine.engine_ready s).1
  pub rows :
      (sql : Text) (bound : List Json) (s : S)
      → I s
      → (found : Rows) × ((engine.execute_sql sql bound s).0 ≡ ok found)
        × I (engine.execute_sql sql bound s).1

module _ {S : Type 0} (engine : Engine S) (I : S → Type 0) (a : Answers engine I) where
  run_engine-Answers :
      (sql : Text) (bound : List Json) (s : S)
      → I s
      → (found : Rows) × (s' : S) × (run_engine engine sql bound s ≡ (ok found, s')) × I s'
  unfolding run_engine
  run_engine-Answers sql bound s i =
      let (r, i') = a.ready s i in
      let (found, e, j) = a.rows sql bound (engine.engine_ready s).1 i' in
      (
        found,
        (engine.execute_sql sql bound (engine.engine_ready s).1).1,
        rw r (
            ap
              (λ (o : Outcome Error Rows).
                (o, (engine.execute_sql sql bound (engine.engine_ready s).1).1))
              e),
        j,
      )

  abbrev pub result_of : Text → RegisteredPlan → List Json → Rows → ExecuteResult
  result_of id plan bound found = record {
    plan_id = id;
    sql = plan.sql;
    bound_params = bound;
    rows = found;
  }

  -- A call whose checks pass returns.
  pub execute-Answers :
      (plans : Plans) (id : Text) (params : Params) (plan : RegisteredPlan) (bound : List Json)
      (s : S)
      → prepare plans id params ≡ ok (plan, bound)
      → I s
      → (found : Rows) × (s' : S) × (execute engine plans id params s
          ≡ (ok (result_of id plan bound found), s'))
        × I s'
  execute-Answers plans id params plan bound s e i =
      let (found, s', ran, j) = run_engine-Answers plan.sql bound s i in
      (found, s', rw (execute-after engine plans id params s (ok (plan, bound)) e, ran) refl, j)
