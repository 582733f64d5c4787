-- ===== src/Liorm/Execute/Refusals.antt =====
-- Values that `execute` refuses, what a successful call returns, and how registrations of plans
-- change later calls.
use lidb.Base.{
  ◌≡◌, ◌≢◌, inl, inr, refl, sym, subst, ◌∙◌, true, false, List, [], ◌∷◌, some, Outcome, ok, err,
  arith, Bool-cases, if◌then◌else◌,
}
use lidb.Str.{Text, contains, ◌==◌, ==_of_ne}
use lidb.Str.Search.{Occurs, contains_iff}
use lidb.Dict.{lookup, keys}
use lidb.Dict.Laws.{lookup-put}
use lidb.Errors.{Error, parameter_mismatch, value_in_sql}
use lidb.Json.{Json, str}
use lidb.Liorm.Execute.{
  Params, Plans, Rows, RegisteredPlan, ExecuteResult, Engine, prepare, execute, run_engine,
  register_plan, occurs_in, check_values, finish,
}
use lidb.Liorm.Execute.Checks.{SameKeys, keys_match_iff, NoValueIn, check_values_iff}
use lidb.Liorm.Execute.Outcomes.{
  Accepts, prepare-Accepts, prepare_registered, check_values-err, after, execute-after,
}

NoValueIn-lookup :
    (sql : Text) (params : Params) (k : Text) {v : Json}
    → NoValueIn sql params
    → lookup k params ≡ some v
    → occurs_in sql v ≡ false
unfolding lookup
NoValueIn-lookup sql [] k n h = cc
NoValueIn-lookup sql ((j, w) ∷ ps) k n h = elim (Bool-cases (j == k)) [
  | inl e ↦ ground arith
  | inr e ↦ NoValueIn-lookup sql ps k n.1 (ground arith)
]

refused_value :
    (sql : Text) (params : Params) (k v : Text)
    → lookup k params ≡ some (str v)
    → contains sql v ≡ true
    → (j : Text) × (check_values sql params ≡ err (parameter_mismatch (value_in_sql j)))
refused_value sql params k v given occurs = elim (check_values-err sql params) [
  | inr found ↦ found
  | inl good ↦
      let clear = NoValueIn-lookup sql params k ((check_values_iff sql params).0 good) given in
      absurd (unfold occurs_in in cc (clear, occurs))
]

finish_returns :
    {S : Type 0} (id : Text) (plan : RegisteredPlan) (bound : List Json)
    (res : Outcome Error Rows × S) {r : ExecuteResult} {s' : S}
    → finish id plan bound res ≡ (ok r, s')
    → (r.plan_id ≡ id) × (r.sql ≡ plan.sql) × (r.bound_params ≡ bound) × (res ≡ (ok r.rows, s'))
finish_returns id plan bound (ok rows, t) h = ground arith
finish_returns id plan bound (err e, t) h = cc

module _ {S : Type 0} (engine : Engine S) (plans : Plans) (id : Text) (params : Params)
    (s : S) where
  -- A call whose keys are right and that has a text among its values which occurs in the plan's SQL
  -- raises ParameterMismatch, whatever the value is meant for, and does not reach the engine.
  pub execute_refuses_value :
      (plan : RegisteredPlan) (k v : Text)
      → lookup id plans ≡ some plan
      → SameKeys (keys params) (keys plan.param_schema)
      → lookup k params ≡ some (str v)
      → Occurs plan.sql v
      → (j : Text) × (execute engine plans id params s
          ≡ (err (parameter_mismatch (value_in_sql j)), s))
  execute_refuses_value plan k v found same given occurs =
      let (j, bad) = refused_value plan.sql params k v given ((contains_iff plan.sql v).1 occurs) in
      (
        j,
        execute-after engine plans id params s (err (parameter_mismatch (value_in_sql j))) (
            rw (
              prepare_registered plans id params plan found,
              (keys_match_iff (keys params) (keys plan.param_schema)).1 same,
              bad,
            )),
      )

  returns_of :
      (m : Outcome Error (RegisteredPlan × List Json)) {r : ExecuteResult} {s' : S}
      → prepare plans id params ≡ m
      → after engine plans id params s m ≡ (ok r, s')
      → (plan : RegisteredPlan) × Accepts plans id params plan r.bound_params
        × (r.plan_id ≡ id)
        × (r.sql ≡ plan.sql)
        × (run_engine engine plan.sql r.bound_params s ≡ (ok r.rows, s'))
  returns_of (err x) e h = cc
  returns_of (ok (plan, bound)) e h =
      let (named, sql, values, ran) =
        finish_returns id plan bound (run_engine engine plan.sql bound s) h in
      (
        plan,
        subst (Accepts plans id params plan) (sym values)
            (prepare-Accepts plans id params plan bound e),
        named,
        sql,
        rw values ran,
      )

  -- A call that returns has run its plan's own SQL, unchanged, on the engine with the values of the
  -- parameters in the order of the schema, one for each key of the schema and no other, and no text
  -- among them occurs in that SQL; its rows and the state after it are those of the engine.
  pub execute_returns :
      {r : ExecuteResult} {s' : S}
      → execute engine plans id params s ≡ (ok r, s')
      → (plan : RegisteredPlan) × Accepts plans id params plan r.bound_params
        × (r.plan_id ≡ id)
        × (r.sql ≡ plan.sql)
        × (run_engine engine plan.sql r.bound_params s ≡ (ok r.rows, s'))
  execute_returns {r} {s'} h =
      returns_of (prepare plans id params) refl
        (sym (execute-after engine plans id params s (prepare plans id params) refl) ∙ h)

-- What a registration does to later calls: the plan with that id is the new one, also where another
-- was registered before, and every other id has the plan that it had.
pub register_plan-lookup :
    (plans : Plans) (id j : Text) (plan : RegisteredPlan)
    → lookup j (register_plan plans id plan) ≡ (if id == j then some plan else lookup j plans)
unfolding register_plan
register_plan-lookup plans id j plan = lookup-put id j plan plans

prepare-lookup :
    (plans plans' : Plans) (id : Text) (params : Params)
    → lookup id plans ≡ lookup id plans'
    → prepare plans id params ≡ prepare plans' id params
unfolding prepare
prepare-lookup plans plans' id params e = rw (prepare, e)

-- Registering a plan again under the same id replaces the first one: no call can tell that it was
-- there, and no call under another id is changed by either.
register_plan_replaces :
    (plans : Plans) (id j : Text) (first second : RegisteredPlan) (params : Params)
    → (prepare (register_plan (register_plan plans id first) id second) j params
        ≡ prepare (register_plan plans id second) j params)
      × (id ≢ j → prepare (register_plan plans id second) j params ≡ prepare plans j params)
register_plan_replaces plans id j first second params = (
  prepare-lookup _ _ j params (simp register_plan-lookup (ground arith)),
  λ ne. prepare-lookup _ _ j params (simp (register_plan-lookup, ==_of_ne id j ne)),
)
