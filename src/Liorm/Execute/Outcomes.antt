-- ===== src/Liorm/Execute/Outcomes.antt =====
-- What `execute` does, on every path: which calls reach the engine, with which SQL and parameters,
-- and what the refused ones raise.
use lidb.Base.{
  ◌≡◌, ◌⊎◌, inl, inr, refl, true, List, [], ◌∷◌, none, some, Option-cases, Outcome, ok, err, ◌>>=◌,
  ◌>>◌, raise_if, not, arith, Bool-cases,
}
use lidb.Str.{Text}
use lidb.Dict.{lookup, keys}
use lidb.Errors.{Error, parameter_mismatch, value_in_sql, keys_differ, unknown_plan}
use lidb.Json.{Json}
use lidb.Liorm.Execute.{
  Params, Plans, RegisteredPlan, ExecuteResult, Engine, prepare, execute, run_engine, keys_match,
  occurs_in, check_values, ordered_params, sorted_difference, finish,
}
use lidb.Liorm.Execute.Checks.{
  SameKeys, keys_match_iff, NoValueIn, check_values_iff, Bound, ordered_params-Bound, Bound-unique,
}

-- A call that execute hands to the engine: the plan is registered, the keys of the parameters are
-- those of its schema, no text among the values occurs in its SQL, and the bound values are those
-- of the parameters in the order of the schema.
pub record Accepts (plans : Plans) (id : Text) (params : Params) (plan : RegisteredPlan)
    (bound : List Json) : Type 0 where
  pub registered : lookup id plans ≡ some plan
  pub same_keys : SameKeys (keys params) (keys plan.param_schema)
  pub no_value : NoValueIn plan.sql params
  pub bound_is : Bound params (keys plan.param_schema) bound

-- prepare with its plan found
pub prepare_registered :
    (plans : Plans) (id : Text) (params : Params) (plan : RegisteredPlan)
    → lookup id plans ≡ some plan
    → prepare plans id params ≡ (
        raise_if (not (keys_match (keys params) (keys plan.param_schema))) (
          parameter_mismatch (
            keys_differ
              (sorted_difference (keys plan.param_schema) (keys params))
              (sorted_difference (keys params) (keys plan.param_schema))))
        >> (check_values plan.sql params
            >> (ordered_params plan.param_schema params >>= λ bound. ok (plan, bound))))
prepare_registered plans id params plan h = unfold prepare in rw (prepare, h)

-- The checks of a registered plan, taken apart.
checks-Accepts :
    (plans : Plans) (id : Text) (params : Params) (p plan : RegisteredPlan) (bound : List Json)
    → lookup id plans ≡ some p
    → (keys_match (keys params) (keys p.param_schema) ≡ true)
      × (check_values p.sql params ≡ ok tt)
      × (ordered_params p.param_schema params ≡ ok bound)
      × (p ≡ plan)
    → Accepts plans id params plan bound
checks-Accepts plans id params p plan bound found (matched, checked, ordered, same) =
    let keyed = (keys_match_iff (keys params) (keys p.param_schema)).0 matched in
    let (vs, made, b) = ordered_params-Bound p.param_schema params keyed in
    let vs-bound : vs ≡ bound = cc (made, ordered) in
    rw (← same) (record {
      registered = found;
      same_keys = keyed;
      no_value = (check_values_iff p.sql params).0 checked;
      bound_is = rw vs-bound at b;
    })

pub prepare-Accepts :
    (plans : Plans) (id : Text) (params : Params) (plan : RegisteredPlan) (bound : List Json)
    → prepare plans id params ≡ ok (plan, bound)
    → Accepts plans id params plan bound
prepare-Accepts plans id params plan bound h = elim (Option-cases (lookup id plans)) [
  | inl missing ↦ absurd (unfold prepare in ground arith)
  | inr (p, found) ↦
      checks-Accepts plans id params p plan bound found
        (let shown = prepare_registered plans id params p found in ground (arith, shown))
]

pub Accepts-prepare :
    (plans : Plans) (id : Text) (params : Params) (plan : RegisteredPlan) (bound : List Json)
    → Accepts plans id params plan bound
    → prepare plans id params ≡ ok (plan, bound)
Accepts-prepare plans id params plan bound a =
    let (vs, ordered, b) = ordered_params-Bound plan.param_schema params a.same_keys in
    rw (
      prepare_registered plans id params plan a.registered,
      (keys_match_iff (keys params) (keys plan.param_schema)).1 a.same_keys,
      (check_values_iff plan.sql params).1 a.no_value,
      ordered,
      Bound-unique params (keys plan.param_schema) vs bound b a.bound_is,
    )

-- The first value that occurs in the SQL names its key.
pub check_values-err :
    (sql : Text) (params : Params)
    → (check_values sql params ≡ ok tt)
      ⊎ ((k : Text) × (check_values sql params ≡ err (parameter_mismatch (value_in_sql k))))
unfolding check_values
check_values-err sql [] = inl refl
check_values-err sql ((k, v) ∷ ps) = elim (Bool-cases (occurs_in sql v)) [
  | inl e ↦ inr (k, rw e)
  | inr e ↦ rw e (check_values-err sql ps)
]

-- The four ways of a call: each refusal with what it raises, and the call of the engine.
pub data Course (plans : Plans) (id : Text) (params : Params)
    : Outcome Error (RegisteredPlan × List Json) → Type 0 where
  no_plan : lookup id plans ≡ none → Course plans id params (err (unknown_plan id))
  other_keys :
      (plan : RegisteredPlan)
      → lookup id plans ≡ some plan
      → ¬ SameKeys (keys params) (keys plan.param_schema)
      → Course plans id params (
          err (
            parameter_mismatch (
              keys_differ
                (sorted_difference (keys plan.param_schema) (keys params))
                (sorted_difference (keys params) (keys plan.param_schema)))))
  in_sql :
      (plan : RegisteredPlan) (k : Text)
      → lookup id plans ≡ some plan
      → SameKeys (keys params) (keys plan.param_schema)
      → ¬ NoValueIn plan.sql params
      → Course plans id params (err (parameter_mismatch (value_in_sql k)))
  accepted :
      (plan : RegisteredPlan) (bound : List Json)
      → Accepts plans id params plan bound
      → Course plans id params (ok (plan, bound))

module _ (plans : Plans) (id : Text) (params : Params) where
  prepare_missing : lookup id plans ≡ none → prepare plans id params ≡ err (unknown_plan id)
  unfolding prepare
  prepare_missing missing = ground arith

  registered-Course :
      (plan : RegisteredPlan)
      → lookup id plans ≡ some plan
      → Course plans id params (prepare plans id params)
  registered-Course plan found =
      elim (Bool-cases (keys_match (keys params) (keys plan.param_schema))) [
        | inr differ ↦
            rw (prepare_registered plans id params plan found, differ)
              (other_keys plan found (λ same.
                cc (differ, (keys_match_iff (keys params) (keys plan.param_schema)).1 same)))
        | inl match ↦
            let same = (keys_match_iff (keys params) (keys plan.param_schema)).0 match in
            elim (check_values-err plan.sql params) [
              | inr (k, bad) ↦
                  rw (prepare_registered plans id params plan found, match, bad)
                    (in_sql plan k found same
                      (λ none_in. cc (bad, (check_values_iff plan.sql params).1 none_in)))
              | inl good ↦
                  let (vs, ordered, b) = ordered_params-Bound plan.param_schema params same in
                  let accepts : Accepts plans id params plan vs = record {
                    registered = found;
                    same_keys = same;
                    no_value = (check_values_iff plan.sql params).0 good;
                    bound_is = b;
                  } in
                  rw (Accepts-prepare plans id params plan vs accepts) (accepted plan vs accepts)
            ]
      ]

  prepare-Course : Course plans id params (prepare plans id params)
  prepare-Course = elim (Option-cases (lookup id plans)) [
    | inl missing ↦ rw (prepare_missing missing) (no_plan missing)
    | inr (plan, found) ↦ registered-Course plan found
  ]

module _ {S : Type 0} (engine : Engine S) (plans : Plans) (id : Text) (params : Params)
    (s : S) where
  -- What a call of execute gives when its checks end in a given way: an error leaves the engine alone,
  -- and an accepted plan is run on the engine with its own SQL and the bound values.
  abbrev pub after : Outcome Error (RegisteredPlan × List Json) → Outcome Error ExecuteResult × S
  after (err e) = (err e, s)
  after (ok (plan, bound)) = finish id plan bound (run_engine engine plan.sql bound s)

  pub execute-after :
      (m : Outcome Error (RegisteredPlan × List Json))
      → prepare plans id params ≡ m
      → execute engine plans id params s ≡ after m
  unfolding execute
  execute-after (err x) e = ground (arith, e)
  execute-after (ok (plan, bound)) e = ground (arith, e)

  -- Every call of execute takes one of four courses, with no other error before the engine: no plan
  -- has the id, the parameter keys are not those of the schema, a text among the values occurs in the
  -- SQL (each of these raises its own error and does not call the engine), or the engine is called
  -- with the plan's SQL and the values in the order of the schema.
  pub execute-Course :
      (m : Outcome Error (RegisteredPlan × List Json)) × (execute engine plans id params s
        ≡ after m)
      × Course plans id params m
  execute-Course = (
    prepare plans id params,
    execute-after (prepare plans id params) refl,
    prepare-Course plans id params,
  )
