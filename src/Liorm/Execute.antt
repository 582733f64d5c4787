-- ===== src/Liorm/Execute.antt =====
-- liorm/execute.py: the plan registry and the execution of a registered plan. The embedded engine is
-- an interface: it keeps a state of its own.
pub mod Checks
pub mod Outcomes
pub mod Refusals
pub mod Answers
use lidb.Base.{
  ℕ, Bool, true, false, ◌&&◌, ◌||◌, List, [], ◌∷◌, ◌++◌, Option, none, some, Outcome, ok, err,
  ◌>>=◌, ◌>>◌, traverse, raise_if, not, if◌then◌else◌,
}
use lidb.Str.{Text, contains, text_leb}
use lidb.Dict.{Dict, lookup, put, keys, elem}
use lidb.Errors.{
  Error, parameter_mismatch, keys_differ, value_in_sql, unknown_plan, key_error, runtime_error,
}
use lidb.Json.{Json, str}

-- dict[str, Any]
abbrev pub Params : Type 0
Params = Dict Json

abbrev pub Rows : Type 0
Rows = List (Dict Json)

pub record RegisteredPlan : Type 0 where
  pub name : Text
  pub ir : Json
  pub sql : Text
  pub param_schema : Dict Text

pub record ExecuteResult : Type 0 where
  pub plan_id : Text
  pub sql : Text
  pub bound_params : List Json
  pub rows : Rows

-- _PLANS
abbrev pub Plans : Type 0
Plans = Dict RegisteredPlan

-- A plan with its id, as the keyword arguments of register_plan give them.
unfoldable pub register_plan : Plans → Text → RegisteredPlan → Plans
register_plan plans plan_id plan = put plan_id plan plans

abbrev pub clear_plans : Plans → Plans
clear_plans plans = []

-- sorted(ks), with `insert_sorted` putting one string in its place
insert_sorted : Text → List Text → List Text
insert_sorted k [] = k ∷ []
insert_sorted k (j ∷ js) = if text_leb k j then k ∷ j ∷ js else j ∷ insert_sorted k js

-- sorted(xs - ys)
pub sorted_difference : List Text → List Text → List Text
unfolding insert_sorted
sorted_difference [] ys = []
sorted_difference (x ∷ xs) ys =
    let rest = sorted_difference xs ys in if elem x ys then rest else insert_sorted x rest

unfoldable pub subset : List Text → List Text → Bool
subset [] ys = true
subset (x ∷ xs) ys = elem x ys && subset xs ys

-- `given != expected` of sets
unfoldable pub keys_match : List Text → List Text → Bool
unfolding subset
keys_match given expected = subset given expected && subset expected given

-- isinstance(value, str) and value in sql
unfoldable pub occurs_in : Text → Json → Bool
occurs_in sql (str s) = contains sql s
occurs_in sql _ = false

-- The loop over params.items()
unfoldable pub check_values : Text → Params → Outcome Error Unit
unfolding occurs_in
check_values sql [] = ok tt
check_values sql ((k, v) ∷ ps) =
    if occurs_in sql v then err (parameter_mismatch (value_in_sql k)) else check_values sql ps

-- params[k]
param_value : Params → Text → Outcome Error Json
param_value params k = elim (lookup k params) [ none ↦ err key_error | some v ↦ ok v ]

unfoldable pub ordered_params : Dict Text → Params → Outcome Error (List Json)
unfolding param_value
ordered_params schema params = traverse (param_value params) (keys schema)

-- All of execute before the engine is called: the plan and the bound parameters.
unfoldable pub prepare : Plans → Text → Params → Outcome Error (RegisteredPlan × List Json)
unfolding keys_match sorted_difference check_values ordered_params
prepare plans plan_id params = elim (lookup plan_id plans) [
  | none ↦ err (unknown_plan plan_id)
  | some plan ↦ do
    let expected = keys plan.param_schema
    let given = keys params
    raise_if (not (keys_match given expected)) (
        parameter_mismatch
          (keys_differ (sorted_difference expected given) (sorted_difference given expected)))
    check_values plan.sql params
    bound ← ordered_params plan.param_schema params
    ok (plan, bound)
]

-- What execute needs of liorm/embed_engine.py.
pub record Engine (S : Type 0) : Type 0 where
  pub engine_ready : S → Bool × S
  pub execute_sql : Text → List Json → S → Outcome Error Rows × S

module _ {S : Type 0} where
  -- The result of a plan whose engine call has come back.
  abbrev pub finish :
      Text → RegisteredPlan → List Json → Outcome Error Rows × S → Outcome Error ExecuteResult × S
  finish plan_id plan bound (r, s) = (
    r >>= λ rows.
        ok (record { plan_id = plan_id; sql = plan.sql; bound_params = bound; rows = rows }),
    s,
  )

module _ {S : Type 0} (engine : Engine S) where
  open engine use {engine_ready, execute_sql}

  unfoldable pub run_engine : Text → List Json → S → Outcome Error Rows × S
  run_engine sql bound s =
      let (ready, s') = engine_ready s in
      if not ready then (err runtime_error, s') else execute_sql sql bound s'

  unfoldable pub execute : Plans → Text → Params → S → Outcome Error ExecuteResult × S
  execute plans plan_id params s = elim (prepare plans plan_id params) [
    | err e ↦ (err e, s)
    | ok (plan, bound) ↦ finish plan_id plan bound (run_engine plan.sql bound s)
  ]
