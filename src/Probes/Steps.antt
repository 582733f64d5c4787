-- ===== src/Probes/Steps.antt =====
-- What the probes of both scripts do with liq and liorm, on the dict of plans and the state of the
-- engine, and what their `main` makes of a probe.
use lidb.Base.{ℕ, Bool, true, false, not, List, [], ◌∷◌, Option, none, some, ok, if◌then◌else◌}
use lidb.Str.{Text}
use lidb.Dict.{Dict, lookup}
use lidb.Errors.{
  Error, parse_error, compile_error, catalog_error, parameter_mismatch, capability_denied,
}
use lidb.Action.{Action, done, ◌>>=◌}
use lidb.Liorm.Execute.{Params, Plans, ExecuteResult, Engine, register_plan, clear_plans, execute}
use lidb.Liq.Compiler.{CompileResult}
use lidb.Pipeline.{plan_named}

-- except ParameterMismatch
abbrev pub is_mismatch : Error → Bool
is_mismatch (parameter_mismatch _) = true
is_mismatch _ = false

-- except (ParseError, CompileError, CatalogError)
abbrev pub is_compile_time : Error → Bool
is_compile_time (parse_error _) = true
is_compile_time (compile_error _) = true
is_compile_time (catalog_error _) = true
is_compile_time _ = false

-- except CapabilityDenied
abbrev pub is_denied : Error → Bool
is_denied (capability_denied _ _) = true
is_denied _ = false

-- _PLANS and the state of the engine
abbrev pub World : Type 0 → Type 0
World S = Plans × S

module _ {S : Type 0} where
  abbrev pub clear : Action (World S) Unit
  clear (plans, s) = (ok tt, (clear_plans plans, s))

  -- register_plan returns the id that it is given.
  abbrev pub register : Text → CompileResult → Action (World S) Text
  register name plan (plans, s) =
      (ok plan.plan_id, (register_plan plans plan.plan_id (plan_named name plan), s))

  abbrev pub run : Engine S → Text → Params → Action (World S) ExecuteResult
  run engine pid params (plans, s) =
      let (r, s') = execute engine plans pid params s in (r, (plans, s'))

-- The exit code for what a probe returns.
abbrev pub exit_code : Bool → ℕ
exit_code passed = if not passed then 1 else 0

-- main(argv) over the dict _PROBES; what is printed is left out.
abbrev pub run_probe : {W : Type 0} → Option (Action W Bool) → Action W ℕ
run_probe none = done 2
run_probe (some probe) = do passed ← probe; done (exit_code passed)

unfoldable pub main : {W : Type 0} → Dict (Action W Bool) → List Text → Action W ℕ
main probes (program ∷ probe_id ∷ []) = run_probe (lookup probe_id probes)
main probes _ = done 2
