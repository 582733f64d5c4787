-- ===== src/Probes/Race.antt =====
-- _probe_parallel_race of scripts/audit_probe.py. A schedule says which thread makes the next step; the
-- threads that are not done at its end are run to their ends in order, as join waits for them. A call
-- of execute is two steps, since another thread may run between engine_ready and execute_sql.
pub mod Rounds
pub mod Clean
pub mod Dead
use lidb.Base.{
  ℕ, zero, suc, ◌+◌, ◌*◌, Bool, true, false, List, [], ◌∷◌, ◌++◌, Outcome, ok, err, not, is_empty,
  if◌then◌else◌,
}
use lidb.Str.{Text, codes, ◌==◌}
use lidb.Errors.{Error, runtime_error}
use lidb.Json.{Json}
use lidb.Action.{Action, done, pure, ◌>>=◌, ◌>>◌}
use lidb.Liorm.Execute.{Plans, Rows, RegisteredPlan, Engine, prepare}
use lidb.Liq.Compiler.{compile}
use lidb.Probes.Steps.{World, clear, register}
use lidb.Probes.Sources.{race_source}

-- An entry of the list `errors`.
pub data RaceError : Type 0 where
  plan_id_mismatch : RaceError
  raised : Error → RaceError

-- Where a thread stands: `idle k` has k rounds of its loop left, and `checked k` has found the engine
-- ready in a round with k rounds behind it.
pub data Phase : Type 0 where
  idle : ℕ → Phase
  checked : ℕ → RegisteredPlan → List Json → Phase

-- The steps that a thread has left at most.
abbrev pub steps_left : Phase → ℕ
steps_left (idle k) = 2 * k
steps_left (checked k plan bound) = 2 * k + 1

-- What the threads share.
pub record Shared (S : Type 0) : Type 0 where
  pub errors : List RaceError
  pub state : S

module _ {S : Type 0} where
  -- except Exception: the loop of the thread is left.
  unfoldable pub fail : Error → Shared S → Phase × Shared S
  fail e sh = (idle 0, record sh { errors = sh.errors ++ raised e ∷ [] })

  -- What follows execute_sql in a round with k rounds behind it; the result has the id `found`.
  unfoldable pub compare_id : ℕ → Text → Text → Outcome Error Rows → Shared S → Phase × Shared S
  unfolding fail
  compare_id k pid found (err e) sh = fail e sh
  compare_id k pid found (ok rows) sh =
      if not (found == pid)
      then (idle k, record sh { errors = sh.errors ++ plan_id_mismatch ∷ [] })
      else (idle k, sh)

module _ {S : Type 0} (engine : Engine S) (plans : Plans) (pid : Text) where
  -- The checks of execute, and engine_ready.
  unfoldable pub check :
      ℕ → Outcome Error (RegisteredPlan × List Json) → Shared S → Phase × Shared S
  unfolding fail
  check k (err e) sh = fail e sh
  check k (ok (plan, bound)) sh =
      let (ready, s) = engine.engine_ready sh.state in
      let sh' = record sh { state = s } in
      if not ready then fail runtime_error sh' else (checked k plan bound, sh')

  -- One step of a thread.
  unfoldable pub advance : Phase → Shared S → Phase × Shared S
  unfolding check compare_id
  advance (idle zero) sh = (idle zero, sh)
  advance (idle (suc k)) sh = check k (prepare plans pid []) sh
  advance (checked k plan bound) sh =
      let (r, s) = engine.execute_sql plan.sql bound sh.state in
      compare_id k pid pid r (record sh { state = s })

  -- A step of the thread with an index.
  unfoldable pub step : ℕ → List Phase → Shared S → List Phase × Shared S
  unfolding advance
  step i [] sh = ([], sh)
  step zero (p ∷ ps) sh = let (p', sh') = advance p sh in (p' ∷ ps, sh')
  step (suc i) (p ∷ ps) sh = let (ps', sh') = step i ps sh in (p ∷ ps', sh')

  unfoldable pub follow : List ℕ → List Phase → Shared S → List Phase × Shared S
  unfolding step
  follow [] ps sh = (ps, sh)
  follow (i ∷ schedule) ps sh = let (ps', sh') = step i ps sh in follow schedule ps' sh'

  unfoldable pub repeat : ℕ → Phase → Shared S → Phase × Shared S
  unfolding advance
  repeat zero p sh = (p, sh)
  repeat (suc n) p sh = let (p', sh') = advance p sh in repeat n p' sh'

  -- The threads one after the other, to their ends.
  unfoldable pub join_all : List Phase → Shared S → List Phase × Shared S
  unfolding repeat
  join_all [] sh = ([], sh)
  join_all (p ∷ ps) sh =
      let (p', sh') = repeat (steps_left p) p sh in
      let (ps', sh'') = join_all ps sh' in (p' ∷ ps', sh'')

  unfoldable pub run_threads : List ℕ → List Phase → Shared S → List Phase × Shared S
  unfolding follow join_all
  run_threads schedule ps sh = let (ps', sh') = follow schedule ps sh in join_all ps' sh'

-- Eight threads, each with forty rounds.
abbrev pub threads : List Phase
threads = idle 40 ∷ idle 40 ∷ idle 40 ∷ idle 40 ∷ idle 40 ∷ idle 40 ∷ idle 40 ∷ idle 40 ∷ []

module _ (sha256_hex : Text → Text) {S : Type 0} (engine : Engine S) where
  -- What follows register_plan in the probe.
  unfoldable pub race : List ℕ → Text → Action (World S) Bool
  unfolding run_threads
  race schedule pid (plans, s) =
      let (_, sh) =
        run_threads engine plans pid schedule threads (record { errors = []; state = s }) in
      (ok (is_empty sh.errors), (plans, sh.state))

  unfoldable pub probe_parallel_race : List ℕ → Action (World S) Bool
  unfolding race
  probe_parallel_race schedule = do
    clear
    plan ← pure (compile sha256_hex race_source)
    pid ← register (codes "race.read") plan
    race schedule pid
