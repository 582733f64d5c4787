-- ===== src/Probes/Race/Dead.antt =====
-- The race on an engine that is never ready.
use lidb.Base.{
  ℕ, zero, suc, ◌+◌, ◌≡◌, refl, Bool, true, false, List, [], ◌∷◌, Outcome, ok, err, All, arith,
  length, length-append,
}
use lidb.Str.{Text}
use lidb.Errors.{Error, runtime_error}
use lidb.Json.{Json}
use lidb.Liorm.Execute.{Plans, RegisteredPlan, Engine, prepare}
use lidb.Probes.Race.{
  raised, Phase, idle, checked, Shared, fail, check, advance, step, follow, steps_left, repeat,
  join_all, run_threads,
}
use lidb.Probes.Race.Rounds.{run_threads-ends}

abbrev pub is_idle : Phase → Bool
is_idle (idle k) = true
is_idle (checked k plan bound) = false

-- The threads that have a round to begin.
abbrev pub waiting : Phase → ℕ
waiting (idle zero) = 0
waiting (idle (suc k)) = 1
waiting (checked k plan bound) = 0

abbrev pub all_waiting : List Phase → ℕ
all_waiting [] = 0
all_waiting (p ∷ ps) = waiting p + all_waiting ps

abbrev pub AllIdle : List Phase → Type 0
AllIdle ps = All (λ p. is_idle p ≡ true) ps

module _ {S : Type 0} (engine : Engine S) (dead : (s : S) → (engine.engine_ready s).0 ≡ false)
    (plans : Plans) (pid : Text) where
  -- A thread and an error are counted together.
  abbrev Counts : ℕ → Phase × Shared S → Type 0
  Counts n (p, sh) = (is_idle p ≡ true) × (length sh.errors + waiting p ≡ n)

  abbrev CountsAll : ℕ → List Phase × Shared S → Type 0
  CountsAll n (ps, sh) = AllIdle ps × (length sh.errors + all_waiting ps ≡ n)

  fail-Counts : (e : Error) (sh : Shared S) → Counts (length sh.errors + 1) (fail e sh)
  unfolding fail
  fail-Counts e sh = (refl, omega (arith, length-append sh.errors (raised e ∷ [])))

  check-Counts :
      (k : ℕ) (r : Outcome Error (RegisteredPlan × List Json)) (sh : Shared S)
      → Counts (length sh.errors + 1) (check engine plans pid k r sh)
  unfolding check
  check-Counts k (err e) sh = fail-Counts e sh
  check-Counts k (ok (plan, bound)) sh =
      rw (dead sh.state)
        (fail-Counts runtime_error (record sh { state = (engine.engine_ready sh.state).1 }))

  advance-Counts :
      (p : Phase) (sh : Shared S)
      → is_idle p ≡ true
      → Counts (length sh.errors + waiting p) (advance engine plans pid p sh)
  unfolding advance
  advance-Counts (idle zero) sh h = (refl, refl)
  advance-Counts (idle (suc k)) sh h = check-Counts k (prepare plans pid []) sh
  advance-Counts (checked k plan bound) sh h = cc

  repeat-Counts :
      (n : ℕ) (p : Phase) (sh : Shared S)
      → is_idle p ≡ true
      → Counts (length sh.errors + waiting p) (repeat engine plans pid n p sh)
  unfolding repeat
  repeat-Counts zero p sh h = (h, refl)
  repeat-Counts (suc n) p sh h =
      let one = advance-Counts p sh h in
      let r = advance engine plans pid p sh in
      let more = repeat-Counts n r.0 r.1 one.0 in (more.0, omega (arith, more.1, one.1))

  step-CountsAll :
      (i : ℕ) (ps : List Phase) (sh : Shared S)
      → AllIdle ps
      → CountsAll (length sh.errors + all_waiting ps) (step engine plans pid i ps sh)
  unfolding step
  step-CountsAll i [] sh h = (tt, refl)
  step-CountsAll zero (p ∷ ps) sh h =
      let one = advance-Counts p sh h.0 in ((one.0, h.1), omega (arith, one.1))
  step-CountsAll (suc i) (p ∷ ps) sh h =
      let more = step-CountsAll i ps sh h.1 in ((h.0, more.0), omega (arith, more.1))

  follow-CountsAll :
      (schedule : List ℕ) (ps : List Phase) (sh : Shared S)
      → AllIdle ps
      → CountsAll (length sh.errors + all_waiting ps) (follow engine plans pid schedule ps sh)
  unfolding follow
  follow-CountsAll [] ps sh h = (h, refl)
  follow-CountsAll (i ∷ schedule) ps sh h =
      let one = step-CountsAll i ps sh h in
      let r = step engine plans pid i ps sh in
      let more = follow-CountsAll schedule r.0 r.1 one.0 in (more.0, omega (arith, more.1, one.1))

  join_all-CountsAll :
      (ps : List Phase) (sh : Shared S)
      → AllIdle ps
      → CountsAll (length sh.errors + all_waiting ps) (join_all engine plans pid ps sh)
  unfolding join_all
  join_all-CountsAll [] sh h = (tt, refl)
  join_all-CountsAll (p ∷ ps) sh h =
      let one = repeat-Counts (steps_left p) p sh h.0 in
      let r = repeat engine plans pid (steps_left p) p sh in
      let more = join_all-CountsAll ps r.1 h.1 in ((one.0, more.0), omega (arith, more.1, one.1))

  none_waiting : (ps : List Phase) → All (λ p. p ≡ idle 0) ps → all_waiting ps ≡ 0
  none_waiting [] h = refl
  none_waiting (p ∷ ps) h = rw (h.0, none_waiting ps h.1) refl

  -- On an engine that is never ready, every thread that has a round to begin records one error and
  -- leaves its loop, whatever the schedule: behind the race there are as many new errors as there were
  -- such threads, and all of them are done.
  pub run_threads-errors :
      (schedule : List ℕ) (ps : List Phase) (sh : Shared S)
      → AllIdle ps
      → (length (run_threads engine plans pid schedule ps sh).1.errors
          ≡ length sh.errors + all_waiting ps)
        × All (λ p. p ≡ idle 0) (run_threads engine plans pid schedule ps sh).0
  run_threads-errors schedule ps sh h =
      let ends = run_threads-ends engine plans pid schedule ps sh in
      let counted = threads_counted in (omega (arith, counted.1, none_waiting _ ends), ends)
    where
      threads_counted :
          CountsAll
            (length sh.errors + all_waiting ps)
            (run_threads engine plans pid schedule ps sh)
      threads_counted =
          unfold run_threads in
          let one = follow-CountsAll schedule ps sh h in
          let r = follow engine plans pid schedule ps sh in
          let more = join_all-CountsAll r.0 r.1 one.0 in (more.0, omega (arith, more.1, one.1))
