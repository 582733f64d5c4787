-- ===== src/Probes/Race/Rounds.antt =====
-- Every thread comes to the end of its loop.
use lidb.Base.{ℕ, zero, suc, ◌+◌, ◌≤◌, ◌≡◌, ◌⊎◌, inl, inr, refl, List, [], ◌∷◌, All, arith}
use lidb.Str.{Text}
use lidb.Liorm.Execute.{Plans, Engine}
use lidb.Probes.Race.{
  Phase, idle, checked, Shared, fail, compare_id, check, advance, follow, steps_left, repeat,
  join_all, run_threads,
}

module _ {S : Type 0} (engine : Engine S) (plans : Plans) (pid : Text) where
  -- Each step of a thread that is not done takes from its steps.
  advance-steps_left :
      (p : Phase) (sh : Shared S)
      → (steps_left (advance engine plans pid p sh).0 + 1 ≤ steps_left p) ⊎ (p ≡ idle 0)
  unfolding advance check compare_id fail
  advance-steps_left (idle zero) sh = inr refl
  advance-steps_left (idle (suc k)) sh = inl (ground arith)
  advance-steps_left (checked k plan bound) sh = inl (ground arith)

  repeat-done : (n : ℕ) (sh : Shared S) → (repeat engine plans pid n (idle 0) sh).0 ≡ idle 0
  unfolding repeat advance
  repeat-done zero sh = refl
  repeat-done (suc n) sh = repeat-done n sh

  -- A thread is done after as many steps as it has left.
  repeat-ends :
      (n : ℕ) (p : Phase) (sh : Shared S)
      → steps_left p ≤ n
      → (repeat engine plans pid n p sh).0 ≡ idle 0
  unfolding repeat
  repeat-ends zero (idle k) sh h = ground arith
  repeat-ends zero (checked k plan bound) sh h = absurd (omega arith)
  repeat-ends (suc n) p sh h = elim (advance-steps_left p sh) [
    | inl less ↦ repeat-ends n _ _ (omega arith)
    | inr over ↦ rw over (repeat-done (suc n) sh)
  ]

  join_all-ends :
      (ps : List Phase) (sh : Shared S) → All (λ p. p ≡ idle 0) (join_all engine plans pid ps sh).0
  unfolding join_all
  join_all-ends [] sh = tt
  join_all-ends (p ∷ ps) sh = (repeat-ends (steps_left p) p sh (omega arith), join_all-ends ps _)

  -- Every thread comes to its end, whatever the schedule and whatever the engine answers.
  pub run_threads-ends :
      (schedule : List ℕ) (ps : List Phase) (sh : Shared S)
      → All (λ p. p ≡ idle 0) (run_threads engine plans pid schedule ps sh).0
  unfolding run_threads
  run_threads-ends schedule ps sh =
      let r = follow engine plans pid schedule ps sh in join_all-ends r.0 r.1
