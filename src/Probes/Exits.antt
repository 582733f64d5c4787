-- ===== src/Probes/Exits.antt =====
-- The exit codes of `main` when every probe passes.
use lidb.Base.{
  ◌≡◌, refl, Bool, true, false, inl, inr, [], ◌∷◌, some, Outcome, ok, err, All, if◌then◌else◌,
  Bool-cases,
}
use lidb.Str.{Text, ◌==◌}
use lidb.Dict.{Dict, lookup, keys, elem}
use lidb.Errors.{Error}
use lidb.Action.{Action, after_step}
use lidb.Probes.Steps.{main, run_probe, exit_code}

module _ {W : Type 0} (P : W → Type 0) where
  abbrev pub Passes : Action W Bool → Type 0
  Passes probe = (w : W) → P w → (probe w).0 ≡ ok true

  run_probe-Passes :
      (probe : Action W Bool) (w : W) → Passes probe → P w → (run_probe (some probe) w).0 ≡ ok 0
  run_probe-Passes probe w h p = go (probe w) (h w p)
    where
      go :
          (r : Outcome Error Bool × W)
          → r.0 ≡ ok true
          → (after_step (λ (b : Bool) (v : W). (ok (exit_code b), v)) r).0 ≡ ok 0
      go (ok true, v) e = refl
      go (ok false, v) e = cc
      go (err x, v) e = cc

  -- The exit code is 0 for the name of a probe and 2 for any other.
  pub main-Passes :
      (probes : Dict (Action W Bool)) (program probe_id : Text) (w : W)
      → All (λ (entry : Text × Action W Bool). Passes entry.1) probes
      → P w
      → (main probes (program ∷ probe_id ∷ []) w).0
        ≡ ok (if elem probe_id (keys probes) then 0 else 2)
  unfolding main lookup elem
  main-Passes [] program probe_id w h p = refl
  main-Passes ((k, probe) ∷ probes) program probe_id w h p = elim (Bool-cases (k == probe_id)) [
    | inl e ↦ rw e (run_probe-Passes probe w h.0 p)
    | inr e ↦ rw e (main-Passes probes program probe_id w h.1 p)
  ]
