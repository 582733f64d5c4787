-- ===== src/Bench/Lab.antt =====
-- What the measuring scripts of scripts/bench use of the system, with a state `W` and floats `F`, and the
-- steps that they share.
use lidb.Base.{ℕ, zero, suc, Bool, not, List, [], ◌∷◌, Outcome, ok, err, if◌then◌else◌}
use lidb.Str.{Text}
use lidb.Errors.{Error, called_process_error}
use lidb.Action.{Action, done, pure, ◌>>=◌, ◌>>◌}
use lidb.Liorm.Embed.Binary.{Process}
use lidb.Bench.Rows.{Printing, Machine}

-- time.perf_counter(), subprocess.run (which raises where there is no such program), uuid.uuid4(),
-- tempfile.mkdtemp() and shutil.rmtree(ignore_errors=True), mkdir, the tests of a file, the rounds that the clock leaves to a
-- loop with a time limit in seconds, and the scripts that a glob finds.
pub record Lab (W F : Type 0) : Type 0 where
  pub perf_counter : W → F × W
  pub run : List Text → Action W Process
  pub uuid4 : W → Text × W
  pub make_temp_dir : W → Text × W
  pub remove_tree : Text → W → W
  pub make_dir : Text → W → W
  pub is_file : Text → W → Bool
  pub is_executable : Text → W → Bool
  pub rounds_within : ℕ → W → ℕ × W
  pub rls_scripts : W → List Text
  pub machine : Machine
  pub printing : Printing F

-- What they use of float: `<=`, 0.0, differences, x * 1000.0, n / 1024.0, n / d of numbers, and
-- int(float(t) / 1024) of a text where it is a number.
pub record Floats (F : Type 0) : Type 0 where
  pub le : F → F → Bool
  pub nothing : F
  pub minus : F → F → F
  pub thousandfold : F → F
  pub of_kib : ℕ → F
  pub ratio : ℕ → ℕ → F

module _ {W : Type 0} where
  -- An operation of the system that raises nothing.
  abbrev pub asked : {A : Type 0} → (W → A × W) → Action W A
  asked f w = let (a, w') = f w in (ok a, w')

  -- try: m finally: the clean-up
  abbrev pub finally : {A : Type 0} → Action W A → (W → W) → Action W A
  finally m clean w = let (r, w') = m w in (r, clean w')

  -- for _ in range(n)
  unfoldable pub for_range : ℕ → Action W Unit → Action W Unit
  for_range zero body = done tt
  for_range (suc n) body = body >> for_range n body

module _ {W F : Type 0} (lab : Lab W F) where
  open lab use {run}

  -- check=True
  abbrev pub checked_process : Process → Outcome Error Unit
  checked_process proc = if not proc.succeeded then err called_process_error else ok tt

  unfoldable pub run_checked : List Text → Action W Unit
  run_checked args = run args >>= λ proc. pure (checked_process proc)

module _ {W F : Type 0} (perf_counter : Action W F) (floats : Floats F) where
  open floats use {minus, thousandfold}

  -- One timed call, in milliseconds.
  unfoldable pub timed : Action W Unit → Action W F
  timed call = do t0 ← perf_counter; call; t1 ← perf_counter; done (thousandfold (minus t1 t0))

  -- The samples of so many calls.
  unfoldable pub samples_of : ℕ → Action W Unit → Action W (List F)
  unfolding timed
  samples_of zero call = done []
  samples_of (suc n) call = do sample ← timed call; rest ← samples_of n call; done (sample ∷ rest)
