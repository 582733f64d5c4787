-- ===== src/Bench/Measure/Security.antt =====
-- measure_security of scripts/bench/tier_db_csv_impl.py.
use lidb.Base.{
  ℕ, ◌+◌, Bool, true, false, ◌&&◌, List, [], ◌∷◌, ◌++◌, Option, none, some, ok, length, nat_eq,
  if◌then◌else◌,
}
use lidb.Str.{Text, codes, contains, decimal}
use lidb.Action.{Action, done, ◌>>=◌}
use lidb.Liorm.Embed.Binary.{Process}
use lidb.Bench.Lab.{Lab, Floats}
use lidb.Bench.Measure.{Settings}

-- A dict of measure_security.
pub record Rate (F : Type 0) : Type 0 where
  pub value : Option F
  pub is_passed : Bool
  pub flags : Text

abbrev pub probes : List Text
probes =
    codes "cve-cwe-89-sql-injection-via-param-concat"
    ∷ codes "cve-cwe-89-second-order-sql-injection-stored-value"
    ∷ codes "cve-cwe-89-identifier-injection-dynamic-table"
    ∷ codes "cve-raw-sql-capability-audit-escalation"
    ∷ []

-- How many runs have passed, failed and skipped.
pub record Tally : Type 0 where
  pub pass : ℕ
  pub fail : ℕ
  pub skip : ℕ

abbrev pub no_runs : Tally
no_runs = record { pass = 0; fail = 0; skip = 0 }

abbrev pub count_probe : Tally → Process → Tally
count_probe t proc =
    if proc.succeeded then record t { pass = t.pass + 1 } else record t { fail = t.fail + 1 }

-- A script that exits with 0 and says that it skips is not counted as passed.
abbrev pub count_script : Tally → Process → Tally
count_script t proc =
    if proc.succeeded && contains proc.stdout (codes "SKIP ")
    then record t { skip = t.skip + 1 }
    else count_probe t proc

module _ {F : Type 0} (ratio : ℕ → ℕ → F) where
  -- The rate of a tally, with the flags for the three cases.
  unfoldable pub rate_of : (blocked prefix_pass prefix_fail : Text) → Tally → Rate F
  rate_of blocked prefix_pass prefix_fail t =
      if nat_eq (t.pass + t.fail) 0
      then record { value = none; is_passed = false; flags = blocked }
      else if nat_eq t.fail 0
      then record {
        value = some (ratio t.pass (t.pass + t.fail));
        is_passed = true;
        flags = prefix_pass ++ decimal t.pass;
      }
      else record {
        value = some (ratio t.pass (t.pass + t.fail));
        is_passed = false;
        flags = prefix_fail ++ decimal t.fail;
      }

module _ {W F : Type 0} (lab : Lab W F) (set : Settings) where
  open lab use {run, rls_scripts}

  abbrev pub probe_command : Text → List Text
  probe_command probe =
      codes "python3" ∷ (set.lidb_root ++ codes "/scripts/security_probe.py") ∷ probe ∷ []

  unfoldable pub run_all :
      (Text → List Text) → (Tally → Process → Tally) → List Text → Tally → Action W Tally
  run_all command counted [] t = done t
  run_all command counted (x ∷ xs) t =
      run (command x) >>= λ proc. run_all command counted xs (counted t proc)

  -- The RLS scripts are run only if the environment asks for it, and else all count as skipped.
  unfoldable pub run_rls : Action W Tally
  unfolding run_all
  run_rls w =
      let scripts = rls_scripts w in
      let ran = run_all (λ script. codes "bash" ∷ script ∷ []) count_script scripts no_runs in
      if set.rls_harness then ran w else (ok (record no_runs { skip = length scripts }), w)

  unfoldable pub measure_security : Floats F → Action W (Rate F × Rate F)
  unfolding run_all run_rls rate_of decimal
  measure_security floats = do
    inj ← run_all probe_command count_probe probes no_runs
    rls ← run_rls
    done (
      rate_of floats.ratio (codes "harness_blocked:no_probes") (codes "probes_pass=")
          (codes "probes_fail=") inj,
      rate_of floats.ratio (codes "harness_blocked:rls_skipped=" ++ decimal rls.skip)
          (codes "rls_pass=") (codes "rls_fail=") rls,
    )
