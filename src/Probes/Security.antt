-- ===== src/Probes/Security.antt =====
-- The probes of scripts/security_probe.py.
use lidb.Base.{Bool, true, false, not, ◌||◌, List, [], ◌∷◌, if◌then◌else◌}
use lidb.Str.{Text, codes, contains, ◌==◌}
use lidb.Dict.{Dict}
use lidb.Json.{Json, str}
use lidb.Action.{Action, done, pure, caught, ◌>>=◌, ◌>>◌}
use lidb.Liorm.Capabilities.{
  Profile, agent, mcp, cli_admin, migration_runner, RawSqlCapability, session, migration,
  assert_capability,
}
use lidb.Liorm.Execute.{Engine}
use lidb.Liq.Compiler.{CompileResult, compile}
use lidb.Probes.Steps.{World, is_mismatch, is_compile_time, is_denied, clear, register, run}

abbrev pub malicious : Text
malicious = codes "' OR 1=1 --"

abbrev pub stored : Text
stored = codes "x'; DROP TABLE agent_runs; --"

-- `s in values` for a text and a list of bound values
unfoldable pub bound_in : Text → List Json → Bool
bound_in s [] = false
bound_in s (str t ∷ vs) = t == s || bound_in s vs
bound_in s (_ ∷ vs) = bound_in s vs

module _ (sha256_hex : Text → Text) {S : Type 0} (engine : Engine S) where
  -- What follows the compilation in _probe_param_concat.
  unfoldable pub try_malicious : CompileResult → Action (World S) Bool
  try_malicious plan = do
    pid ← register (codes "probe.param_concat") plan
    refused ← caught is_mismatch (run engine pid ((codes "status", str malicious) ∷ []))
    done (if refused then true else not (contains plan.sql malicious))

  unfoldable pub probe_param_concat : Action (World S) Bool
  unfolding try_malicious
  probe_param_concat = do
    clear
    plan ← pure (compile sha256_hex (codes "read agent_runs where status = $status limit 5"))
    let spliced = contains plan.sql (codes "running") || contains plan.sql (codes "' OR 1=1")
    if spliced then done false else try_malicious plan

  unfoldable pub probe_second_order : Action (World S) Bool
  unfolding bound_in
  probe_second_order = do
    clear
    plan ← pure (compile sha256_hex (codes "read agent_runs where status = $status limit 1"))
    pid ← register (codes "probe.second_order") plan
    result ← run engine pid ((codes "status", str stored) ∷ [])
    done (if contains result.sql stored then false else bound_in stored result.bound_params)

  abbrev pub fixtures : List Text
  fixtures =
      codes "read evil_table limit 1" ∷ codes "read agent_runs { id, not_a_column } limit 1" ∷ []

  -- The loop over the fixtures.
  unfoldable pub all_refused : List Text → Action (World S) Bool
  all_refused [] = done true
  all_refused (src ∷ rest) = do
    refused ← caught is_compile_time (pure (compile sha256_hex src))
    if refused then all_refused rest else done false

  unfoldable pub probe_identifier_injection : Action (World S) Bool
  unfolding all_refused
  probe_identifier_injection = all_refused fixtures

-- The two loops over profiles and capabilities.
abbrev pub denied_pairs : List (Profile × RawSqlCapability)
denied_pairs = (agent, session) ∷ (agent, migration) ∷ (mcp, session) ∷ (mcp, migration) ∷ []

module _ {S : Type 0} where
  unfoldable pub all_denied : List (Profile × RawSqlCapability) → Action (World S) Bool
  all_denied [] = done true
  all_denied ((profile, cap) ∷ rest) = do
    denied ← caught is_denied (pure (assert_capability profile cap))
    if denied then all_denied rest else done false

  abbrev pub assert_allowed : Bool → Action (World S) Bool
  assert_allowed false = done false
  assert_allowed true = do
    pure (assert_capability cli_admin session)
    pure (assert_capability migration_runner migration)
    done true

  unfoldable pub probe_raw_sql_escalation : Action (World S) Bool
  unfolding all_denied
  probe_raw_sql_escalation = all_denied denied_pairs >>= assert_allowed

module _ (sha256_hex : Text → Text) {S : Type 0} (engine : Engine S) where
  -- _PROBES
  unfoldable pub security_probes : Dict (Action (World S) Bool)
  unfolding probe_param_concat probe_second_order probe_identifier_injection
      probe_raw_sql_escalation
  security_probes =
      (codes "cve-cwe-89-sql-injection-via-param-concat", probe_param_concat sha256_hex engine)
      ∷ (
        codes "cve-cwe-89-second-order-sql-injection-stored-value",
        probe_second_order sha256_hex engine,
      )
      ∷ (
        codes "cve-cwe-89-identifier-injection-dynamic-table",
        probe_identifier_injection sha256_hex engine,
      )
      ∷ (codes "cve-raw-sql-capability-audit-escalation", probe_raw_sql_escalation)
      ∷ []
