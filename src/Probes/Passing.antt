-- ===== src/Probes/Passing.antt =====
-- Every probe of scripts/security_probe.py passes on an engine that answers.
use lidb.Base.{◌≡◌, refl, ap, ℕ, List, [], ◌∷◌, Outcome, ok, if◌then◌else◌}
use lidb.Str.{Text, codes, contains, starts_with, ◌==◌}
use lidb.Dict.{lookup, keys, elem}
use lidb.Errors.{Error}
use lidb.Json.{Json, str}
use lidb.Liorm.Capabilities.{assert_capability}
use lidb.Liorm.Execute.{
  Plans, Engine, prepare, register_plan, keys_match, check_values, ordered_params,
}
use lidb.Liorm.Execute.Outcomes.{prepare_registered}
use lidb.Liorm.Execute.Answers.{Answers, execute-Answers}
use lidb.Pipeline.{plan_named}
use lidb.Probes.Steps.{World, main}
use lidb.Probes.Exits.{Passes, main-Passes}
use lidb.Probes.Sources.{
  status_plan, five, one_row, five_compiles, one_row_compiles, registered_found, evil_table_refused,
  evil_column_refused,
}
use lidb.Probes.Trail.{audit_probes}
use lidb.Probes.Denials.{chain_passes, trail_passes, redaction_passes}
use lidb.Probes.Race.Clean.{parallel_race-Passes}
use lidb.Probes.Security.{
  malicious, stored, bound_in, try_malicious, probe_param_concat, probe_second_order, all_refused,
  probe_identifier_injection, all_denied, probe_raw_sql_escalation, security_probes,
}

module _ (sha256_hex : Text → Text) where
  -- The checks of execute let the two values through.
  malicious_prepared :
      (name : Text)
      → (let r = status_plan sha256_hex five 5 (codes "5") in
          prepare
            (register_plan [] r.plan_id (plan_named name r))
            r.plan_id
            ((codes "status", str malicious) ∷ [])
          ≡ ok (plan_named name r, str malicious ∷ []))
  unfolding keys_match elem check_values contains starts_with ordered_params lookup ◌==◌
  malicious_prepared name =
      let r = status_plan sha256_hex five 5 (codes "5") in
      prepare_registered (register_plan [] r.plan_id (plan_named name r)) r.plan_id
        ((codes "status", str malicious) ∷ []) (plan_named name r) (registered_found r name)

  stored_prepared :
      (name : Text)
      → (let r = status_plan sha256_hex one_row 1 (codes "1") in
          prepare
            (register_plan [] r.plan_id (plan_named name r))
            r.plan_id
            ((codes "status", str stored) ∷ [])
          ≡ ok (plan_named name r, str stored ∷ []))
  unfolding keys_match elem check_values contains starts_with ordered_params lookup ◌==◌
  stored_prepared name =
      let r = status_plan sha256_hex one_row 1 (codes "1") in
      prepare_registered (register_plan [] r.plan_id (plan_named name r)) r.plan_id
        ((codes "status", str stored) ∷ []) (plan_named name r) (registered_found r name)

  module _ {S : Type 0} (engine : Engine S) (I : S → Type 0) (a : Answers engine I) where
    abbrev On : World S → Type 0
    On w = I w.1

    param_concat-Passes : Passes On (probe_param_concat sha256_hex engine)
    unfolding probe_param_concat try_malicious contains starts_with
    param_concat-Passes (plans, s) i =
        let r = status_plan sha256_hex five 5 (codes "5") in
        let name = codes "probe.param_concat" in
        let (found, s', e, _) =
          execute-Answers engine I a (register_plan [] r.plan_id (plan_named name r)) r.plan_id
            ((codes "status", str malicious) ∷ []) (plan_named name r) (str malicious ∷ []) s
            (malicious_prepared name) i in
        rw (five_compiles sha256_hex, e) refl

    second_order-Passes : Passes On (probe_second_order sha256_hex engine)
    unfolding probe_second_order contains starts_with bound_in ◌==◌
    second_order-Passes (plans, s) i =
        let r = status_plan sha256_hex one_row 1 (codes "1") in
        let name = codes "probe.second_order" in
        let (found, s', e, _) =
          execute-Answers engine I a (register_plan [] r.plan_id (plan_named name r)) r.plan_id
            ((codes "status", str stored) ∷ []) (plan_named name r) (str stored ∷ []) s
            (stored_prepared name) i in
        rw (one_row_compiles sha256_hex, e) refl

    identifier_injection-Passes : Passes On (probe_identifier_injection sha256_hex engine)
    unfolding probe_identifier_injection all_refused
    identifier_injection-Passes (plans, s) i =
        rw (evil_table_refused sha256_hex, evil_column_refused sha256_hex) refl

    raw_sql_escalation-Passes : Passes On probe_raw_sql_escalation
    unfolding probe_raw_sql_escalation all_denied assert_capability
    raw_sql_escalation-Passes (plans, s) i = refl

    -- The exit code of security_probe.py on an engine that answers: 0 for the name of a probe, 2 for any
    -- other.
    pub security_main :
        (program probe_id : Text) (plans : Plans) (s : S)
        → I s
        → (main (security_probes sha256_hex engine) (program ∷ probe_id ∷ []) (plans, s)).0
          ≡ ok (if elem probe_id (keys (security_probes sha256_hex engine)) then 0 else 2)
    unfolding security_probes
    security_main program probe_id plans s i =
        main-Passes On (security_probes sha256_hex engine) program probe_id (plans, s)
          (
            param_concat-Passes,
            (second_order-Passes, (identifier_injection-Passes, (raw_sql_escalation-Passes, tt))),
          )
          i

    -- The exit code of audit_probe.py on an engine that answers, under every schedule of the eight
    -- threads of the race: 0 for the name of a probe, 2 for any other.
    pub audit_main :
        (to_float : Json → Outcome Error Text) (clock : ℕ → Text) (schedule : List ℕ)
        (program probe_id : Text) (plans : Plans) (s : S)
        → I s
        → (let probes = audit_probes sha256_hex to_float clock engine schedule in
            (main probes (program ∷ probe_id ∷ []) (plans, s)).0
            ≡ ok (if elem probe_id (keys probes) then 0 else 2))
    unfolding audit_probes
    audit_main to_float clock schedule program probe_id plans s i =
        main-Passes On (audit_probes sha256_hex to_float clock engine schedule) program probe_id
          (plans, s)
          (
            λ w j. chain_passes sha256_hex to_float clock,
            (
              parallel_race-Passes sha256_hex engine I a schedule,
              (λ w j. ap ok redaction_passes, (λ w j. trail_passes sha256_hex to_float clock, tt)),
            ),
          )
          i
