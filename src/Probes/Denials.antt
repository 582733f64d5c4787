-- ===== src/Probes/Denials.antt =====
-- The trail that the audit probes leave, and the exit codes of scripts/audit_probe.py.
use lidb.Base.{
  ℕ, ◌+◌, ◌≡◌, refl, ap, ◌∙◌, true, false, not, if◌then◌else◌, List, [], ◌∷◌, ◌++◌, some, none,
  Outcome, ok, length, All, arith,
}
use lidb.Str.{Text, codes, ◌==◌, ==_refl, contains, starts_with}
use lidb.Dict.{lookup}
use lidb.Errors.{Error}
use lidb.Json.{Json, str}
use lidb.Liorm.Audit.{
  AuditEntry, Entries, new_entry, last_hash, append, record_capability_denial, verify_chain,
}
use lidb.Liorm.Audit.Chain.{append-verify_chain}
use lidb.Liorm.Capabilities.{
  Profile, RawSqlCapability, assert_capability, profile_value, capability_value,
}
use lidb.Probes.Trail.{
  with_event, refused, check_chain, probe_query_redaction, probe_append_only_chain, record_denials,
  probe_capability_denial_trail,
}
use lidb.Probes.Security.{denied_pairs}

with_event-snoc :
    (event : Text) (es : Entries) (e : AuditEntry)
    → e.event ≡ event
    → length (with_event event (es ++ e ∷ [])) ≡ length (with_event event es) + 1
unfolding with_event
with_event-snoc event [] e h = rw (h, ==_refl event) refl
with_event-snoc event (x ∷ es) e h = ground (arith, with_event-snoc event es e h)

module _ (sha256_hex : Text → Text) (to_float : Json → Outcome Error Text) (clock : ℕ → Text) where
  -- The log behind a recorded denial.
  denied_log : ℕ → Profile → RawSqlCapability → Entries → Entries
  denied_log n profile cap log =
      log
      ++ (new_entry sha256_hex log (codes "capability.denied")
          ((codes "profile", str (profile_value profile))
            ∷ (codes "capability", str (capability_value cap))
            ∷ (codes "reason", str (codes "profile_denied"))
            ∷ [])
          (clock n))
        ∷ []

  denial_recorded :
      (n : ℕ) (profile : Profile) (cap : RawSqlCapability) (log : Entries)
      → (e : AuditEntry) × (record_capability_denial sha256_hex to_float
            (clock n)
            log
            profile
            cap
            none
          ≡ ok (e, denied_log n profile cap log))
  unfolding record_capability_denial append lookup ◌==◌ denied_log
  denial_recorded n profile cap log = (_, refl)

  denied_log-verified :
      (n : ℕ) (profile : Profile) (cap : RawSqlCapability) (log : Entries)
      → verify_chain sha256_hex log ≡ true
      → verify_chain sha256_hex (denied_log n profile cap log) ≡ true
  unfolding record_capability_denial
  denied_log-verified n profile cap log v =
      let (e, recorded) = denial_recorded n profile cap log in
      (append-verify_chain sha256_hex to_float (clock n) log (codes "capability.denied") _ recorded
        v).1

  denied_log-counted :
      (n : ℕ) (profile : Profile) (cap : RawSqlCapability) (log : Entries)
      → length (with_event (codes "capability.denied") (denied_log n profile cap log))
        ≡ length (with_event (codes "capability.denied") log) + 1
  unfolding denied_log new_entry
  denied_log-counted n profile cap log = with_event-snoc (codes "capability.denied") log _ refl

  -- Pairs that are all refused leave one entry each, in a log that stays verified.
  pub record_denials_lem :
      (n : ℕ) (pairs : List (Profile × RawSqlCapability)) (log : Entries)
      → All
          (λ (p : Profile × RawSqlCapability). refused (assert_capability p.0 p.1) ≡ ok true)
          pairs
      → verify_chain sha256_hex log ≡ true
      → (trail : Entries) × (record_denials sha256_hex to_float clock n pairs log ≡ ok (some trail))
        × (verify_chain sha256_hex trail ≡ true)
        × (length (with_event (codes "capability.denied") trail)
            ≡ length (with_event (codes "capability.denied") log) + length pairs)
  unfolding record_denials
  record_denials_lem n [] log h v = (log, refl, v, omega arith)
  record_denials_lem n ((profile, cap) ∷ pairs) log h v =
      let (e, recorded) = denial_recorded n profile cap log in
      let (trail, made, w, counted) =
        record_denials_lem (n + 1) pairs (denied_log n profile cap log) h.1
          (denied_log-verified n profile cap log v) in
      (
        trail,
        rw (h.0, recorded) made,
        w,
        omega (arith, counted, denied_log-counted n profile cap log),
      )

  pub trail_passes : probe_capability_denial_trail sha256_hex to_float clock ≡ ok true
  unfolding probe_capability_denial_trail with_event
  trail_passes =
      let (trail, made, v, counted) =
        record_denials_lem 0 denied_pairs []
          (unfold assert_capability in (refl, (refl, (refl, (refl, tt)))))
          (unfold verify_chain in refl) in
      rw made (rw (counted, v) refl)

  abbrev first_entry : AuditEntry
  first_entry =
      new_entry sha256_hex [] (codes "query.executed")
        ((codes "plan_id", str (codes "p1")) ∷ (codes "profile", str (codes "agent")) ∷ [])
        (clock 0)

  abbrev second_entry : AuditEntry
  second_entry =
      new_entry sha256_hex (first_entry ∷ []) (codes "capability.denied")
        ((codes "profile", str (codes "mcp"))
          ∷ (codes "capability", str (codes "raw_sql:session"))
          ∷ [])
        (clock 1)

  first_appended :
      append sha256_hex to_float
        (clock 0)
        []
        (codes "query.executed")
        ((codes "plan_id", str (codes "p1")) ∷ (codes "profile", str (codes "agent")) ∷ [])
      ≡ ok (first_entry, first_entry ∷ [])
  unfolding append lookup ◌==◌
  first_appended = refl

  second_appended :
      append sha256_hex to_float (clock 1) (first_entry ∷ []) (codes "capability.denied") (
        (codes "profile", str (codes "mcp"))
        ∷ (codes "capability", str (codes "raw_sql:session"))
        ∷ [])
      ≡ ok (second_entry, first_entry ∷ second_entry ∷ [])
  unfolding append lookup ◌==◌
  second_appended = refl

  two_verified : verify_chain sha256_hex (first_entry ∷ second_entry ∷ []) ≡ true
  two_verified =
      let (_, v) =
        append-verify_chain sha256_hex to_float (clock 0) [] (codes "query.executed") _
          first_appended (unfold verify_chain in refl) in
      (append-verify_chain sha256_hex to_float (clock 1) (first_entry ∷ [])
        (codes "capability.denied") _ second_appended v).1

  second_follows : (second_entry.prev_hash == first_entry.entry_hash) ≡ true
  unfolding new_entry last_hash
  second_follows = ==_refl first_entry.entry_hash

  two_checked : check_chain sha256_hex to_float clock (first_entry ∷ second_entry ∷ []) ≡ ok true
  unfolding check_chain
  two_checked =
      ap
        (λ b.
          ok (if not b then false else verify_chain sha256_hex (first_entry ∷ second_entry ∷ [])))
        second_follows
      ∙ ap ok two_verified

  pub chain_passes : probe_append_only_chain sha256_hex to_float clock ≡ ok true
  unfolding probe_append_only_chain
  chain_passes = rw (first_appended, second_appended) two_checked

pub redaction_passes : probe_query_redaction ≡ true
unfolding probe_query_redaction contains starts_with
redaction_passes = refl
