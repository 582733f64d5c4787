-- ===== src/Liorm/Audit.antt =====
-- liorm/audit.py: the hash-chained log. The hash and the reading of a float are parameters, and so is
-- the time that an entry without one gets.
pub mod Redact
pub mod Secrets
mod Examples
pub mod Keys
pub mod Chain
pub mod Bodies
pub mod Tamper
pub mod Appended
use lidb.Base.{
  ℕ, suc, ◌+◌, Bool, true, false, ◌&&◌, List, [], ◌∷◌, ◌++◌, Option, none, some, Outcome, ok, err,
  ◌>>=◌, length, not, nat_eq, if◌then◌else◌,
}
use lidb.Str.{Text, codes, ◌==◌}
use lidb.Dict.{Dict, lookup}
use lidb.Errors.{Error}
use lidb.Json.{Json, null, num, float, str, object, dumps_compact}
use lidb.Liorm.Capabilities.{Profile, RawSqlCapability, profile_value, capability_value}

-- _GENESIS
abbrev pub genesis : Text
genesis = codes "genesis"

pub record AuditEntry : Type 0 where
  pub seq : ℕ
  pub event : Text
  pub payload : Dict Json
  pub recorded_at : Text
  pub prev_hash : Text
  pub entry_hash : Text

abbrev pub Entries : Type 0
Entries = List AuditEntry

-- payload.pop(key, None): the rest of the payload
unfoldable pub without : Text → Dict Json → Dict Json
without key [] = []
without key ((k, v) ∷ d) = let rest = without key d in if k == key then rest else (k, v) ∷ rest

-- self._entries[-1].entry_hash if self._entries else _GENESIS
unfoldable pub last_hash : Text → Entries → Text
last_hash prev [] = prev
last_hash prev (e ∷ es) = last_hash e.entry_hash es

-- time.time() if raw_ts is None else float(raw_ts)
recorded_time : (Json → Outcome Error Text) → Text → Option Json → Outcome Error Text
recorded_time to_float now none = ok now
recorded_time to_float now (some null) = ok now
recorded_time to_float now (some raw_ts) = to_float raw_ts

-- reason or "profile_denied"
abbrev pub given_reason : Option Text → Text
given_reason none = codes "profile_denied"
given_reason (some []) = codes "profile_denied"
given_reason (some (c ∷ cs)) = c ∷ cs

-- json.dumps(body, sort_keys=True, separators=(",", ":"))
abbrev pub body_text : ℕ → Text → Dict Json → Text → Text → Text
body_text seq event payload recorded_at prev_hash = dumps_compact (
    object (
      (codes "seq", num seq)
      ∷ (codes "event", str event)
      ∷ (codes "payload", object payload)
      ∷ (codes "recorded_at", float recorded_at)
      ∷ (codes "prev_hash", str prev_hash)
      ∷ []))

module _ (sha256_hex : Text → Text) where
  unfoldable pub hash_of : ℕ → Text → Dict Json → Text → Text → Text
  hash_of seq event payload recorded_at prev_hash =
      sha256_hex (body_text seq event payload recorded_at prev_hash)

  -- The entry that `append` makes for a log.
  unfoldable pub new_entry : Entries → Text → Dict Json → Text → AuditEntry
  new_entry es event payload recorded_at =
      let prev = last_hash genesis es in
      record {
        seq = length es;
        event = event;
        payload = payload;
        recorded_at = recorded_at;
        prev_hash = prev;
        entry_hash = hash_of (length es) event payload recorded_at prev;
      }

  module _ (to_float : Json → Outcome Error Text) (now : Text) where
    unfoldable pub append : Entries → Text → Dict Json → Outcome Error (AuditEntry × Entries)
    unfolding recorded_time without
    append es event payload = do
      t ← recorded_time to_float now (lookup (codes "recorded_at") payload)
      let entry = new_entry es event (without (codes "recorded_at") payload) t
      ok (entry, es ++ entry ∷ [])

    unfoldable pub record_capability_denial :
        Entries → Profile → RawSqlCapability → Option Text → Outcome Error (AuditEntry × Entries)
    unfolding append
    record_capability_denial es profile cap reason = append es (codes "capability.denied") (
        (codes "profile", str (profile_value profile))
        ∷ (codes "capability", str (capability_value cap))
        ∷ (codes "reason", str (given_reason reason))
        ∷ [])

  -- The loop of verify_chain from the index `idx` and the hash `prev`.
  unfoldable pub verify_from : ℕ → Text → Entries → Bool
  unfolding hash_of
  verify_from idx prev [] = true
  verify_from idx prev (e ∷ es) =
      let rest = verify_from (idx + 1) e.entry_hash es in
      if not (nat_eq e.seq idx)
      then false
      else if not (e.prev_hash == prev)
      then false
      else if not (e.entry_hash == hash_of e.seq e.event e.payload e.recorded_at e.prev_hash)
      then false
      else rest

  unfoldable pub verify_chain : Entries → Bool
  unfolding verify_from
  verify_chain es = verify_from 0 genesis es
