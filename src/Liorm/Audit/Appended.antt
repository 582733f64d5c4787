-- ===== src/Liorm/Audit/Appended.antt =====
-- verify_chain accepts what append makes, and nothing else.
use lidb.Base.{◌≡◌, [], none, Outcome, ok}
use lidb.Str.{Text, codes}
use lidb.Dict.{Dict, lookup}
use lidb.Errors.{Error}
use lidb.Json.{Json}
use lidb.Liorm.Audit.{AuditEntry, Entries, append}

-- The payload has no key recorded_at, which append takes out.
abbrev pub IsTimeless : AuditEntry → Type 0
IsTimeless e = lookup (codes "recorded_at") e.payload ≡ none

module _ (sha256_hex : Text → Text) (to_float : Json → Outcome Error Text) where
  -- A log that calls of append have made, each with any reading of the clock.
  pub data IsAppended : Entries → Type 0 where
    empty : IsAppended []
    more :
        (now : Text) (es : Entries) (event : Text) (payload : Dict Json) (e : AuditEntry)
        (es' : Entries)
        → IsAppended es
        → append sha256_hex to_float now es event payload ≡ ok (e, es')
        → IsAppended es'
