-- ===== src/Bench/Harness.antt =====
-- scripts/bench/harness_emit.py. The clock, the environment and json.loads of the argument are outside:
-- `main` starts from the scenarios, and what it writes is the payload.
pub mod Verdict
pub mod Exit
use lidb.Base.{
  ℕ, Bool, true, false, ◌&&◌, ◌||◌, not, is_empty, all, List, [], ◌∷◌, ◌++◌, map, Option, none,
  some, Outcome, ok, err, ◌>>=◌, traverse, if◌then◌else◌,
}
use lidb.Str.{Text, codes, ◌==◌}
use lidb.Dict.{Dict, lookup, put, keys, elem}
use lidb.Errors.{Error, type_error}
use lidb.Json.{Json, null, str, obj, arr, object, array, Fields, end, field}
use lidb.Liorm.Audit.{without}

-- A scenario object.
abbrev pub Scenario : Type 0
Scenario = Dict Json

-- s.get("status")
abbrev pub status_of : Scenario → Option Json
status_of s = lookup (codes "status") s

-- status == name
unfoldable pub is_status : Text → Option Json → Bool
is_status name (some (str s)) = s == name
is_status name _ = false

-- {x for x in statuses if x != "stub"}
unfoldable pub measured_of : List (Option Json) → List (Option Json)
unfolding is_status
measured_of [] = []
measured_of (x ∷ xs) =
    let rest = measured_of xs in if is_status (codes "stub") x then rest else x ∷ rest

-- name in statuses
unfoldable pub has_status : Text → List (Option Json) → Bool
unfolding is_status
has_status name [] = false
has_status name (x ∷ xs) = is_status name x || has_status name xs

-- What tier_status returns.
pub data Status : Type 0 where
  failing stubbed passing unknown : Status

abbrev pub status_name : Status → Text
status_name failing = codes "fail"
status_name stubbed = codes "stub"
status_name passing = codes "pass"
status_name unknown = codes "unknown"

-- tier_status of the statuses. The last two branches of the source both give "unknown".
unfoldable pub status_from : List (Option Json) → Status
unfolding has_status measured_of
status_from statuses =
    let measured = measured_of statuses in
    if has_status (codes "red") statuses
    then failing
    else if is_empty measured
    then stubbed
    else if all (is_status (codes "green")) measured
    then passing
    else unknown

-- A list or a dict is no element of a set.
abbrev pub hashable : Option Json → Outcome Error (Option Json)
hashable (some (arr _)) = err type_error
hashable (some (obj _)) = err type_error
hashable x = ok x

unfoldable pub tier_status : List Scenario → Outcome Error Status
unfolding status_from
tier_status scenarios = do
  statuses ← traverse (λ s. hashable (status_of s)) scenarios
  ok (status_from statuses)

-- The members of a dict.
abbrev pub members : Fields → Dict Json
members end = []
members (field k j fs) = (k, j) ∷ members fs

-- s.setdefault(key, value)
unfoldable pub set_default : Text → Json → Scenario → Scenario
set_default key value s = if elem key (keys s) then s else s ++ (key, value) ∷ []

abbrev pub no_engines : Json
no_engines = object ((codes "lidb", null) ∷ (codes "postgres", null) ∷ [])

-- s["engines"]["lidb"] = lidb, for the value that was popped
unfoldable pub set_engine : Json → Option Json → Scenario → Outcome Error Scenario
set_engine lidb (some (obj engines)) s =
    ok (put (codes "engines") (object (put (codes "lidb") lidb (members engines))) s)
set_engine lidb _ s = err type_error

-- if "lidb" in s: s["engines"]["lidb"] = s.pop("lidb")
abbrev pub move_lidb : Option Json → Scenario → Outcome Error Scenario
move_lidb none s = ok s
move_lidb (some lidb) s = set_engine lidb (lookup (codes "engines") s) (without (codes "lidb") s)

-- The loop body of build_payload.
unfoldable pub with_engines : Scenario → Outcome Error Scenario
unfolding set_default set_engine
with_engines s =
    let s' = set_default (codes "engines") no_engines s in move_lidb (lookup (codes "lidb") s') s'

unfoldable pub payload_of :
    (generated_at tier profile version : Text) → Status → List Scenario → Json
payload_of generated_at tier profile version status scenarios = object (
    (codes "generated_at", str generated_at)
    ∷ (codes "tier", str tier)
    ∷ (codes "profile", str profile)
    ∷ (codes "status", str (status_name status))
    ∷ (codes "compare_oracle", null)
    ∷ (codes "harness_repo", str (codes "lidb"))
    ∷ (codes "harness_version", str version)
    ∷ (codes "scenarios", array (map object scenarios))
    ∷ (codes "ph_ids", array [])
    ∷ [])

-- build_payload, with the status that its payload has
unfoldable pub build_payload :
    (generated_at tier profile version : Text) → List Scenario → Outcome Error (Status × Json)
unfolding with_engines tier_status payload_of
build_payload generated_at tier profile version scenarios = do
  moved ← traverse with_engines scenarios
  status ← tier_status moved
  ok (status, payload_of generated_at tier profile version status moved)

-- 0 if payload["status"] != "fail" else 1
abbrev pub status_code : Status → ℕ
status_code status = if not (status_name status == codes "fail") then 0 else 1

-- The exit code of main, with the payload that it writes.
unfoldable pub emit :
    (generated_at tier profile version : Text) → List Scenario → Outcome Error (ℕ × Json)
unfolding build_payload
emit generated_at tier profile version scenarios = do
  (status, payload) ← build_payload generated_at tier profile version scenarios
  ok (status_code status, payload)
