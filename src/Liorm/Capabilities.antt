-- ===== src/Liorm/Capabilities.antt =====
-- liorm/capabilities.py: which profile may use raw SQL.
use lidb.Base.{
  ◌≡◌, ◌↔◌, ◌⊎◌, Bool, true, false, ◌||◌, List, [], ◌∷◌, not, Outcome, ok, err, arith,
  if◌then◌else◌,
}
use lidb.Str.{Text, codes}
use lidb.Errors.{Error, capability_denied}

pub data RawSqlCapability : Type 0 where
  session migration : RawSqlCapability

pub data Profile : Type 0 where
  agent mcp cli_admin migration_runner : Profile

-- The `value` of each enum member.
abbrev pub capability_value : RawSqlCapability → Text
capability_value session = codes "raw_sql:session"
capability_value migration = codes "raw_sql:migration"

abbrev pub profile_value : Profile → Text
profile_value agent = codes "agent"
profile_value mcp = codes "mcp"
profile_value cli_admin = codes "cli_admin"
profile_value migration_runner = codes "migration_runner"

-- _PROFILE_CAPS
profile_caps : Profile → List RawSqlCapability
profile_caps agent = []
profile_caps mcp = []
profile_caps cli_admin = session ∷ []
profile_caps migration_runner = migration ∷ []

same : RawSqlCapability → RawSqlCapability → Bool
same session session = true
same migration migration = true
same session migration = false
same migration session = false

-- `cap in allowed`
allowed_in : RawSqlCapability → List RawSqlCapability → Bool
unfolding same
allowed_in cap [] = false
allowed_in cap (c ∷ cs) = same cap c || allowed_in cap cs

unfoldable pub assert_capability : Profile → RawSqlCapability → Outcome Error Unit
unfolding profile_caps allowed_in
assert_capability profile cap =
    if not (allowed_in cap (profile_caps profile))
    then err (capability_denied (profile_value profile) (capability_value cap))
    else ok tt

-- A profile may use raw SQL exactly when it is the admin's command line for a session or the
-- migration runner for a migration; so agents and MCP clients are always refused.
pub assert_capability_iff :
    (p : Profile) (c : RawSqlCapability)
    → (assert_capability p c ≡ ok tt)
      ↔ ((p ≡ cli_admin) × (c ≡ session) ⊎ (p ≡ migration_runner) × (c ≡ migration))
unfolding assert_capability
assert_capability_iff p c = ground arith
