-- ===== src/Liorm/Embed/Seed.antt =====
-- seed_test_fixtures of liorm/embed_engine.py.
use lidb.Base.{
  ℕ, zero, suc, Bool, true, false, List, [], ◌∷◌, ◌++◌, Option, none, some, Outcome, ok,
}
use lidb.Str.{Text, codes}
use lidb.Dict.{lookup}
use lidb.Errors.{Error}
use lidb.Json.{Json, str}
use lidb.Action.{Action, done, pure, ◌>>=◌, ◌>>◌}
use lidb.Liorm.Execute.{Rows}
use lidb.Liorm.Embed.Binary.{Host}
use lidb.Liorm.Embed.Session.{Bridge, exec_on, ensure_session}

abbrev pub publisher_id : Json
publisher_id = str (codes "00000000-0000-4000-8000-000000000010")

abbrev pub package_id : Json
package_id = str (codes "00000000-0000-4000-8000-000000000020")

-- text * n
unfoldable pub times : ℕ → Text → Text
times zero text = []
times (suc n) text = text ++ times n text

-- `is_zero` is int(...) == 0, which raises on what is no number.
module _ {W : Type 0} (host : Host W) (is_zero : Json → Outcome Error Bool) where
  -- count(table) == 0, from the rows of the query
  abbrev pub no_count : Rows → Outcome Error Bool
  no_count [] = ok true
  no_count (row ∷ _) = elim (lookup (codes "n") row) [ none ↦ ok true | some n ↦ is_zero n ]

  unfoldable pub is_empty_table : Text → Text → Action (Bridge W) Bool
  is_empty_table dir table = do
    rows ← exec_on host dir (codes "SELECT COUNT(*) AS n FROM " ++ table) []
    pure (no_count rows)

  -- The rows that the statement returns are dropped.
  abbrev pub insert_if : Bool → Text → Text → List Json → Action (Bridge W) (Unit {0})
  insert_if false dir sql values = done tt
  insert_if true dir sql values = do _ ← exec_on host dir sql values; done tt

  -- One `if count(table) == 0` of the function.
  unfoldable pub seed_table : Text → Text → Text → List Json → Action (Bridge W) (Unit {0})
  unfolding is_empty_table
  seed_table dir table sql values = do
    empty ← is_empty_table dir table
    insert_if empty dir sql values

  unfoldable pub seed_tables : Text → Action (Bridge W) (Unit {0})
  unfolding seed_table times
  seed_tables dir = do
    seed_table dir (codes "publishers")
        (codes "INSERT INTO publishers (id, name, public_key) VALUES (?, ?, ?)")
        (publisher_id ∷ str (codes "pytest-publisher") ∷ str (times 32 (codes "00")) ∷ [])
    seed_table dir (codes "agent_runs")
        (codes "INSERT INTO agent_runs (id, status, publisher_id) VALUES (?, ?, ?)")
        (str (codes "00000000-0000-4000-8000-000000000001")
          ∷ str (codes "running")
          ∷ publisher_id
          ∷ [])
    seed_table dir (codes "packages")
        (codes "INSERT INTO packages (id, name, description) VALUES (?, ?, ?)")
        (package_id ∷ str (codes "li-pytest") ∷ str (codes "liorm test package") ∷ [])
    seed_table dir (codes "package_versions")
        (codes
          "INSERT INTO package_versions (id, package_id, version, tree_digest, coverage_pct, publisher_id) VALUES (?, ?, ?, ?, ?, ?)")
        (str (codes "00000000-0000-4000-8000-000000000030")
          ∷ package_id
          ∷ str (codes "0.0.1-test")
          ∷ str (codes "sha256:pytest-tree")
          ∷ str (codes "100.0")
          ∷ publisher_id
          ∷ [])

  -- Without a session nothing is done.
  abbrev pub seed_with : Option Text → Action (Bridge W) (Unit {0})
  seed_with none = done tt
  seed_with (some dir) = seed_tables dir

  unfoldable pub seed_test_fixtures : Action (Bridge W) (Unit {0})
  unfolding ensure_session seed_tables
  seed_test_fixtures st = let (session, st') = ensure_session host st in seed_with session st'
