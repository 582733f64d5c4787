-- ===== src/Liorm/Embed/Session.antt =====
-- The session of liorm/embed_engine.py: the module's globals, and its calls of lidb_embed.
use lidb.Base.{
  Bool, true, false, not, List, [], ◌∷◌, ◌++◌, map, ℕ, zero, suc, Option, none, some, Outcome, ok,
  err, if◌then◌else◌,
}
use lidb.Str.{Text, codes, ◌==◌}
use lidb.Dict.{lookup}
use lidb.Errors.{Error, runtime_error}
use lidb.Json.{Json, str, array, dumps, py_str}
use lidb.Liorm.Execute.{Rows, Engine}
use lidb.Liorm.Embed.Binary.{Process, Host, non_empty, run_embed}
use lidb.Liorm.Embed.Flatten.{flatten_sql}

-- _SESSION, by its data directory, _SESSION_DIR and _READY, and the state of the system
pub record Bridge (W : Type 0) : Type 0 where
  pub session : Option Text
  pub session_dir : Option Text
  pub ready : Option Bool
  pub world : W

-- For a directory with no slash at its end.
abbrev pub heap_catalog_path : Text → Text
heap_catalog_path data_dir = data_dir ++ codes "/.lidb/catalog.heap"

-- catalog.is_file() and catalog.stat().st_size > 0
abbrev pub is_filled : Option ℕ → Bool
is_filled none = false
is_filled (some zero) = false
is_filled (some (suc _)) = true

-- proc.stdout or "{}"
abbrev pub output_or_empty : Text → Text
output_or_empty [] = codes "{}"
output_or_empty (c ∷ cs) = c ∷ cs

-- `bool(rows) and rows[0].get("ok") == "1"`
abbrev pub says_ok : Outcome Error Rows → Bool
says_ok (err e) = false
says_ok (ok []) = false
says_ok (ok (row ∷ _)) = elim (lookup (codes "ok") row) [
  | some (str s) ↦ s == codes "1"
  | _ ↦ false
]

-- `_READY is False`
abbrev pub has_failed : Option Bool → Bool
has_failed none = false
has_failed (some ready) = not ready

abbrev pub is_some : Option Text → Bool
is_some none = false
is_some (some _) = true

module _ {W : Type 0} (host : Host W) where
  open host use {data_dir_variable, make_temp_dir, remove_dir, file_size, load_rows, repr}

  -- EmbeddedSession.open_and_migrate
  unfoldable pub open_and_migrate : Text → W → Bool × W
  unfolding run_embed
  open_and_migrate data_dir w =
      let (opened, w1) = run_embed host (codes "open" ∷ data_dir ∷ []) none w in
      let (migrated, w2) = run_embed host (codes "migrate" ∷ data_dir ∷ []) none w1 in
      if not opened.succeeded
      then (false, w1)
      else if not migrated.succeeded
      then (false, w2)
      else (is_filled (file_size (heap_catalog_path data_dir) w2), w2)

  -- What exec_parameterized makes of the process.
  abbrev pub rows_of : Process → Outcome Error Rows
  rows_of proc =
      if not proc.succeeded then err runtime_error else load_rows (output_or_empty proc.stdout)

  -- EmbeddedSession.exec_parameterized
  unfoldable pub exec_parameterized : Text → Text → List Json → W → Outcome Error Rows × W
  unfolding run_embed
  exec_parameterized data_dir sql params w =
      let (proc, w') =
        run_embed host (codes "exec-json" ∷ data_dir ∷ flatten_sql sql ∷ [])
          (some (dumps (array (map (λ p. str (py_str repr p)) params)))) w in
      (rows_of proc, w')

  -- exec_parameterized on the module's globals
  abbrev pub exec_on : Text → Text → List Json → Bridge W → Outcome Error Rows × Bridge W
  exec_on data_dir sql params st =
      let (r, w) = exec_parameterized data_dir sql params st.world in (r, record st { world = w })

  unfoldable pub default_data_dir : Bridge W → Text × Bridge W
  default_data_dir st = elim (non_empty data_dir_variable) [
    | some dir ↦ (dir, st)
    | none ↦ elim st.session_dir [
      | some dir ↦ (dir, st)
      | none ↦
          let (dir, w) = make_temp_dir st.world in
          (dir, record st { session_dir = some dir; world = w })
    ]
  ]

  -- The part of ensure_session under the lock, with no session and no failed start before.
  unfoldable pub start : Bridge W → Option Text × Bridge W
  unfolding default_data_dir open_and_migrate
  start st =
      let (dir, st1) = default_data_dir st in
      let (opened, w) = open_and_migrate dir st1.world in
      if not opened
      then (none, record st1 { session = none; ready = some false; world = w })
      else (some dir, record st1 { session = some dir; ready = some true; world = w })

  -- The session that there is, or a new one.
  unfoldable pub open_or_start : Option Text → Bridge W → Option Text × Bridge W
  unfolding start
  open_or_start (some dir) st = (some dir, st)
  open_or_start none st = start st

  unfoldable pub ensure_session : Bridge W → Option Text × Bridge W
  unfolding open_or_start
  ensure_session st = if has_failed st.ready then (none, st) else open_or_start st.session st

  unfoldable pub engine_ready : Bridge W → Bool × Bridge W
  unfolding ensure_session
  engine_ready st = let (session, st') = ensure_session st in (is_some session, st')

  -- What a call does with the session that it gets.
  abbrev pub exec_with : Text → List Json → Option Text → Bridge W → Outcome Error Rows × Bridge W
  exec_with sql params none st = (err runtime_error, st)
  exec_with sql params (some dir) st = exec_on dir sql params st

  unfoldable pub execute_sql : Text → List Json → Bridge W → Outcome Error Rows × Bridge W
  unfolding ensure_session
  execute_sql sql params st =
      let (session, st') = ensure_session st in exec_with sql params session st'

  -- An exception of the call counts as not ready.
  unfoldable pub probe_engine_ready : Bridge W → Bool × Bridge W
  unfolding execute_sql
  probe_engine_ready st =
      let (r, st') = execute_sql (codes "SELECT 1 AS ok") [] st in (says_ok r, st')

  unfoldable pub reset_session_for_tests : Bridge W → Bridge W
  reset_session_for_tests st = elim st.session_dir [
    | none ↦ record st { session = none; ready = none }
    | some dir ↦ record {
      session = none;
      session_dir = none;
      ready = none;
      world = remove_dir dir st.world;
    }
  ]

  -- The two functions of the module that liorm/execute.py calls.
  abbrev pub embedded_engine : Engine (Bridge W)
  embedded_engine = record { engine_ready = engine_ready; execute_sql = execute_sql }
