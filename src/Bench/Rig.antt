-- ===== src/Bench/Rig.antt =====
-- What scripts/bench/registry_oltp_compare.py uses of the system, and its calls of lidb_embed.
use lidb.Base.{
  Bool, false, not, List, [], ◌∷◌, ◌++◌, map, Option, none, some, Outcome, ok, err, if◌then◌else◌,
}
use lidb.Str.{Text, codes}
use lidb.Errors.{Error, runtime_error}
use lidb.Json.{str, array, dumps}
use lidb.Action.{Action, done, pure, ◌>>=◌, ◌>>◌}
use lidb.Liorm.Embed.Binary.{Process, non_empty}

-- A call of psycopg2 on the connection or its cursor.
pub data PgCall : Type 0 where
  execute : Text → List Text → PgCall
  fetchone commit close_cursor close : PgCall

-- The clock, the environment, files, programs with their input, and Postgres: `connect` says whether
-- psycopg2 is installed.
pub record Rig (W F : Type 0) : Type 0 where
  pub perf_counter : W → F × W
  pub root : Text
  pub embed_variable : Option Text
  pub database_url : Option Text
  pub is_file : Text → W → Bool
  pub make_dir : Text → W → W
  pub make_temp_dir : W → Text × W
  pub call : List Text → Option Text → Action W Process
  pub connect : Text → Action W Bool
  pub pg : PgCall → Action W Unit

-- The SQL texts of pg_seed.
abbrev pub tables_sql : Text
tables_sql =
    codes "\n"
    ++ codes "        CREATE TABLE IF NOT EXISTS publishers (\n"
    ++ codes
        "            id SERIAL PRIMARY KEY, name TEXT UNIQUE NOT NULL, public_key BYTEA NOT NULL DEFAULT '\\x00'\n"
    ++ codes "        );\n"
    ++ codes "        CREATE TABLE IF NOT EXISTS packages (\n"
    ++ codes "            id SERIAL PRIMARY KEY, name TEXT UNIQUE NOT NULL, description TEXT\n"
    ++ codes "        );\n"
    ++ codes "        CREATE TABLE IF NOT EXISTS package_versions (\n"
    ++ codes "            id SERIAL PRIMARY KEY, package_id INT REFERENCES packages(id),\n"
    ++ codes "            version TEXT NOT NULL, tree_digest TEXT NOT NULL, proof_digest TEXT,\n"
    ++ codes "            coverage_pct DOUBLE PRECISION NOT NULL DEFAULT 90,\n"
    ++ codes "            publisher_id INT REFERENCES publishers(id) DEFAULT 1,\n"
    ++ codes "            published_at TIMESTAMPTZ DEFAULT now(), yanked BOOLEAN DEFAULT false,\n"
    ++ codes "            UNIQUE (package_id, version)\n"
    ++ codes "        );\n"
    ++ codes "        "

abbrev pub publishers_sql : Text
publishers_sql = codes "INSERT INTO publishers (name) VALUES ('bench-pub') ON CONFLICT DO NOTHING"

abbrev pub packages_sql : Text
packages_sql = codes "INSERT INTO packages (name) VALUES ('bench-pkg') ON CONFLICT DO NOTHING"

module _ {W F : Type 0} (rig : Rig W F) where
  open rig use {root, embed_variable, is_file, make_dir, call}

  abbrev pub smoke_dir : Text
  smoke_dir = root ++ codes "/build/smoke"

  -- The first of the paths that is a file.
  unfoldable pub first_file : List Text → W → Option Text
  first_file [] w = none
  first_file (path ∷ paths) w =
      let rest = first_file paths w in if is_file path w then some path else rest

  abbrev pub candidates : List Text
  candidates = (smoke_dir ++ codes "/lidb_embed") ∷ (root ++ codes "/build/lidb_embed") ∷ []

  abbrev pub override : Option Text → List Text
  override none = []
  override (some path) = path ∷ []

  unfoldable pub embed_binary : W → Option Text
  unfolding first_file
  embed_binary w = first_file (override (non_empty embed_variable) ++ candidates) w

  -- The return codes of cmake are not looked at.
  unfoldable pub build_embed : Action W (Option Text)
  unfolding embed_binary
  build_embed w =
      let cmake =
        call
          (codes "cmake"
            ∷ codes "-S"
            ∷ root
            ∷ codes "-B"
            ∷ smoke_dir
            ∷ codes "-DCMAKE_BUILD_TYPE=Release"
            ∷ [])
          none
        >> call
            (codes "cmake"
              ∷ codes "--build"
              ∷ smoke_dir
              ∷ codes "--target"
              ∷ codes "lidb_embed"
              ∷ codes "-j"
              ∷ [])
            none in
      (cmake >>= λ _ w'. (ok (embed_binary w'), w')) (make_dir smoke_dir w)

  abbrev pub or_build : Option Text → Action W (Option Text)
  or_build none = build_embed
  or_build (some exe) = done (some exe)

  -- embed_binary() or build_embed(), and the RuntimeError without either
  abbrev pub found_or_raise : Option Text → Outcome Error Text
  found_or_raise none = err runtime_error
  found_or_raise (some exe) = ok exe

  unfoldable pub embed_or_raise : Action W Text
  unfolding embed_binary build_embed
  embed_or_raise w = (or_build (embed_binary w) >>= λ exe. pure (found_or_raise exe)) w

  abbrev pub succeed_or_raise : Process → Outcome Error Unit
  succeed_or_raise proc = if not proc.succeeded then err runtime_error else ok tt

  unfoldable pub lidb_exec : (data_dir sql : Text) (params : List Text) → Action W Unit
  unfolding embed_or_raise
  lidb_exec data_dir sql params = do
    exe ← embed_or_raise
    proc ←
        call (exe ∷ codes "exec-json" ∷ data_dir ∷ sql ∷ [])
          (some (dumps (array (map (λ p. str p) params))))
    pure (succeed_or_raise proc)

  unfoldable pub lidb_open_migrate : (data_dir : Text) → Action W Unit
  unfolding embed_or_raise
  lidb_open_migrate data_dir = do
    exe ← embed_or_raise
    opened ← call (exe ∷ codes "open" ∷ data_dir ∷ []) none
    pure (succeed_or_raise opened)
    migrated ← call (exe ∷ codes "migrate" ∷ data_dir ∷ []) none
    pure (succeed_or_raise migrated)

  -- Whether there is a connection.
  abbrev pub pg_connect : Option Text → Action W Bool
  pg_connect none = done false
  pg_connect (some url) = rig.connect url

  unfoldable pub pg_seed : Action W Unit
  pg_seed = do
    rig.pg (execute tables_sql [])
    rig.pg (execute publishers_sql [])
    rig.pg (execute packages_sql [])
    rig.pg commit
    rig.pg close_cursor
