-- ===== src/Liorm/Embed/Examples.antt =====
-- The theorems on the engine's bridge applied to a small host, and runs of _flatten_sql.
use lidb.Base.{ℕ, suc, ◌≡◌, refl, true, false, [], ◌∷◌, ◌++◌, none, some, ok, err}
use lidb.Str.{codes, decimal_value, split_on, ◌==◌, decimal}
use lidb.Dict.{lookup, elem, put}
use lidb.Errors.{compile_error, read_literal, runtime_error}
use lidb.Json.{num}
use lidb.Liorm.Execute.{run_engine}
use lidb.Liorm.Catalog.{resolve_column, resolve_table, split_ident}
use lidb.Liorm.Catalog.Tables.{catalog_allowlist}
use lidb.Liq.Syntax.{param_ref}
use lidb.Liq.Compiler.{quoted_col, where_rhs, param_type}
use lidb.Liorm.Embed.Clauses.{flat_where, flatten_sql-where_rhs}
use lidb.Liorm.Embed.Flatten.{flatten_sql}
use lidb.Liorm.Embed.Binary.{Host, embed_binary}
use lidb.Liorm.Embed.Session.{
  Bridge, ensure_session, embedded_engine, exec_with, exec_parameterized, has_failed,
}
use lidb.Liorm.Embed.Missing.{run_engine-missing}
use lidb.Liorm.Embed.Seed.{seed_test_fixtures}
use lidb.Liorm.Embed.Sessions.{ensure_session_again, run_engine-ensure_session}
use lidb.Liorm.Embed.Columns.{flatten_sql-quoted_col}

flat_delete :
    flatten_sql (codes "DELETE FROM \"public\".\"yanks\" WHERE \"public\".\"yanks\".\"id\" = $12")
    ≡ codes "DELETE FROM yanks WHERE id = ?"
unfolding flatten_sql decimal_value
flat_delete = refl

-- A host whose program always succeeds; the state counts the calls.
abbrev host : Host ℕ
host = record {
  data_dir_variable = none;
  embed_variable = none;
  repo_root = codes "/lidb";
  has_cmake = true;
  make_temp_dir = λ n. (codes "/tmp/lidb-liorm-1", n);
  remove_dir = λ _ n. n;
  make_dirs = λ _ n. n;
  file_size = λ _ n. some 4096;
  run_process = λ _ _ n. (record { succeeded = true; stdout = codes "{}"; stderr = [] }, suc n);
  load_rows = λ _. ok [];
  repr = λ _. codes "[]";
}

abbrev cold : Bridge ℕ
cold = record { session = none; session_dir = none; ready = none; world = 0 }

ensure_session_again_example :
    ensure_session host (ensure_session host cold).1
    ≡ ((ensure_session host cold).0, (ensure_session host cold).1)
ensure_session_again_example = ensure_session_again host cold

run_engine-ensure_session_example :
    run_engine (embedded_engine host) (codes "SELECT 1") (num 3 ∷ []) cold
    ≡ exec_with host
        (codes "SELECT 1")
        (num 3 ∷ [])
        (ensure_session host cold).0
        (ensure_session host cold).1
run_engine-ensure_session_example =
    run_engine-ensure_session host (codes "SELECT 1") (num 3 ∷ []) cold

flatten_sql-quoted_col_example :
    flatten_sql (codes "\"public\".\"yanks\".\"reason\"" ++ codes " = $1")
    ≡ codes "reason" ++ flatten_sql (codes " = $1")
flatten_sql-quoted_col_example =
    flatten_sql-quoted_col (codes "yanks") (codes "reason") (codes " = $1") yanks_reason
  where
    yanks_reason :
        quoted_col (codes "yanks") (codes "reason") ≡ ok (codes "\"public\".\"yanks\".\"reason\"")
    yanks_reason =
        unfold quoted_col resolve_column resolve_table split_ident split_on ◌==◌ lookup elem
          catalog_allowlist in
        refl

flatten_sql-where_rhs_example :
    flatten_sql (codes " WHERE \"public\".\"yanks\".\"id\" = $2" ++ codes " LIMIT 5")
    ≡ flat_where (codes "id") (codes " LIMIT 5")
flatten_sql-where_rhs_example =
    flatten_sql-where_rhs (compile_error read_literal) (codes "yanks") 2 [] (codes "id")
      (codes "rid") (codes " LIMIT 5") yanks_where refl
  where
    yanks_where :
        where_rhs
          (compile_error read_literal)
          (codes "yanks")
          2
          []
          (codes "id")
          (param_ref (codes "rid"))
        ≡ ok (codes " WHERE \"public\".\"yanks\".\"id\" = $2", (codes "rid", codes "uuid") ∷ [])
    yanks_where =
        unfold where_rhs quoted_col resolve_column resolve_table split_ident split_on ◌==◌ lookup
          elem catalog_allowlist put param_type decimal in
        refl

-- A start, and a count and an insertion for each of four tables.
cold_seed : seed_test_fixtures host (λ _. ok true) cold ≡ (
  ok tt,
  record {
    session = some (codes "/tmp/lidb-liorm-1");
    session_dir = some (codes "/tmp/lidb-liorm-1");
    ready = some true;
    world = 10;
  },
)
unfolding seed_test_fixtures exec_parameterized
cold_seed = refl

-- A host without cmake and without the program.
abbrev bare : Host ℕ
bare = record host { has_cmake = false; file_size = λ _ _. none }

run_engine-missing_example :
    (run_engine (embedded_engine bare) (codes "SELECT 1") [] cold).0 ≡ err runtime_error
    × has_failed (run_engine (embedded_engine bare) (codes "SELECT 1") [] cold).1.ready ≡ true
run_engine-missing_example = run_engine-missing bare no_file refl (codes "SELECT 1") [] cold refl
  where
    no_file : (w : ℕ) → embed_binary bare w ≡ none
    no_file w = unfold embed_binary in refl
