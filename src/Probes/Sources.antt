-- ===== src/Probes/Sources.antt =====
-- The sources that the probes compile, and their plans. The digest of the plan id stays a parameter.
use lidb.Base.{
  Bool, if◌then◌else◌, ap, ◌∙◌, ℕ, ◌≡◌, refl, false, [], ◌∷◌, ◌++◌, none, some, ok, err,
}
use lidb.Str.{Text, codes, ==_refl, ◌==◌, starts_with, is_digit, int, split_on, decimal, join}
use lidb.Dict.{lookup, put, elem}
use lidb.Errors.{catalog_error, unknown_table, unknown_column}
use lidb.Liorm.Catalog.{resolve_table, resolve_column, split_ident}
use lidb.Liorm.Catalog.Tables.{catalog_allowlist}
use lidb.Liorm.Execute.{register_plan}
use lidb.Liorm.Execute.Refusals.{register_plan-lookup}
use lidb.Pipeline.{plan_named}
use lidb.Liq.Syntax.{Stmt, read, param_ref}
use lidb.Liq.Lexical.Words.{is_forbidden, is_ident, match_param}
use lidb.Liq.Parser.{parse, projection}
use lidb.Liq.Ir.{stmt_to_ir}
use lidb.Liq.Compiler.{
  CompileResult, compile, plan_id, lower_stmt, lower_read, quoted_col, param_type,
}

-- read agent_runs where status = $status limit n
abbrev pub status_read : ℕ → Stmt
status_read limit = read (record {
  table = record { raw = codes "agent_runs"; parts = codes "agent_runs" ∷ [] };
  columns = none;
  where_clause =
      some (record { column = codes "status"; op = codes "="; rhs = param_ref (codes "status") });
  order_column = none;
  order_desc = false;
  limit = some limit;
})

abbrev pub status_sql : Text
status_sql =
    codes
      "SELECT * FROM \"public\".\"agent_runs\" WHERE \"public\".\"agent_runs\".\"status\" = $1 LIMIT "

abbrev pub five : Text
five = codes "read agent_runs where status = $status limit 5"

abbrev pub one_row : Text
one_row = codes "read agent_runs where status = $status limit 1"

-- read agent_runs limit 3
abbrev pub race_source : Text
race_source = codes "read agent_runs limit 3"

abbrev pub race_read : Stmt
race_read = read (record {
  table = record { raw = codes "agent_runs"; parts = codes "agent_runs" ∷ [] };
  columns = none;
  where_clause = none;
  order_column = none;
  order_desc = false;
  limit = some 3;
})

module _ (sha256_hex : Text → Text) where
  -- The plan of a source that reads one row, or five.
  abbrev pub status_plan : Text → ℕ → Text → CompileResult
  status_plan source limit shown = record {
    plan_id = plan_id sha256_hex source (stmt_to_ir (status_read limit));
    ir = stmt_to_ir (status_read limit);
    sql = status_sql ++ shown;
    param_schema = (codes "status", codes "text") ∷ [];
  }

  abbrev pub race_plan : CompileResult
  race_plan = record {
    plan_id = plan_id sha256_hex race_source (stmt_to_ir race_read);
    ir = stmt_to_ir race_read;
    sql = codes "SELECT * FROM \"public\".\"agent_runs\" LIMIT 3";
    param_schema = [];
  }

  pub five_compiles : compile sha256_hex five ≡ ok (status_plan five 5 (codes "5"))
  unfolding compile parse ◌==◌ starts_with is_digit int split_on is_forbidden is_ident match_param
      projection decimal join lookup put elem resolve_table resolve_column split_ident
      catalog_allowlist lower_stmt lower_read quoted_col param_type
  five_compiles = refl

  pub one_row_compiles : compile sha256_hex one_row ≡ ok (status_plan one_row 1 (codes "1"))
  unfolding compile parse ◌==◌ starts_with is_digit int split_on is_forbidden is_ident match_param
      projection decimal join lookup put elem resolve_table resolve_column split_ident
      catalog_allowlist lower_stmt lower_read quoted_col param_type
  one_row_compiles = refl

  pub race_source_compiles : compile sha256_hex race_source ≡ ok race_plan
  unfolding compile parse ◌==◌ starts_with is_digit int split_on is_forbidden is_ident match_param
      projection decimal join lookup put elem resolve_table resolve_column split_ident
      catalog_allowlist lower_stmt lower_read quoted_col param_type
  race_source_compiles = refl

  pub evil_table_refused :
      compile sha256_hex (codes "read evil_table limit 1")
      ≡ err (catalog_error (unknown_table (codes "public.evil_table")))
  unfolding compile parse ◌==◌ starts_with is_digit int split_on is_forbidden is_ident match_param
      projection decimal join lookup put elem resolve_table resolve_column split_ident
      catalog_allowlist lower_stmt lower_read quoted_col param_type
  evil_table_refused = refl

  pub evil_column_refused :
      compile sha256_hex (codes "read agent_runs { id, not_a_column } limit 1")
      ≡ err (catalog_error (unknown_column (codes "public.agent_runs") (codes "not_a_column")))
  unfolding compile parse ◌==◌ starts_with is_digit int split_on is_forbidden is_ident match_param
      projection decimal join lookup put elem resolve_table resolve_column split_ident
      catalog_allowlist lower_stmt lower_read quoted_col param_type
  evil_column_refused = refl

-- A plan that has just been registered under its id is found.
pub registered_found :
    (r : CompileResult) (name : Text)
    → lookup r.plan_id (register_plan [] r.plan_id (plan_named name r)) ≡ some (plan_named name r)
registered_found r name =
    register_plan-lookup [] r.plan_id r.plan_id (plan_named name r)
    ∙ ap (λ (b : Bool). if b then some (plan_named name r) else lookup r.plan_id [])
        (==_refl r.plan_id)
