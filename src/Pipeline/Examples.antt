-- ===== src/Pipeline/Examples.antt =====
-- A source text that is compiled, registered and executed.
use lidb.Base.{ℕ, suc, ◌≡◌, refl, true, false, [], ◌∷◌, none, some, ok}
use lidb.Str.{Text, codes, ◌==◌, starts_with, contains, is_digit, int, split_on, decimal, join}
use lidb.Dict.{lookup, put, elem}
use lidb.Json.{str}
use lidb.Liorm.Catalog.{resolve_table, resolve_column, split_ident}
use lidb.Liorm.Catalog.Tables.{catalog_allowlist}
use lidb.Liorm.Execute.{
  Params, ExecuteResult, Engine, register_plan, execute, prepare, keys_match, check_values,
  ordered_params, run_engine,
}
use lidb.Liq.Syntax.{read, param_ref}
use lidb.Liq.Lexical.Words.{is_forbidden, is_ident, match_param}
use lidb.Liq.Parser.{parse, projection}
use lidb.Liq.Ir.{stmt_to_ir}
use lidb.Liq.Compiler.{
  CompileResult, compile, plan_id, lower_stmt, lower_read, quoted_col, param_type,
}
use lidb.Pipeline.{plan_named, HasRun, compile-execute}

abbrev source : Text
source = codes "read yanks where id = $id"

abbrev digest : Text → Text
digest _ = codes "0123456789abcdef01"

abbrev compiled : CompileResult
compiled = record {
  plan_id = codes "liq:0123456789abcdef";
  ir = stmt_to_ir (
      read (record {
        table = record { raw = codes "yanks"; parts = codes "yanks" ∷ [] };
        columns = none;
        where_clause =
            some (record { column = codes "id"; op = codes "="; rhs = param_ref (codes "id") });
        order_column = none;
        order_desc = false;
        limit = none;
      }));
  sql = codes "SELECT * FROM \"public\".\"yanks\" WHERE \"public\".\"yanks\".\"id\" = $1";
  param_schema = (codes "id", codes "uuid") ∷ [];
}

source_compiles : compile digest source ≡ ok compiled
unfolding compile plan_id parse ◌==◌ starts_with is_digit int split_on is_forbidden is_ident
    match_param projection decimal join lookup put elem resolve_table resolve_column split_ident
    catalog_allowlist lower_stmt lower_read quoted_col param_type
source_compiles = refl

-- An engine that is ready, counts its calls and answers with no rows.
abbrev counting_engine : Engine ℕ
counting_engine = record {
  engine_ready = λ n. (true, n);
  execute_sql = λ sql bound n. (ok [], suc n);
}

abbrev params : Params
params = (codes "id", str (codes "0000-0010")) ∷ []

abbrev result : ExecuteResult
result = record {
  plan_id = compiled.plan_id;
  sql = compiled.sql;
  bound_params = str (codes "0000-0010") ∷ [];
  rows = [];
}

compiled_executes :
    execute counting_engine
      (register_plan [] compiled.plan_id (plan_named (codes "yank") compiled))
      compiled.plan_id
      params
      0
    ≡ (ok result, 1)
unfolding execute prepare register_plan put lookup ◌==◌ keys_match elem check_values contains
    starts_with ordered_params run_engine
compiled_executes = refl

compile-execute_example : HasRun counting_engine source params result 0 1
compile-execute_example =
    compile-execute counting_engine digest source (codes "yank") [] params 0 source_compiles
      compiled_executes
