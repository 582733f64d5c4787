-- ===== src/Pipeline.antt =====
-- The way of a source text through liq/compiler.py, register_plan and execute to the engine.
mod Examples
use lidb.Base.{
  ◌≡◌, refl, sym, ap, subst, ◌∙◌, List, [], ◌∷◌, Option, none, some, Outcome, ok, err, ◌>>=◌,
  bind-eq-ok, Ensures, All, true, if◌then◌else◌,
}
use lidb.Str.{Text, ◌==◌, ==_refl}
use lidb.Dict.{lookup, keys}
use lidb.Errors.{Error}
use lidb.Json.{Json}
use lidb.Liorm.Execute.{
  Params, Plans, Rows, RegisteredPlan, ExecuteResult, Engine, register_plan, execute, run_engine,
}
use lidb.Liorm.Execute.Checks.{SameKeys, NoValueIn, Bound}
use lidb.Liorm.Execute.Outcomes.{Accepts}
use lidb.Liorm.Execute.Refusals.{execute_returns, register_plan-lookup}
use lidb.Liq.Syntax.{Stmt}
use lidb.Liq.Ir.{stmt_to_ir}
use lidb.Liq.Parser.{parse}
use lidb.Liq.Compiler.Placeholders.{dollars, uses}
use lidb.Liq.Compiler.Placeholders.Statements.{lower_stmt-dollars}
use lidb.Liq.Compiler.{Schema, CompileResult, Lowered, compile, plan_id, lower_stmt, collect_params}
use lidb.Liq.Compiler.Alphabet.{IsSqlText}
use lidb.Liq.Compiler.Alphabet.Statements.{compile-IsSqlText}
use lidb.Liq.Compiler.Resolved.{IsResolved, lower_stmt-IsResolved}
use lidb.Liq.Compiler.Params.{IsSchemaOf, lower_stmt-IsSchemaOf}

-- A compiled source, as the arguments of register_plan.
abbrev pub plan_named : Text → CompileResult → RegisteredPlan
plan_named name r = record { name = name; ir = r.ir; sql = r.sql; param_schema = r.param_schema }

-- What is known of a source that compiles.
pub record IsCompiled (source : Text) (r : CompileResult) : Type 0 where
  pub stmt : Stmt
  pub parsed : parse source ≡ ok stmt
  pub resolved : IsResolved stmt
  pub sql_text : IsSqlText r.sql
  pub schema : IsSchemaOf (collect_params stmt) r.param_schema
  pub lowered : lower_stmt stmt ≡ ok (r.sql, r.param_schema)
  pub placeholders : dollars r.sql ≡ uses stmt

pub compile-IsCompiled :
    (sha256_hex : Text → Text) (source : Text) {r : CompileResult}
    → compile sha256_hex source ≡ ok r
    → IsCompiled source r
unfolding compile
compile-IsCompiled sha256_hex source {r} h =
    let (stmt, parsed, rest) =
      bind-eq-ok (parse source)
        (λ stmt. lower_stmt stmt >>= λ (l : Lowered). ok (record {
          plan_id = plan_id sha256_hex source (stmt_to_ir stmt);
          ir = stmt_to_ir stmt;
          sql = l.0;
          param_schema = l.1;
        }))
        h in
    let (l, lowered, made) = bind-eq-ok (lower_stmt stmt) _ rest in
    record {
      stmt = stmt;
      parsed = parsed;
      resolved = lower_stmt-IsResolved stmt lowered;
      sql_text = compile-IsSqlText sha256_hex source h;
      schema =
          subst
            (λ (o : Outcome Error CompileResult).
              Ensures (λ (x : CompileResult). IsSchemaOf (collect_params stmt) x.param_schema) o)
            made (lower_stmt-IsSchemaOf stmt lowered);
      lowered =
          subst
            (λ (o : Outcome Error CompileResult).
              Ensures (λ (x : CompileResult). lower_stmt stmt ≡ ok (x.sql, x.param_schema)) o)
            made lowered;
      placeholders =
          subst
            (λ (o : Outcome Error CompileResult).
              Ensures (λ (x : CompileResult). dollars x.sql ≡ uses stmt) o)
            made (lower_stmt-dollars stmt lowered);
    }

-- What is known of a call that has run a compiled source.
pub record HasRun {S : Type 0} (engine : Engine S) (source : Text) (params : Params)
    (res : ExecuteResult) (s s' : S) : Type 0 where
  pub stmt : Stmt
  pub parsed : parse source ≡ ok stmt
  pub resolved : IsResolved stmt
  pub schema : Schema
  pub lowered : lower_stmt stmt ≡ ok (res.sql, schema)
  pub placeholders : dollars res.sql ≡ uses stmt
  pub sql_text : IsSqlText res.sql
  pub same_keys : SameKeys (keys params) (collect_params stmt)
  pub no_value : NoValueIn res.sql params
  pub bound : Bound params (collect_params stmt) res.bound_params
  pub ran : run_engine engine res.sql res.bound_params s ≡ (ok res.rows, s')

registered_again :
    (plans : Plans) (id : Text) (p plan : RegisteredPlan)
    → lookup id (register_plan plans id p) ≡ some plan
    → p ≡ plan
registered_again plans id p plan h = cc (h, register_plan-lookup plans id id p, same)
  where
    same : (if id == id then some p else lookup id plans) ≡ some p
    same = rw (==_refl id) refl

module _ {S : Type 0} (engine : Engine S) where
  HasRun-IsCompiled :
      (source name : Text) (params : Params) (r : CompileResult) (plan : RegisteredPlan)
      (res : ExecuteResult) (s s' : S)
      → IsCompiled source r
      → plan_named name r ≡ plan
      → res.sql ≡ plan.sql
      → SameKeys (keys params) (keys plan.param_schema)
      → NoValueIn plan.sql params
      → Bound params (keys plan.param_schema) res.bound_params
      → run_engine engine plan.sql res.bound_params s ≡ (ok res.rows, s')
      → HasRun engine source params res s s'
  HasRun-IsCompiled source name params r plan res s s' c same sql same_keys no_value bound ran =
      let names : keys plan.param_schema ≡ collect_params c.stmt =
        ap (λ (p : RegisteredPlan). keys p.param_schema) (sym same) ∙ c.schema.keys_are in
      let text : r.sql ≡ res.sql = ap (λ (p : RegisteredPlan). p.sql) same ∙ sym sql in
      record {
        stmt = c.stmt;
        parsed = c.parsed;
        resolved = c.resolved;
        schema = r.param_schema;
        lowered = subst (λ (t : Text). lower_stmt c.stmt ≡ ok (t, r.param_schema)) text c.lowered;
        placeholders = subst (λ (t : Text). dollars t ≡ uses c.stmt) text c.placeholders;
        sql_text = subst IsSqlText text c.sql_text;
        same_keys = subst (SameKeys (keys params)) names same_keys;
        no_value = subst (λ (t : Text). NoValueIn t params) (sym sql) no_value;
        bound = subst (λ (ks : List Text). Bound params ks res.bound_params) names bound;
        ran =
            subst (λ (t : Text). run_engine engine t res.bound_params s ≡ (ok res.rows, s'))
              (sym sql) ran;
      }

  -- A source that compiles, registered and executed: a call that returns has run the SQL that the parsed
  -- source is lowered to, with one placeholder sign for every use of a parameter in the statement, over
  -- tables and columns of the catalog only, as text in which nothing of the source opens a string, ends
  -- the statement or begins a comment, with the values of exactly the parameters of the statement bound
  -- in their order, none of them a text that occurs in the SQL.
  pub compile-execute :
      (sha256_hex : Text → Text) (source name : Text) (plans : Plans) (params : Params) (s : S)
      {r : CompileResult} {res : ExecuteResult} {s' : S}
      → compile sha256_hex source ≡ ok r
      → execute engine (register_plan plans r.plan_id (plan_named name r)) r.plan_id params s
        ≡ (ok res, s')
      → HasRun engine source params res s s'
  compile-execute sha256_hex source name plans params s {r} {res} {s'} compiled returned =
      let (plan, accepts, named, sql, ran) =
        execute_returns engine (register_plan plans r.plan_id (plan_named name r)) r.plan_id params
          s returned in
      HasRun-IsCompiled source name params r plan res s s'
        (compile-IsCompiled sha256_hex source compiled)
        (registered_again plans r.plan_id (plan_named name r) plan accepts.registered) sql
        accepts.same_keys accepts.no_value accepts.bound_is ran
