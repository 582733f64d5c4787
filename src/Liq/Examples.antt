-- ===== src/Liq/Examples.antt =====
-- The theorems on liq applied to programs in the manner of liq/README.md.
use lidb.Base.{
  length, ◌≤◌, Bool, not, ◌&&◌, all, is_empty, arith, ◌≡◌, refl, true, List, [], ◌∷◌, none, some,
  All, ok, err,
}
use lidb.Str.{Text, codes, ◌==◌, starts_with, is_digit, int, split_on, decimal, join, is_space}
use lidb.Str.Joined.{space}
use lidb.Dict.{lookup, put, elem, keys}
use lidb.Errors.{parse_error, unexpected_in_read}
use lidb.Liorm.Catalog.{resolve_table, resolve_column, split_ident}
use lidb.Liorm.Catalog.Tables.{catalog_allowlist}
use lidb.Liq.Syntax.{Rhs, Stmt, read, insert, param_ref, const, str_value, ReadStmt}
use lidb.Liq.Lexical.Words.{is_forbidden, is_ident, match_param}
use lidb.Liq.Parser.{parse, projection}
use lidb.Liq.Parser.Total.{IsParseFault}
use lidb.Liq.Parser.Faults.{parse_faults}
use lidb.Liq.Ir.{stmt_to_ir, listed}
use lidb.Liq.Ir.Lowering.{stmt_to_ir-lower_stmt}
use lidb.Liq.Compiler.{
  CompileResult, compile, plan_id, lower_stmt, lower_read, quoted_col, param_type, Schema,
  collect_params,
}
use lidb.Liq.Compiler.Alphabet.{IsSqlText}
use lidb.Liq.Compiler.Alphabet.Statements.{compile-IsSqlText}
use lidb.Liq.Compiler.Resolved.{IsResolved, lower_stmt-IsResolved}
use lidb.Liq.Compiler.Params.{IsSchemaOf, lower_stmt-IsSchemaOf}
use lidb.Liq.Compiler.Literals.{erase_consts, lower_stmt-erase}
use lidb.Liq.Compiler.Placeholders.{dollars, uses}
use lidb.Liq.Compiler.Placeholders.Keys.{lower_stmt-keys}
use lidb.Dict.Unique.{IsUnique}
use lidb.Liq.Print.{print_rhs, print_stmt}
use lidb.Liq.Print.Tokens.{IsPrintableRhs}
use lidb.Liq.Print.Insert.{NoMark, IsBinding}
use lidb.Liq.Print.Source.{IsSourceWord, IsPrintableStmt, parse-print}

abbrev program : Text
program =
    codes "read agent_runs { id, status } where publisher_id = $pub order created_at desc limit 50"

abbrev runs_read : ReadStmt
runs_read = record {
  table = record { raw = codes "agent_runs"; parts = codes "agent_runs" ∷ [] };
  columns = some (codes "id" ∷ codes "status" ∷ []);
  where_clause =
      some
        (record { column = codes "publisher_id"; op = codes "="; rhs = param_ref (codes "pub") });
  order_column = some (codes "created_at");
  order_desc = true;
  limit = some 50;
}

abbrev runs_sql : Text
runs_sql =
    codes
      "SELECT \"public\".\"agent_runs\".\"id\", \"public\".\"agent_runs\".\"status\" FROM \"public\".\"agent_runs\" WHERE \"public\".\"agent_runs\".\"publisher_id\" = $1 ORDER BY \"public\".\"agent_runs\".\"created_at\" DESC LIMIT 50"

abbrev runs_schema : Schema
runs_schema = (codes "pub", codes "uuid") ∷ []

-- An insert of a literal and two parameters.
abbrev publisher_insert : Stmt
publisher_insert = insert (record {
  table = record { raw = codes "publishers"; parts = codes "publishers" ∷ [] };
  bindings =
      (codes "name", const (str_value (codes "x'); --")))
      ∷ (codes "id", param_ref (codes "id"))
      ∷ (codes "public_key", param_ref (codes "public_key"))
      ∷ [];
})

-- A digest that is the same for all texts.
abbrev fixed_digest : Text → Text
fixed_digest _ = codes "0123456789abcdef01234567"

abbrev compiled_runs : CompileResult
compiled_runs = record {
  plan_id = codes "liq:0123456789abcdef";
  ir = stmt_to_ir (read runs_read);
  sql = runs_sql;
  param_schema = runs_schema;
}

program_compiles : compile fixed_digest program ≡ ok compiled_runs
unfolding compile plan_id parse ◌==◌ starts_with is_digit int split_on is_forbidden is_ident
    match_param projection decimal join lookup put elem resolve_table resolve_column split_ident
    catalog_allowlist lower_stmt lower_read quoted_col param_type
program_compiles = refl

runs_lower : lower_stmt (read runs_read) ≡ ok (runs_sql, runs_schema)
unfolding ◌==◌ split_on decimal join lookup put elem resolve_table resolve_column split_ident
    catalog_allowlist lower_stmt lower_read quoted_col param_type
runs_lower = refl

unknown_clause :
    parse (codes "read agent_runs having") ≡ err (parse_error (unexpected_in_read (codes "having")))
unfolding parse ◌==◌ starts_with is_digit int split_on is_forbidden is_ident match_param projection
unknown_clause = refl

compile-IsSqlText_example : IsSqlText runs_sql
compile-IsSqlText_example = compile-IsSqlText fixed_digest program program_compiles

lower_stmt-IsResolved_example : IsResolved (read runs_read)
lower_stmt-IsResolved_example = lower_stmt-IsResolved (read runs_read) runs_lower

lower_stmt-IsSchemaOf_example : IsSchemaOf (collect_params (read runs_read)) runs_schema
lower_stmt-IsSchemaOf_example = lower_stmt-IsSchemaOf (read runs_read) runs_lower

lower_stmt-keys_example :
    (dollars runs_sql ≡ uses (read runs_read))
    × IsUnique (keys runs_schema)
    × (length (keys runs_schema) ≤ dollars runs_sql)
lower_stmt-keys_example = lower_stmt-keys (read runs_read) runs_lower

lower_stmt-erase_example : lower_stmt (erase_consts publisher_insert) ≡ lower_stmt publisher_insert
lower_stmt-erase_example = lower_stmt-erase publisher_insert

parse_faults_example : IsParseFault (parse_error (unexpected_in_read (codes "having")))
parse_faults_example = parse_faults (codes "read agent_runs having") unknown_clause

is_source_word : Text → Bool
is_source_word t = not (is_empty t) && all (λ c. not (is_space c)) t && not (is_forbidden t)

source_words : (ts : List Text) → all is_source_word ts ≡ true → All IsSourceWord ts
unfolding is_source_word
source_words [] h = tt
source_words (t ∷ ts) h = (
  record {
    word = record { not_empty = ground arith; solid = ground arith };
    allowed = ground arith;
  },
  source_words ts (ground arith),
)

source-IsBinding :
    (field : Text) (value : Rhs)
    → is_source_word field ≡ true
    → is_source_word (print_rhs value) ≡ true
    → NoMark b',' field
    → NoMark b':' field
    → NoMark b',' (print_rhs value)
    → IsPrintableRhs value
    → IsBinding (field, value)
unfolding is_source_word
source-IsBinding field value f v fc fm vc p = record {
  field_word = record { not_empty = ground arith; solid = ground arith };
  field_comma = fc;
  field_colon = fm;
  value_word = record { not_empty = ground arith; solid = ground arith };
  value_comma = vc;
  value = p;
}

abbrev yank_insert : Stmt
yank_insert = insert (record {
  table = record { raw = codes "yanks"; parts = codes "yanks" ∷ [] };
  bindings =
      (codes "reason", const (str_value (codes "broken")))
      ∷ (codes "id", param_ref (codes "id"))
      ∷ [];
})

yank_insert-IsPrintable : IsPrintableStmt yank_insert
unfolding is_ident split_on match_param decimal is_source_word is_space is_forbidden starts_with
yank_insert-IsPrintable = record {
  table = record { matches = refl; parts_are = refl };
  bound = (
    source-IsBinding _ _ refl refl refl refl refl tt,
    (source-IsBinding _ _ refl refl refl refl refl refl, tt),
  );
}

yank_words : All IsSourceWord (print_stmt yank_insert)
unfolding is_source_word is_space is_forbidden starts_with decimal
yank_words = source_words (print_stmt yank_insert) refl

parse-print_example : parse (join space (print_stmt yank_insert)) ≡ ok yank_insert
parse-print_example = parse-print yank_insert yank_insert-IsPrintable yank_words

-- Braces with nothing between them are a projection that the IR does not tell from none.
abbrev braces_read : ReadStmt
braces_read = record runs_read { columns = some [] }

abbrev plain_read : ReadStmt
plain_read = record runs_read { columns = none }

stmt_to_ir-lower_stmt_example : lower_stmt (read braces_read) ≡ lower_stmt (read plain_read)
stmt_to_ir-lower_stmt_example =
    stmt_to_ir-lower_stmt (read braces_read) (read plain_read) (unfold stmt_to_ir listed in refl)
