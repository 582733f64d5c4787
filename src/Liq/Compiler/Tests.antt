-- ===== src/Liq/Compiler/Tests.antt =====
-- Runs of the compiler on the programs of liq/README.md.
use lidb.Base.{refl, Outcome, ok, ◌≡◌, [], ◌∷◌, ◌>>=◌}
use lidb.Str.{Text, codes, ◌==◌, starts_with, is_digit, int, split_on, decimal, join}
use lidb.Dict.{lookup, put, elem}
use lidb.Errors.{Error}
use lidb.Liorm.Catalog.{resolve_table, resolve_column, split_ident}
use lidb.Liorm.Catalog.Tables.{catalog_allowlist}
use lidb.Liq.Lexical.Words.{is_forbidden, is_ident, match_param}
use lidb.Liq.Parser.{parse, projection}
use lidb.Liq.Compiler.{
  lower_stmt, lower_read, lower_insert, lower_update, quoted_col, param_type, Lowered,
}

lowered : Text → Outcome Error Lowered
unfolding parse ◌==◌ starts_with is_digit int split_on is_forbidden is_ident match_param projection
    decimal join lookup put elem resolve_table resolve_column split_ident catalog_allowlist
    lower_stmt lower_read lower_insert lower_update quoted_col param_type
lowered source = parse source >>= lower_stmt

filtered_read :
    lowered (
      codes
        "read agent_runs { id, status }\n where publisher_id = $pub order created_at desc limit 50")
    ≡ ok (
      codes
          "SELECT \"public\".\"agent_runs\".\"id\", \"public\".\"agent_runs\".\"status\" FROM \"public\".\"agent_runs\" WHERE \"public\".\"agent_runs\".\"publisher_id\" = $1 ORDER BY \"public\".\"agent_runs\".\"created_at\" DESC LIMIT 50",
      (codes "pub", codes "uuid") ∷ [],
    )
unfolding lowered
filtered_read = refl

-- Two placeholders, and one key for them.
repeated_parameter :
    lowered (codes "insert publishers { id: $x, name: $x }")
    ≡ ok (
      codes
          "INSERT INTO \"public\".\"publishers\" (\"public\".\"publishers\".\"id\", \"public\".\"publishers\".\"name\") VALUES ($1, $2)",
      (codes "x", codes "text") ∷ [],
    )
unfolding lowered
repeated_parameter = refl
