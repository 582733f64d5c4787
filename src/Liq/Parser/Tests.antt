-- ===== src/Liq/Parser/Tests.antt =====
-- Runs of the parser on the programs of liq/README.md and on refused ones.
use lidb.Base.{refl, Outcome, ok, err, ◌≡◌, some, true, [], ◌∷◌}
use lidb.Str.{Text, codes, ◌==◌, starts_with, is_digit, int, split_on}
use lidb.Errors.{Error, parse_error, forbidden_token, value_error}
use lidb.Liq.Syntax.{Stmt, read, param_ref}
use lidb.Liq.Lexical.Words.{is_forbidden, is_ident, match_param}
use lidb.Liq.Parser.{parse, projection}

-- Unfolding this unfolds all that `parse` runs through.
parse_run : Text → Outcome Error Stmt
unfolding parse ◌==◌ starts_with is_digit int split_on is_forbidden is_ident match_param projection
parse_run = parse

filtered_read :
    parse (
      codes
        "read agent_runs { id, status }\n where publisher_id = $pub order created_at desc limit 50")
    ≡ ok (
        read (record {
          table = record { raw = codes "agent_runs"; parts = codes "agent_runs" ∷ [] };
          columns = some (codes "id" ∷ codes "status" ∷ []);
          where_clause = some (record {
            column = codes "publisher_id";
            op = codes "=";
            rhs = param_ref (codes "pub");
          });
          order_column = some (codes "created_at");
          order_desc = true;
          limit = some 50;
        }))
unfolding parse_run
filtered_read = refl

semicolon :
    parse (codes "read agent_runs; drop table agent_runs") ≡ err (parse_error forbidden_token)
unfolding parse_run
semicolon = refl

-- A superscript two is a digit for isdigit() and none for int().
superscript_limit : parse (codes "read agent_runs limit ²") ≡ err value_error
unfolding parse_run
superscript_limit = refl
