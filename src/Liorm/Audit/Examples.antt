-- ===== src/Liorm/Audit/Examples.antt =====
-- redact_query_log on log lines, and its theorems applied.
use lidb.Base.{◌≡◌, refl, [], ◌∷◌, ◌++◌}
use lidb.Str.{codes, is_space}
use lidb.Liorm.Audit.Redact.{key_prefix, redact_query_log}
use lidb.Liorm.Audit.Keys.{value_text}
use lidb.Liorm.Audit.Secrets.{redact_query_log-password, redact_query_log-api_key}

redacts_each_pattern :
    redact_query_log (
      codes "WHERE PassWord =  's3cret' AND api_key='abc' Authorization: Bearer eyJh.pay.sig "
      ++ codes "x eyJa.b.c, eyJx.y Bearer")
    ≡ codes "WHERE PassWord =  '[REDACTED]' AND api_key='[REDACTED]' Authorization: "
      ++ codes "Bearer [REDACTED] x [REDACTED_JWT], eyJx.y Bearer"
unfolding redact_query_log
redacts_each_pattern = refl

-- A quote of the value that is written twice, as SQL has it, ends the match.
doubled_quote_leaks :
    redact_query_log (codes "password='it''s3cret'") ≡ codes "password='[REDACTED]''s3cret'"
unfolding redact_query_log
doubled_quote_leaks = refl

second_token_leaks : redact_query_log (codes "Bearer Bearer tok") ≡ codes "Bearer [REDACTED] tok"
unfolding redact_query_log
second_token_leaks = refl

redact_query_log-password_example :
    redact_query_log (
      codes "WHERE "
      ++ b'p' ∷ codes "assword = "
      ++ value_text (codes "hunter2") (codes " LIMIT 1"))
    ≡ redact_query_log
        (codes "WHERE " ++ b'p' ∷ codes "assword = " ++ value_text (codes "x") (codes " LIMIT 1"))
redact_query_log-password_example =
    redact_query_log-password (codes "WHERE ") (codes "assword = ") (codes "hunter2") (codes "x")
      (codes " LIMIT 1") b'p' refl (unfold key_prefix is_space in refl) refl refl

redact_query_log-api_key_example :
    redact_query_log (b'A' ∷ codes "PI_KEY=" ++ value_text (codes "abc") [])
    ≡ redact_query_log (b'A' ∷ codes "PI_KEY=" ++ value_text (codes "password") [])
redact_query_log-api_key_example =
    redact_query_log-api_key [] (codes "PI_KEY=") (codes "abc") (codes "password") [] b'A' refl
      (unfold key_prefix is_space in refl) (refl, refl) (refl, refl)
