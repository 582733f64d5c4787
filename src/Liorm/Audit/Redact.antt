-- ===== src/Liorm/Audit/Redact.antt =====
-- redact_query_log of liorm/audit.py.
use lidb.Base.{ℕ, ◌+◌, Bool, not, ◌&&◌, ◌||◌, ◌++◌, Option, none, some, leb, nat_eq, if◌then◌else◌}
use lidb.Str.{Text, codes, is_space}
use lidb.Str.Regex.{Matcher, Pattern, one, many, many1, spelled, ◌then◌, replaced, sub}

-- What IGNORECASE makes of a character. Four letters outside ASCII count as letters of ASCII.
unfoldable pub fold_case : ℕ → ℕ
fold_case c =
    if leb b'A' c && leb c b'Z'
    then c + 32
    else if nat_eq c 0x130 || nat_eq c 0x131
    then b'i'
    else if nat_eq c 0x17f
    then b's'
    else if nat_eq c 0x212a
    then b'k'
    else c

-- word\s*=\s*, the group of the first two patterns
unfoldable pub key_prefix : Text → Matcher
unfolding fold_case is_space many spelled ◌then◌ one
key_prefix word =
    spelled fold_case word then many is_space then one (λ c. nat_eq c b'=') then many is_space

-- '[^']*'
unfoldable pub quoted : Matcher
unfolding one many ◌then◌
quoted =
    one (λ c. nat_eq c b'\'') then many (λ c. not (nat_eq c b'\'')) then one (λ c. nat_eq c b'\'')

-- What stands behind the group of a match.
abbrev pub redacted_value : Text → Option (Text × Text) → Option (Text × Text)
redacted_value key none = none
redacted_value key (some (_, rest)) = some (key ++ codes "'[REDACTED]'", rest)

-- A key that is matched, and then a quoted value.
abbrev pub with_value : Option (Text × Text) → Option (Text × Text)
with_value none = none
with_value (some (key, rest)) = redacted_value key (quoted rest)

-- (?i)(word\s*=\s*)'[^']*' with the replacement \1'[REDACTED]'
unfoldable pub keyed_value : Text → Pattern
unfolding key_prefix quoted
keyed_value word s = with_value (key_prefix word s)

-- [a-z0-9], and the letters and digits of the two token classes
unfoldable pub is_lower_or_digit : ℕ → Bool
is_lower_or_digit c = leb b'a' c && leb c b'z' || leb b'0' c && leb c b'9'

-- [A-Za-z0-9._~+/=-] under IGNORECASE
unfoldable pub is_bearer_char : ℕ → Bool
unfolding is_lower_or_digit fold_case
is_bearer_char c =
    is_lower_or_digit (fold_case c)
    || nat_eq c b'.'
    || nat_eq c b'_'
    || nat_eq c b'~'
    || nat_eq c b'+'
    || nat_eq c b'/'
    || nat_eq c b'='
    || nat_eq c b'-'

-- (?i)Bearer\s+[A-Za-z0-9._~+/=-]+
unfoldable pub bearer : Pattern
unfolding fold_case is_space is_bearer_char spelled many1 ◌then◌
bearer s =
    replaced ((spelled fold_case (codes "bearer") then many1 is_space then many1 is_bearer_char) s)
      (λ _. codes "Bearer [REDACTED]")

-- [A-Za-z0-9_-]
unfoldable pub is_jwt_char : ℕ → Bool
unfolding is_lower_or_digit
is_jwt_char c = is_lower_or_digit c || leb b'A' c && leb c b'Z' || nat_eq c b'_' || nat_eq c b'-'

-- eyJ[A-Za-z0-9_-]+\.[A-Za-z0-9_-]+\.[A-Za-z0-9_-]+
unfoldable pub jwt : Pattern
unfolding is_jwt_char spelled one many1 ◌then◌
jwt s =
    replaced
      ((spelled (λ c. c) (codes "eyJ")
          then many1 is_jwt_char
          then one (λ c. nat_eq c b'.')
          then many1 is_jwt_char
          then one (λ c. nat_eq c b'.')
          then many1 is_jwt_char)
        s)
      (λ _. codes "[REDACTED_JWT]")

-- The loop over _REDACT_PATTERNS
unfoldable pub redact_query_log : Text → Text
unfolding sub keyed_value bearer jwt
redact_query_log line =
    sub jwt
      (sub bearer (sub (keyed_value (codes "api_key")) (sub (keyed_value (codes "password")) line)))
