-- ===== src/Liorm/Embed/Flatten.antt =====
-- _flatten_sql of liorm/embed_engine.py.
use lidb.Base.{[], ◌∷◌, Option, none, some, nat_eq, if◌then◌else◌}
use lidb.Str.{Text, codes, decimal_value}
use lidb.Str.Regex.{Pattern, sub}

-- [^"]* with what is behind it
unfoldable pub name_chars : Text → Text × Text
name_chars [] = ([], [])
name_chars (c ∷ cs) =
    let rest = name_chars cs in if nat_eq c b'"' then ([], c ∷ cs) else (c ∷ rest.0, rest.1)

-- The name of `"[^"]+"` with what is behind it, once the first quote is taken.
abbrev pub closed_name : Text × Text → Option (Text × Text)
closed_name ([], rest) = none
closed_name (n ∷ ns, []) = none
closed_name (n ∷ ns, q ∷ rest) = some (n ∷ ns, rest)

-- "[^"]+"
unfoldable pub quoted_name : Pattern
unfolding name_chars
quoted_name [] = none
quoted_name (c ∷ cs) = if nat_eq c b'"' then closed_name (name_chars cs) else none

-- \."[^"]+"
unfoldable pub dotted_name : Pattern
unfolding quoted_name
dotted_name [] = none
dotted_name (c ∷ cs) = if nat_eq c b'.' then quoted_name cs else none

-- What a pattern matches behind another.
abbrev pub behind : Option (Text × Text) → Pattern → Option (Text × Text)
behind none p = none
behind (some (_, rest)) p = p rest

-- "[^"]+"\."([^"]+)"
unfoldable pub relation : Pattern
unfolding quoted_name dotted_name
relation s = behind (quoted_name s) dotted_name

-- "[^"]+"\."([^"]+)"\."([^"]+)"
unfoldable pub column : Pattern
unfolding relation dotted_name
column s = behind (relation s) dotted_name

-- \d* with what is behind it; \d is a decimal digit of Unicode.
unfoldable pub after_digits : Text → Text
after_digits [] = []
after_digits (c ∷ cs) =
    let rest = after_digits cs in elim (decimal_value c) [ none ↦ c ∷ cs | some _ ↦ rest ]

-- \d+ with the replacement "?"
unfoldable pub digits : Pattern
unfolding after_digits
digits [] = none
digits (c ∷ cs) = elim (decimal_value c) [
  | none ↦ none
  | some _ ↦ some (codes "?", after_digits cs)
]

-- \$(\d+), _PARAM_RE
unfoldable pub placeholder : Pattern
unfolding digits
placeholder [] = none
placeholder (c ∷ cs) = if nat_eq c b'$' then digits cs else none

unfoldable pub flatten_sql : Text → Text
unfolding sub column relation placeholder
flatten_sql pg_sql = sub placeholder (sub relation (sub column pg_sql))
