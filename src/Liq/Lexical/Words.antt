-- ===== src/Liq/Lexical/Words.antt =====
-- The regular expressions _FORBIDDEN, _PARAM and _IDENT of liq/parser.py as matchers. A `$` at the
-- end of a pattern matches at the end of the text and before a newline there.
use lidb.Base.{
  ℕ, Bool, true, false, ◌&&◌, ◌||◌, [], ◌∷◌, Option, none, some, nat_eq, leb, if◌then◌else◌,
}
use lidb.Str.{Text, starts_with}

-- [a-zA-Z_]
unfoldable pub is_word_start : ℕ → Bool
is_word_start c = leb b'a' c && leb c b'z' || leb b'A' c && leb c b'Z' || nat_eq c b'_'

-- [a-zA-Z0-9_]
unfoldable pub is_word_char : ℕ → Bool
unfolding is_word_start
is_word_char c = is_word_start c || leb b'0' c && leb c b'9'

-- [a-zA-Z0-9_]*, as much as there is: what it matches and what follows
unfoldable pub word_chars : Text → Text × Text
word_chars [] = ([], [])
word_chars (c ∷ cs) =
    let rest = word_chars cs in if is_word_char c then (c ∷ rest.0, rest.1) else ([], c ∷ cs)

-- [a-zA-Z_][a-zA-Z0-9_]*
unfoldable pub match_name : Text → Option (Text × Text)
match_name [] = none
match_name (c ∷ cs) =
    if is_word_start c then some (c ∷ (word_chars cs).0, (word_chars cs).1) else none

-- `$` of a pattern
unfoldable pub at_end : Text → Bool
at_end [] = true
at_end (c ∷ []) = nat_eq c b'\n'
at_end (c ∷ d ∷ s) = false

-- (?:\.NAME)?$ behind the first name
ends_ident : Text → Bool
ends_ident [] = true
ends_ident (c ∷ cs) =
    at_end (c ∷ cs)
    || nat_eq c b'.' && elim (match_name cs) [ none ↦ false | some (_, rest) ↦ at_end rest ]

-- _IDENT.match(s)
unfoldable pub is_ident : Text → Bool
unfolding is_word_char word_chars match_name at_end ends_ident
is_ident s = elim (match_name s) [ none ↦ false | some (_, rest) ↦ ends_ident rest ]

-- _PARAM.match(s).group(1)
unfoldable pub match_param : Text → Option Text
unfolding is_word_char word_chars match_name at_end
match_param [] = none
match_param (c ∷ cs) =
    if nat_eq c b'$'
    then elim (match_name cs) [
      | none ↦ none
      | some (name, rest) ↦ if at_end rest then some name else none
    ]
    else none

-- _FORBIDDEN.search(s)
unfoldable pub is_forbidden : Text → Bool
is_forbidden [] = false
is_forbidden (c ∷ cs) =
    nat_eq c b';' || nat_eq c b'$' && starts_with cs (b'{' ∷ []) || is_forbidden cs
