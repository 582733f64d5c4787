-- ===== src/Str/Space.antt =====
-- str.split(), str.strip() and str.rstrip(chars) of Python's str.
use lidb.Base.{
  ℕ, Bool, true, false, ◌&&◌, ◌||◌, List, [], ◌∷◌, ◌++◌, leb, nat_eq, is_empty, if◌then◌else◌,
}
use lidb.Str.Basic.{Text}

-- c.isspace()
unfoldable pub is_space : ℕ → Bool
is_space c =
    leb 9 c && leb c 13
    || leb 28 c && leb c 32
    || nat_eq c 0x85
    || nat_eq c 0xa0
    || nat_eq c 0x1680
    || leb 0x2000 c && leb c 0x200a
    || nat_eq c 0x2028
    || nat_eq c 0x2029
    || nat_eq c 0x202f
    || nat_eq c 0x205f
    || nat_eq c 0x3000

-- The word read so far, if there is one, before the words that follow.
abbrev pub flush : Text → List Text → List Text
flush [] ws = ws
flush (c ∷ cs) ws = (c ∷ cs) ∷ ws

-- The words of a text behind the start `word` of one.
unfoldable pub split_from : Text → Text → List Text
split_from word [] = flush word []
split_from word (c ∷ cs) = elim (is_space c) [
  | true ↦ flush word (split_from [] cs)
  | false ↦ split_from (word ++ c ∷ []) cs
]

-- s.split()
unfoldable pub split : Text → List Text
unfolding is_space split_from
split s = split_from [] s

-- s.lstrip(), with the characters to drop as a test
unfoldable pub lstrip : (ℕ → Bool) → Text → Text
lstrip p [] = []
lstrip p (c ∷ cs) = if p c then lstrip p cs else c ∷ cs

-- s.rstrip()
unfoldable pub rstrip : (ℕ → Bool) → Text → Text
rstrip p [] = []
rstrip p (c ∷ cs) = let rest = rstrip p cs in if is_empty rest && p c then [] else c ∷ rest

-- s.strip()
unfoldable pub strip : Text → Text
unfolding is_space lstrip rstrip
strip s = rstrip is_space (lstrip is_space s)
