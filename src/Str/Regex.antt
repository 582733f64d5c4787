-- ===== src/Str/Regex.antt =====
-- What the modules use of Python's re: matchers that never go back on a choice, and re.sub.
pub mod Substitution
pub mod Local
use lidb.Base.{
  ℕ, zero, suc, ◌-◌, Bool, [], ◌∷◌, ◌++◌, Option, none, some, length, nat_eq, if◌then◌else◌,
}
use lidb.Str.Basic.{Text}

-- What is matched at the front of a text, with what is behind it.
abbrev pub Matcher : Type 0
Matcher = Text → Option (Text × Text)

-- One character that passes a test.
unfoldable pub one : (ℕ → Bool) → Matcher
one test [] = none
one test (c ∷ cs) = if test c then some (c ∷ [], cs) else none

-- The characters in front that pass a test, with the rest.
unfoldable pub span : (ℕ → Bool) → Text → Text × Text
span test [] = ([], [])
span test (c ∷ cs) =
    let rest = span test cs in if test c then (c ∷ rest.0, rest.1) else ([], c ∷ cs)

-- [...]*, where what follows in the expression begins with no character of the class
unfoldable pub many : (ℕ → Bool) → Matcher
unfolding span
many test s = some (span test s)

-- The characters of a word, one after the other, as `fold` shows them.
unfoldable pub spelled : (ℕ → ℕ) → Text → Matcher
spelled fold [] s = some ([], s)
spelled fold (w ∷ ws) [] = none
spelled fold (w ∷ ws) (c ∷ cs) =
    let rest = spelled fold ws cs in
    if nat_eq (fold c) w then elim rest [ none ↦ none | some (a, t) ↦ some (c ∷ a, t) ] else none

-- What a matcher adds to what is matched already.
abbrev pub onto : Option (Text × Text) → Matcher → Option (Text × Text)
onto none q = none
onto (some (a, rest)) q = elim (q rest) [ none ↦ none | some (b, t) ↦ some (a ++ b, t) ]

-- One expression after another.
infixl 20 ◌then◌
unfoldable pub ◌then◌ : Matcher → Matcher → Matcher
(p then q) s = onto (p s) q

-- [...]+
unfoldable pub many1 : (ℕ → Bool) → Matcher
unfolding ◌then◌ one many
many1 test = one test then many test

-- The replacement of a match at the front of a text, with what is behind the match.
abbrev pub Pattern : Type 0
Pattern = Text → Option (Text × Text)

-- A pattern that replaces what is matched by `f` of it.
abbrev pub replaced : Option (Text × Text) → (Text → Text) → Option (Text × Text)
replaced none f = none
replaced (some (a, rest)) f = some (f a, rest)

-- re.sub from the front of a text, of which the first `skip` characters belong to a match.
unfoldable pub sub_from : Pattern → ℕ → Text → Text
sub_from p skip [] = []
sub_from p (suc k) (c ∷ cs) = sub_from p k cs
sub_from p zero (c ∷ cs) = elim (p (c ∷ cs)) [
  | none ↦ c ∷ sub_from p zero cs
  | some (replacement, rest) ↦ replacement ++ sub_from p (length cs - length rest) cs
]

unfoldable pub sub : Pattern → Text → Text
unfolding sub_from
sub p s = sub_from p zero s
