-- ===== src/Liq/Print/Source.antt =====
-- Printed statements as source text.
use lidb.Base.{◌≡◌, refl, ◌∙◌, false, ◌||◌, List, [], ◌∷◌, ◌++◌, ok, arith, All}
use lidb.Str.{Text, codes, ◌==◌, join, starts_with}
use lidb.Str.Joined.{IsWord, space, split-join, strip-join}
use lidb.Liq.Syntax.{Stmt, read, insert, update, delete}
use lidb.Liq.Lexical.{reject_forbidden}
use lidb.Liq.Lexical.Words.{is_forbidden}
use lidb.Liq.Parser.{parse_verb, parse_tokens, parse, lower}
use lidb.Liq.Print.{print_stmt}
use lidb.Liq.Print.Read.{IsPrintable, IsIdentRef, IsPrintableWhere, parse_read-print}
use lidb.Liq.Print.Write.{IsPrintableUpdate, parse_update-print, parse_delete-print}
use lidb.Liq.Print.Insert.{IsPrintableInsert, parse_insert-print}

-- A token that can stand in a source text: a word with no semicolon and no "${".
pub record IsSourceWord (t : Text) : Type 0 where
  pub word : IsWord t
  pub allowed : is_forbidden t ≡ false

words : (ts : List Text) → All IsSourceWord ts → All IsWord ts
words [] h = tt
words (t ∷ ts) h = (h.0.word, words ts h.1)

-- A space parts what is forbidden.
is_forbidden-space :
    (s t : Text) → is_forbidden (s ++ space ++ t) ≡ (is_forbidden s || is_forbidden t)
unfolding is_forbidden starts_with
is_forbidden-space [] t = ground arith
is_forbidden-space (c ∷ []) t = ground arith
is_forbidden-space (c ∷ d ∷ s) t = ground (arith, is_forbidden-space (d ∷ s) t)

is_forbidden-join : (ts : List Text) → All IsSourceWord ts → is_forbidden (join space ts) ≡ false
unfolding join
is_forbidden-join [] h = unfold is_forbidden in refl
is_forbidden-join (t ∷ []) h = h.0.allowed
is_forbidden-join (t ∷ u ∷ ts) h =
    rw (is_forbidden-space t (join space (u ∷ ts)), h.0.allowed) (is_forbidden-join (u ∷ ts) h.1)

-- The source text of some tokens is read as those tokens.
pub parse-join :
    (t : Text) (ts : List Text)
    → All IsSourceWord (t ∷ ts)
    → parse (join space (t ∷ ts)) ≡ parse_tokens (t ∷ ts)
unfolding parse reject_forbidden
parse-join t ts h =
    let (stripped, some_text) = strip-join t ts (words (t ∷ ts) h) in
    rw (is_forbidden-join (t ∷ ts) h, stripped, some_text, split-join (t ∷ ts) (words (t ∷ ts) h))

-- What can be printed of a statement.
abbrev pub IsPrintableStmt : Stmt → Type 0
IsPrintableStmt (read s) = IsPrintable s
IsPrintableStmt (insert s) = IsPrintableInsert s
IsPrintableStmt (update s) = IsPrintableUpdate s
IsPrintableStmt (delete s) = IsIdentRef s.table × IsPrintableWhere s.where_clause

-- The source text of a statement of any of the four kinds, printed with any mix of its clauses, is
-- parsed back to that statement, if none of its tokens is empty or has a space, a semicolon or "${"
-- in it, and if its parts are such that the grammar can hold them (IsPrintableStmt).
pub parse-print :
    (s : Stmt)
    → IsPrintableStmt s
    → All IsSourceWord (print_stmt s)
    → parse (join space (print_stmt s)) ≡ ok s
unfolding parse_tokens parse_verb lower ◌==◌
parse-print (read s) h w = parse-join (codes "read") _ w ∙ rw (parse_read-print s h)
parse-print (insert s) h w = parse-join (codes "insert") _ w ∙ rw (parse_insert-print s h)
parse-print (update s) h w = parse-join (codes "update") _ w ∙ rw (parse_update-print s h)
parse-print (delete s) h w = parse-join (codes "delete") _ w ∙ rw (parse_delete-print s h.0 h.1)
