-- ===== src/Liq/Parser/Faults.antt =====
-- The errors that the parser can raise, over all statements.
use lidb.Base.{
  ℕ, zero, suc, ◌<◌, ◌≡◌, ◌≢◌, refl, Bool, true, false, not, ◌||◌, List, [], ◌∷◌, Outcome, ok, err,
  ◌>>=◌, ◌>>◌, raise_if, traverse, arith, length, Bool-cases, Option-cases, inl, inr, Meets-bind,
  Meets-if, of_Meets, is_empty,
}
use lidb.Str.{Text, codes, ◌==◌, split, strip, join, split_on}
use lidb.Str.Words.{split-strip-ne-nil}
use lidb.Errors.{Error}
use lidb.Liq.Syntax.{UpdateStmt}
use lidb.Liq.Lexical.{reject_forbidden, ident, rhs_of, predicate}
use lidb.Liq.Lexical.Words.{is_forbidden}
use lidb.Liq.Parser.{
  fuel_for, parse_read, split_colon, binding, stripped, parse_bindings, last_and_rest, parse_insert,
  set_bindings, update_loop, parse_update, delete_where, delete_from, parse_delete, lower,
  parse_verb, parse_tokens, parse,
}
use lidb.Liq.Parser.Total.{
  IsParseFault, Ends, Any, Leaves, rhs_of-Ends, ident-Ends, predicate-Ends, parse_read-Ends,
}

-- `if b: raise e`, and what follows it.
checked :
    {A : Type 0} (b : Bool) (e : Error) (m : Outcome Error A)
    → IsParseFault e
    → Ends Any m
    → Ends Any (raise_if b e >> m)
checked true e m h k = h
checked false e m h k = k

-- The steps of a do block, each of which ends.
module _ {A B : Type 0} where
  and_then :
      (m : Outcome Error A) (f : A → Outcome Error B)
      → Ends Any m
      → ((a : A) → Ends Any (f a))
      → Ends Any (m >>= f)
  and_then m f h k = Meets-bind Any Any IsParseFault m f h (λ a _. k a)

traverse-Ends :
    {A B : Type 0} (f : A → Outcome Error B)
    → ((a : A) → Ends Any (f a))
    → (xs : List A) → Ends Any (traverse f xs)
traverse-Ends f h [] = tt
traverse-Ends f h (x ∷ xs) =
    and_then (f x) _ (h x) λ y. and_then (traverse f xs) _ (traverse-Ends f h xs) λ ys. tt

binding-Ends : (part : Text) → Ends Any (binding part)
unfolding binding
binding-Ends part = elim (Option-cases (split_colon part)) [
  | inl e ↦ rw (binding, e) tt
  | inr ((field, val), e) ↦
      rw (binding, e)
        (Meets-bind Any Any IsParseFault (rhs_of (strip val)) _ (rhs_of-Ends (strip val)) λ r _. tt)
]

parse_bindings-Ends : (inner : Text) → Ends Any (parse_bindings inner)
unfolding parse_bindings
parse_bindings-Ends inner = traverse-Ends binding binding-Ends (stripped (split_on b',' inner))

parse_insert-Ends : (toks : List Text) → Ends Any (parse_insert toks)
unfolding parse_insert
parse_insert-Ends [] = tt
parse_insert-Ends (a ∷ []) = tt
parse_insert-Ends (a ∷ b ∷ []) = tt
parse_insert-Ends (a ∷ b ∷ c ∷ []) = tt
parse_insert-Ends (verb ∷ name ∷ brace ∷ tok ∷ toks) =
    Meets-if Any IsParseFault (not (brace == codes "{")) _ _ (λ _. tt)
      λ _. and_then (ident name) _ (ident-Ends name) λ table.
        let ends = last_and_rest tok toks in
        checked (not (ends.1 == codes "}")) _ _ tt (
          and_then (parse_bindings (join (codes " ") ends.0)) _
            (parse_bindings-Ends (join (codes " ") ends.0)) λ bs. tt)

set_bindings-Ends : (toks : List Text) → Ends Any (set_bindings toks)
unfolding set_bindings
set_bindings-Ends [] = tt
set_bindings-Ends (a ∷ []) = ground arith
set_bindings-Ends (a ∷ b ∷ []) = ground arith
set_bindings-Ends (col ∷ eq ∷ value ∷ rest) =
    Meets-if Any IsParseFault (col == codes "where" || col == codes "returning") _ _ (λ _. tt)
      λ _.
        Meets-if Any IsParseFault (not (eq == codes "=")) _ _ (λ _. tt)
          λ _.
            and_then (rhs_of value) _ (rhs_of-Ends value)
              λ r. and_then (set_bindings rest) _ (set_bindings-Ends rest) λ more. tt

update_loop-Ends :
    (f : ℕ) (s : UpdateStmt) (toks : List Text) → length toks < f → Ends Any (update_loop f s toks)
unfolding update_loop
update_loop-Ends zero s toks h = absurd (omega arith)
update_loop-Ends (suc f) s [] h = tt
update_loop-Ends (suc f) s (tok ∷ toks) h =
    Meets-if Any IsParseFault (tok == codes "where") _ _
      (λ _.
        Meets-bind (Leaves toks) Any IsParseFault (predicate toks) _ (predicate-Ends toks)
          λ r l. update_loop-Ends f _ r.1 (omega arith))
      λ _. Meets-if Any IsParseFault (tok == codes "returning") _ _ (λ _. tt) λ _. tt

parse_update-Ends : (toks : List Text) → Ends Any (parse_update toks)
unfolding parse_update
parse_update-Ends (verb ∷ name ∷ set ∷ tok ∷ next ∷ toks) =
    Meets-if Any IsParseFault (not (verb == codes "update") || not (set == codes "set")) _ _
      (λ _. tt)
      λ _. and_then (ident name) _ (ident-Ends name) λ table.
        and_then (set_bindings (tok ∷ next ∷ toks)) _ (set_bindings-Ends (tok ∷ next ∷ toks)) λ r.
          and_then (update_loop (fuel_for r.1) _ r.1) _
            (update_loop-Ends (fuel_for r.1) _ r.1 (omega arith))
            λ s. checked (is_empty r.0) _ (ok s) tt tt
parse_update-Ends _ = tt

delete_where-Ends : (toks : List Text) → Ends Any (delete_where toks)
unfolding delete_where
delete_where-Ends [] = tt
delete_where-Ends (tok ∷ toks) =
    Meets-if Any IsParseFault (not (tok == codes "where")) _ _ (λ _. tt)
      λ _.
        Meets-bind (Leaves toks) Any IsParseFault (predicate toks) _ (predicate-Ends toks) λ r _. tt

delete_from-Ends : (toks : List Text) → Ends Any (delete_from toks)
unfolding delete_from
delete_from-Ends [] = tt
delete_from-Ends (name ∷ toks) =
    and_then (ident name) _ (ident-Ends name)
      λ table. and_then (delete_where toks) _ (delete_where-Ends toks) λ w. tt

parse_delete-Ends : (toks : List Text) → Ends Any (parse_delete toks)
unfolding parse_delete
parse_delete-Ends [] = tt
parse_delete-Ends (verb ∷ []) = tt
parse_delete-Ends (verb ∷ tok ∷ toks) =
    Meets-if Any IsParseFault (tok == codes "from") _ _ (λ _. delete_from-Ends toks)
      λ _. delete_from-Ends (tok ∷ toks)

parse_verb-Ends : (verb : Text) (toks : List Text) → Ends Any (parse_verb verb toks)
unfolding parse_verb
parse_verb-Ends verb toks =
    Meets-if Any IsParseFault (verb == codes "read") _ _
      (λ _. and_then (parse_read toks) _ (parse_read-Ends toks) λ s. tt)
      λ _.
        Meets-if Any IsParseFault (verb == codes "insert") _ _
          (λ _. and_then (parse_insert toks) _ (parse_insert-Ends toks) λ s. tt)
          λ _.
            Meets-if Any IsParseFault (verb == codes "update") _ _
              (λ _. and_then (parse_update toks) _ (parse_update-Ends toks) λ s. tt)
              λ _.
                Meets-if Any IsParseFault (verb == codes "delete") _ _
                  (λ _. and_then (parse_delete toks) _ (parse_delete-Ends toks) λ s. tt) λ _. tt

parse_tokens-Ends : (toks : List Text) → toks ≢ [] → Ends Any (parse_tokens toks)
unfolding parse_tokens
parse_tokens-Ends [] h = absurd (h refl)
parse_tokens-Ends (tok ∷ toks) h = parse_verb-Ends (lower tok) (tok ∷ toks)

parse-Ends : (source : Text) → Ends Any (parse source)
unfolding parse reject_forbidden
parse-Ends source = elim (Bool-cases (is_forbidden source)) [
  | inl bad ↦ rw bad tt
  | inr good ↦ elim (Bool-cases (is_empty (strip source))) [
    | inl nothing ↦ rw (good, nothing) tt
    | inr some_text ↦
        rw (good, some_text)
          (parse_tokens-Ends (split (strip source)) (split-strip-ne-nil source some_text))
  ]
]

-- Whatever the source, parse returns a statement or raises a ParseError or the ValueError of int().
-- Its loops end (no fuel is missing), and it never indexes past its tokens.
pub parse_faults : (source : Text) {e : Error} → parse source ≡ err e → IsParseFault e
parse_faults source = of_Meets Any IsParseFault (parse source) (parse-Ends source)
