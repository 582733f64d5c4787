-- ===== src/Liq/Parser/Total.antt =====
-- The parser ends on every source, and the errors it can raise.
use lidb.Base.{
  ℕ, zero, suc, ◌≤◌, ◌<◌, ◌≡◌, refl, ◌∙◌, not, List, [], ◌∷◌, some, Outcome, ok, arith, length,
  Bool-cases, Option-cases, inl, inr, Meets, Meets-bind, Meets-bind_cong, Meets-if,
}
use lidb.Str.{Text, codes, ◌==◌}
use lidb.Errors.{Error, parse_error, value_error}
use lidb.Liq.Syntax.{ReadStmt}
use lidb.Liq.Lexical.{ident, param, const_of, rhs_of, predicate}
use lidb.Liq.Parser.{
  projection, read_projection, read_where, read_direction, read_order, read_limit, read_step,
  read_loop, fuel_for, empty_read, parse_read,
}

-- A ParseError, or the ValueError of int(); no index is out of range and no loop runs on.
abbrev pub IsParseFault : Error → Type 0
IsParseFault (parse_error r) = Unit
IsParseFault value_error = Unit
IsParseFault _ = ⊥

-- The outcome is a value with `P`, or a fault of the parser.
abbrev pub Ends : {A : Type 0} → (A → Type 0) → Outcome Error A → Type 0
Ends P = Meets P IsParseFault

abbrev pub Any : {A : Type 0} → A → Type 0
Any _ = Unit

pub rhs_of-Ends : (t : Text) → Ends Any (rhs_of t)
unfolding rhs_of param const_of
rhs_of-Ends t = ground arith

pub ident-Ends : (t : Text) → Ends Any (ident t)
unfolding ident
ident-Ends t = ground arith

-- The tokens that are left are no more than those that were given.
abbrev pub Leaves : {A : Type 0} → List Text → A × List Text → Type 0
Leaves toks r = length r.1 ≤ length toks

pub predicate-Ends : (toks : List Text) → Ends (Leaves toks) (predicate toks)
unfolding predicate
predicate-Ends [] = tt
predicate-Ends (a ∷ []) = tt
predicate-Ends (a ∷ b ∷ []) = tt
predicate-Ends (col ∷ eq ∷ value ∷ rest) = elim (Bool-cases (not (eq == codes "="))) [
  | inl bad ↦ rw bad tt
  | inr good ↦ rw good (
      Meets-bind Any (Leaves (col ∷ eq ∷ value ∷ rest)) IsParseFault (rhs_of value) _
        (rhs_of-Ends value) λ r _. omega arith)
]

projection-Leaves :
    (toks : List Text) {cols rest : List Text}
    → projection toks ≡ some (cols, rest)
    → length rest ≤ length toks
unfolding projection
projection-Leaves [] h = cc
projection-Leaves (tok ∷ toks) {cols} {rest} h = elim (Bool-cases (tok == codes "}")) [
  | inl close ↦ let e : toks ≡ rest = ground arith in rw (← e) (omega arith)
  | inr more ↦ elim (Option-cases (projection toks)) [
    | inl stops ↦ absurd (ground arith)
    | inr ((cs, r), found) ↦
        let e : r ≡ rest = ground arith in
        omega (arith, rw e at (projection-Leaves toks {cols = cs} {rest = r} found))
  ]
]

read_projection-Ends :
    (s : ReadStmt) (toks : List Text) → Ends (Leaves toks) (read_projection s toks)
unfolding read_projection
read_projection-Ends s toks = elim (Option-cases (projection toks)) [
  | inl stops ↦ rw (read_projection, stops) tt
  | inr ((cols, rest), found) ↦ rw (read_projection, found) (projection-Leaves toks found)
]

read_where-Ends : (s : ReadStmt) (toks : List Text) → Ends (Leaves toks) (read_where s toks)
unfolding read_where
read_where-Ends s toks =
    Meets-bind (Leaves toks) (Leaves toks) IsParseFault (predicate toks) _ (predicate-Ends toks)
      λ r h. h

read_direction-Leaves : (s : ReadStmt) (toks : List Text) → Leaves toks (read_direction s toks)
unfolding read_direction
read_direction-Leaves s [] = omega arith
read_direction-Leaves s (tok ∷ toks) = ground arith

read_order-Ends : (s : ReadStmt) (toks : List Text) → Ends (Leaves toks) (read_order s toks)
unfolding read_order
read_order-Ends s [] = tt
read_order-Ends s (col ∷ toks) =
    omega (arith, read_direction-Leaves (record s { order_column = some col }) toks)

read_limit-Ends : (s : ReadStmt) (toks : List Text) → Ends (Leaves toks) (read_limit s toks)
unfolding read_limit
read_limit-Ends s [] = tt
read_limit-Ends s (tok ∷ toks) = ground arith

read_step-Ends :
    (s : ReadStmt) (tok : Text) (toks : List Text) → Ends (Leaves toks) (read_step s tok toks)
unfolding read_step
read_step-Ends s tok toks =
    Meets-if (Leaves toks) IsParseFault (tok == codes "{") _ _ (λ _. read_projection-Ends s toks)
      λ _.
        Meets-if (Leaves toks) IsParseFault (tok == codes "where") _ _ (λ _. read_where-Ends s toks)
          λ _.
            Meets-if (Leaves toks) IsParseFault (tok == codes "order") _ _
              (λ _. read_order-Ends s toks)
              λ _.
                Meets-if (Leaves toks) IsParseFault (tok == codes "limit") _ _
                  (λ _. read_limit-Ends s toks) λ _. tt

-- Each round of the loop takes a token at least, so the fuel is enough.
read_loop-Ends :
    (f : ℕ) (s : ReadStmt) (toks : List Text) → length toks < f → Ends Any (read_loop f s toks)
unfolding read_loop
read_loop-Ends zero s toks h = absurd (omega arith)
read_loop-Ends (suc f) s [] h = tt
read_loop-Ends (suc f) s (tok ∷ toks) h =
    Meets-bind (Leaves toks) Any IsParseFault (read_step s tok toks) _ (read_step-Ends s tok toks)
      λ r l. read_loop-Ends f r.0 r.1 (omega arith)

-- Enough fuel is enough: any two amounts above the number of tokens give the same.
pub read_loop-fuel :
    (f g : ℕ) (s : ReadStmt) (toks : List Text)
    → length toks < f
    → length toks < g
    → read_loop f s toks ≡ read_loop g s toks
unfolding read_loop
read_loop-fuel zero g s toks h k = absurd (omega arith)
read_loop-fuel (suc f) zero s toks h k = absurd (omega arith)
read_loop-fuel (suc f) (suc g) s [] h k = refl
read_loop-fuel (suc f) (suc g) s (tok ∷ toks) h k =
    Meets-bind_cong (Leaves toks) IsParseFault (read_step s tok toks) _ _
      (read_step-Ends s tok toks) λ r l. read_loop-fuel f g r.0 r.1 (omega arith) (omega arith)

-- The loop with the fuel that the parser gives it.
abbrev pub run : ReadStmt → List Text → Outcome Error ReadStmt
run s toks = read_loop (fuel_for toks) s toks

-- A round that succeeds goes on with what it leaves.
pub run_step :
    (s s' : ReadStmt) (tok : Text) (toks rest : List Text)
    → read_step s tok toks ≡ ok (s', rest)
    → run s (tok ∷ toks) ≡ run s' rest
run_step s s' tok toks rest h =
    let fewer : length rest ≤ length toks = left (read_step-Ends s tok toks) in
    unfold_round h
    ∙ read_loop-fuel (fuel_for toks) (fuel_for rest) s' rest (omega arith) (omega arith)
  where
    left : Ends (Leaves toks) (read_step s tok toks) → length rest ≤ length toks
    left e = rw h at e

    unfold_round :
        read_step s tok toks ≡ ok (s', rest)
        → run s (tok ∷ toks) ≡ read_loop (fuel_for toks) s' rest
    unfold_round e = unfold read_loop in rw e

pub parse_read-Ends : (toks : List Text) → Ends Any (parse_read toks)
unfolding parse_read
parse_read-Ends [] = tt
parse_read-Ends (verb ∷ []) = tt
parse_read-Ends (verb ∷ name ∷ toks) =
    Meets-bind Any Any IsParseFault (ident name) _ (ident-Ends name)
      λ table _. read_loop-Ends (fuel_for toks) (empty_read table) toks (omega arith)
