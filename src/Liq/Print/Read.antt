-- ===== src/Liq/Print/Read.antt =====
-- A printed read statement is parsed back.
use lidb.Base.{
  ℕ, ◌≤◌, ◌≡◌, refl, sym, ap, ◌∙◌, Bool, true, false, List, [], ◌∷◌, ◌++◌, Option, none, some, ok,
  length, All,
}
use lidb.Str.{Text, codes, ◌==◌, decimal, max_str_digits, split_on}
use lidb.Str.Numerals.{int-decimal, is_digit-decimal}
use lidb.Liq.Syntax.{IdentRef, Predicate, ReadStmt}
use lidb.Liq.Lexical.{ident}
use lidb.Liq.Lexical.Words.{is_ident}
use lidb.Liq.Parser.{
  read_step, read_loop, empty_read, parse_read, read_projection, read_where, read_limit,
}
use lidb.Liq.Parser.Total.{run, run_step}
use lidb.Liq.Print.{
  print_rhs, print_names, print_projection, print_where, print_order, print_limit, print_clauses,
  print_read,
}
use lidb.Liq.Print.Tokens.{IsPrintableRhs, IsListed, predicate-print, projection-print}

abbrev pub ListedColumns : Option (List Text) → Type 0
ListedColumns none = Unit
ListedColumns (some cols) = All IsListed cols

abbrev pub IsPrintableWhere : Option Predicate → Type 0
IsPrintableWhere none = Unit
IsPrintableWhere (some p) = (p.op ≡ codes "=") × IsPrintableRhs p.rhs

-- A direction belongs to an order column.
abbrev pub IsPrintableOrder : Option Text → Bool → Type 0
IsPrintableOrder none desc = desc ≡ false
IsPrintableOrder (some c) desc = Unit

abbrev pub IsPrintableLimit : Option ℕ → Type 0
IsPrintableLimit none = Unit
IsPrintableLimit (some n) = length (decimal n) ≤ max_str_digits

-- The identifier that _ident makes of its text.
pub record IsIdentRef (i : IdentRef) : Type 0 where
  pub matches : is_ident i.raw ≡ true
  pub parts_are : i.parts ≡ split_on b'.' i.raw

pub record IsPrintable (s : ReadStmt) : Type 0 where
  pub table : IsIdentRef s.table
  pub columns : ListedColumns s.columns
  pub filter : IsPrintableWhere s.where_clause
  pub order : IsPrintableOrder s.order_column s.order_desc
  pub limit : IsPrintableLimit s.limit

pub ident-print : (i : IdentRef) → IsIdentRef i → ident i.raw ≡ ok i
unfolding ident
ident-print i h =
    rw h.matches (ap (λ (ps : List Text). ok (record i { parts = ps })) (sym h.parts_are))

-- One clause at a time: the loop takes what was printed and has it in its state.
run_projection :
    (s : ReadStmt) (cols : List Text) (rest : List Text)
    → All IsListed cols
    → run s (print_projection (some cols) rest) ≡ run (record s { columns = some cols }) rest
run_projection s cols rest h =
    run_step s _ (codes "{") (print_names cols ++ codes "}" ∷ rest) rest step
  where
    step :
        read_step s (codes "{") (print_names cols ++ codes "}" ∷ rest)
        ≡ ok (record s { columns = some cols }, rest)
    step = unfold read_step ◌==◌ in rw (read_projection, projection-print cols rest h)

run_where :
    (s : ReadStmt) (p : Predicate) (rest : List Text)
    → p.op ≡ codes "="
    → IsPrintableRhs p.rhs
    → run s (print_where (some p) rest) ≡ run (record s { where_clause = some p }) rest
run_where s p rest o h =
    run_step s _ (codes "where") (p.column ∷ codes "=" ∷ print_rhs p.rhs ∷ rest) rest step
  where
    step :
        read_step s (codes "where") (p.column ∷ codes "=" ∷ print_rhs p.rhs ∷ rest)
        ≡ ok (record s { where_clause = some p }, rest)
    step = unfold read_step ◌==◌ in rw (read_where, predicate-print p rest o h)

run_order :
    (s : ReadStmt) (c : Text) (desc : Bool) (rest : List Text)
    → run s (print_order (some c) desc rest)
      ≡ run (record s { order_column = some c; order_desc = desc }) rest
run_order s c true rest = run_step s _ (codes "order") (c ∷ codes "desc" ∷ rest) rest step
  where
    step :
        read_step s (codes "order") (c ∷ codes "desc" ∷ rest)
        ≡ ok (record s { order_column = some c; order_desc = true }, rest)
    step = unfold read_step ◌==◌ in refl
run_order s c false rest = run_step s _ (codes "order") (c ∷ codes "asc" ∷ rest) rest step
  where
    step :
        read_step s (codes "order") (c ∷ codes "asc" ∷ rest)
        ≡ ok (record s { order_column = some c; order_desc = false }, rest)
    step = unfold read_step ◌==◌ in refl

run_limit :
    (s : ReadStmt) (n : ℕ) (rest : List Text)
    → length (decimal n) ≤ max_str_digits
    → run s (print_limit (some n) rest) ≡ run (record s { limit = some n }) rest
run_limit s n rest h = run_step s _ (codes "limit") (decimal n ∷ rest) rest step
  where
    step : read_step s (codes "limit") (decimal n ∷ rest) ≡ ok (record s { limit = some n }, rest)
    step = unfold read_step ◌==◌ in rw (read_limit, is_digit-decimal n, int-decimal n h)

run_nothing : (s : ReadStmt) → run s [] ≡ ok s
unfolding read_loop
run_nothing s = refl

-- The state of the loop behind some of the clauses.
abbrev state :
    IdentRef → Option (List Text) → Option Predicate → Option Text → Bool → Option ℕ → ReadStmt
state t cols w oc od l = record {
  table = t;
  columns = cols;
  where_clause = w;
  order_column = oc;
  order_desc = od;
  limit = l;
}

-- The clauses that are there, in the order of the grammar.
module _ (t : IdentRef) where
  optional_projection :
      (cols : Option (List Text)) (rest : List Text)
      → ListedColumns cols
      → run (state t none none none false none) (print_projection cols rest)
        ≡ run (state t cols none none false none) rest
  optional_projection none rest h = refl
  optional_projection (some cols) rest h = run_projection _ cols rest h

  optional_where :
      (cols : Option (List Text)) (w : Option Predicate) (rest : List Text)
      → IsPrintableWhere w
      → run (state t cols none none false none) (print_where w rest)
        ≡ run (state t cols w none false none) rest
  optional_where cols none rest h = refl
  optional_where cols (some p) rest h = run_where _ p rest h.0 h.1

  optional_order :
      (cols : Option (List Text)) (w : Option Predicate) (oc : Option Text) (od : Bool)
      (rest : List Text)
      → IsPrintableOrder oc od
      → run (state t cols w none false none) (print_order oc od rest)
        ≡ run (state t cols w oc od none) rest
  optional_order cols w none od rest h = rw h
  optional_order cols w (some c) od rest h = run_order _ c od rest

  optional_limit :
      (cols : Option (List Text)) (w : Option Predicate) (oc : Option Text) (od : Bool)
      (l : Option ℕ)
      → IsPrintableLimit l
      → run (state t cols w oc od none) (print_limit l []) ≡ ok (state t cols w oc od l)
  optional_limit cols w oc od none h = run_nothing _
  optional_limit cols w oc od (some n) h = run_limit _ n [] h ∙ run_nothing _

run_clauses : (s : ReadStmt) → IsPrintable s → run (empty_read s.table) (print_clauses s) ≡ ok s
run_clauses s h =
    optional_projection s.table s.columns _ h.columns
    ∙ optional_where s.table s.columns s.where_clause _ h.filter
    ∙ optional_order s.table s.columns s.where_clause s.order_column s.order_desc _ h.order
    ∙ optional_limit s.table s.columns s.where_clause s.order_column s.order_desc s.limit h.limit

-- The tokens of a printed read statement, with any mix of its clauses, any columns and any literal or
-- parameter in its where clause, are parsed back to that statement.
pub parse_read-print : (s : ReadStmt) → IsPrintable s → parse_read (print_read s) ≡ ok s
unfolding parse_read
parse_read-print s h = rw (ident-print s.table h.table) (run_clauses s h)
