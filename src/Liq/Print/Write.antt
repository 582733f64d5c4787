-- ===== src/Liq/Print/Write.antt =====
-- Printed update and delete statements are parsed back.
use lidb.Base.{
  ℕ, suc, ◌≡◌, ◌≢◌, refl, ap, true, ◌||◌, List, [], ◌∷◌, Option, none, some, ok, map, length, All,
}
use lidb.Str.{Text, codes, ◌==◌, ==_refl, ==_of_ne}
use lidb.Liq.Syntax.{IdentRef, Rhs, Predicate, Bindings, UpdateStmt, DeleteStmt}
use lidb.Liq.Parser.{
  set_bindings, update_loop, parse_update, delete_where, delete_from, parse_delete, without_comma,
  fuel_for,
}
use lidb.Liq.Print.{
  print_rhs, print_names, print_where, print_sets, print_returning, print_update, print_delete,
}
use lidb.Liq.Print.Tokens.{IsPrintableRhs, rhs_of-print_rhs, predicate-print, without_comma-comma}
use lidb.Liq.Print.Read.{IsPrintableWhere, IsIdentRef, ident-print}

-- A column that does not end the set clauses, with its value.
pub record IsSetClause (b : Text × Rhs) : Type 0 where
  pub no_where : b.0 ≢ codes "where"
  pub no_returning : b.0 ≢ codes "returning"
  pub value : IsPrintableRhs b.1

abbrev pub IsReturned : Option (List Text) → Type 0
IsReturned none = Unit
IsReturned (some cols) = All (λ c. without_comma c ≡ c) cols

pub record IsPrintableUpdate (s : UpdateStmt) : Type 0 where
  pub table : IsIdentRef s.table
  pub some_set : s.bindings ≢ []
  pub sets : All IsSetClause s.bindings
  pub filter : IsPrintableWhere s.where_clause
  pub returned : IsReturned s.returning

set_bindings-stop :
    (tok : Text) (toks : List Text)
    → (tok == codes "where" || tok == codes "returning") ≡ true
    → set_bindings (tok ∷ toks) ≡ ok ([], tok ∷ toks)
unfolding set_bindings
set_bindings-stop tok [] h = rw h refl
set_bindings-stop tok (a ∷ []) h = rw h refl
set_bindings-stop tok (a ∷ b ∷ toks) h = rw h refl

-- The clauses behind the bindings are left to the second loop.
set_bindings-clauses :
    (w : Option Predicate) (cols : Option (List Text))
    → set_bindings (print_where w (print_returning cols))
      ≡ ok ([], print_where w (print_returning cols))
unfolding set_bindings ◌==◌
set_bindings-clauses none none = refl
set_bindings-clauses none (some cols) =
    set_bindings-stop (codes "returning") (print_names cols) refl
set_bindings-clauses (some p) cols =
    set_bindings-stop (codes "where")
      (p.column ∷ codes "=" ∷ print_rhs p.rhs ∷ print_returning cols) refl

set_bindings-print :
    (bs : Bindings) (rest : List Text)
    → All IsSetClause bs
    → set_bindings rest ≡ ok ([], rest)
    → set_bindings (print_sets bs rest) ≡ ok (bs, rest)
unfolding set_bindings
set_bindings-print [] rest h stop = stop
set_bindings-print ((c, r) ∷ bs) rest (h, hs) stop = rw (
  ==_of_ne c (codes "where") h.no_where,
  ==_of_ne c (codes "returning") h.no_returning,
  ==_refl (codes "="),
  rhs_of-print_rhs r h.value,
  set_bindings-print bs rest hs stop,
)

without_comma-names :
    (cols : List Text)
    → All (λ c. without_comma c ≡ c) cols
    → map without_comma (print_names cols) ≡ cols
without_comma-names [] h = refl
without_comma-names (c ∷ []) (h, hs) = rw h refl
without_comma-names (c ∷ d ∷ cs) (h, hs) =
    rw (without_comma-comma c, h) (ap (◌∷◌ c) (without_comma-names (d ∷ cs) hs))

-- The statement with the clauses that the second loop has put in.
abbrev written : IdentRef → Bindings → Option Predicate → Option (List Text) → UpdateStmt
written t bs w cols = record { table = t; bindings = bs; where_clause = w; returning = cols }

update_loop-returning :
    (f : ℕ) (t : IdentRef) (bs : Bindings) (w : Option Predicate) (cols : Option (List Text))
    → IsReturned cols
    → update_loop (suc f) (written t bs w none) (print_returning cols) ≡ ok (written t bs w cols)
unfolding update_loop ◌==◌
update_loop-returning f t bs w none h = refl
update_loop-returning f t bs w (some cols) h = rw (without_comma-names cols h) refl

update_loop-print :
    (t : IdentRef) (bs : Bindings) (w : Option Predicate) (cols : Option (List Text))
    → IsPrintableWhere w
    → IsReturned cols
    → update_loop
        (fuel_for (print_where w (print_returning cols)))
        (written t bs none none)
        (print_where w (print_returning cols))
      ≡ ok (written t bs w cols)
unfolding update_loop ◌==◌
update_loop-print t bs none cols h r = update_loop-returning _ t bs none cols r
update_loop-print t bs (some p) cols h r = rw (predicate-print p (print_returning cols) h.0 h.1) (
    update_loop-returning (length (p.column ∷ codes "=" ∷ print_rhs p.rhs ∷ print_returning cols)) t
      bs (some p) cols r)

-- The tokens of a printed update are parsed back to that statement.
pub parse_update-print :
    (s : UpdateStmt) → IsPrintableUpdate s → parse_update (print_update s) ≡ ok s
parse_update-print s h = go s.table s.bindings s.where_clause s.returning h
  where
    go :
        (t : IdentRef) (bs : Bindings) (w : Option Predicate) (cols : Option (List Text))
        → IsPrintableUpdate (written t bs w cols)
        → parse_update (print_update (written t bs w cols)) ≡ ok (written t bs w cols)
    go t [] w cols k = absurd (k.some_set refl)
    go t (b ∷ bs) w cols k =
        unfold parse_update ◌==◌ in
        rw (
          ident-print t k.table,
          set_bindings-print (b ∷ bs) (print_where w (print_returning cols)) k.sets
              (set_bindings-clauses w cols),
          update_loop-print t (b ∷ bs) w cols k.filter k.returned,
        )

delete_where-print :
    (w : Option Predicate) → IsPrintableWhere w → delete_where (print_where w []) ≡ ok w
unfolding delete_where ◌==◌
delete_where-print none h = refl
delete_where-print (some p) h = rw (predicate-print p [] h.0 h.1)

-- The tokens of a printed delete are parsed back to that statement.
pub parse_delete-print :
    (s : DeleteStmt)
    → IsIdentRef s.table
    → IsPrintableWhere s.where_clause
    → parse_delete (print_delete s) ≡ ok s
unfolding parse_delete delete_from ◌==◌
parse_delete-print s t h = rw (ident-print s.table t, delete_where-print s.where_clause h)
