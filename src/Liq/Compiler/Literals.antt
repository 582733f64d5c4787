-- ===== src/Liq/Compiler/Literals.antt =====
-- The constants that a statement binds or compares with do not reach its SQL.
use lidb.Base.{ℕ, ◌≡◌, refl, ap, fun_ext, [], ◌∷◌, Option, none, some, Outcome, ◌>>=◌}
use lidb.Str.{Text}
use lidb.Errors.{Error}
use lidb.Liq.Syntax.{
  Rhs, param_ref, const, int_value, Predicate, Bindings, Stmt, read, insert, update, delete,
}
use lidb.Liq.Compiler.{
  Slots, Schema, insert_value, insert_slot, update_value, update_slot, slots_loop, where_rhs,
  lower_where, lower_read, lower_insert, lower_update, lower_delete, lower_stmt,
}

-- The statement with every Const, in its bindings and its where clause, replaced by 0. The limit of a
-- read is a number of its own and stays.
abbrev pub erase_rhs : Rhs → Rhs
erase_rhs (param_ref name) = param_ref name
erase_rhs (const l) = const (int_value 0)

abbrev pub erase_bindings : Bindings → Bindings
erase_bindings [] = []
erase_bindings ((f, v) ∷ bs) = (f, erase_rhs v) ∷ erase_bindings bs

abbrev pub erase_where : Option Predicate → Option Predicate
erase_where none = none
erase_where (some p) = some (record p { rhs = erase_rhs p.rhs })

abbrev pub erase_consts : Stmt → Stmt
erase_consts (read s) = read (record s { where_clause = erase_where s.where_clause })
erase_consts (insert s) = insert (record s { bindings = erase_bindings s.bindings })
erase_consts (update s) =
    update
      (record s { bindings = erase_bindings s.bindings; where_clause = erase_where s.where_clause })
erase_consts (delete s) = delete (record s { where_clause = erase_where s.where_clause })

insert_value-erase :
    (st : Slots) (col : Text) (v : Rhs) → insert_value st col (erase_rhs v) ≡ insert_value st col v
unfolding insert_value
insert_value-erase st col (param_ref name) = refl
insert_value-erase st col (const l) = refl

update_value-erase :
    (st : Slots) (col : Text) (v : Rhs) → update_value st col (erase_rhs v) ≡ update_value st col v
unfolding update_value
update_value-erase st col (param_ref name) = refl
update_value-erase st col (const l) = refl

insert_slot-erase :
    (table : Text) (st : Slots) (field : Text) (v : Rhs)
    → insert_slot table st field (erase_rhs v) ≡ insert_slot table st field v
unfolding insert_slot
insert_slot-erase table st field v = simp insert_value-erase

update_slot-erase :
    (table : Text) (st : Slots) (field : Text) (v : Rhs)
    → update_slot table st field (erase_rhs v) ≡ update_slot table st field v
unfolding update_slot
update_slot-erase table st field v = simp update_value-erase

slots_loop-erase :
    (body : Slots → Text → Rhs → Outcome Error Slots)
    → ((st : Slots) (field : Text) (v : Rhs) → body st field (erase_rhs v) ≡ body st field v)
    → (st : Slots) (bs : Bindings) → slots_loop body st (erase_bindings bs) ≡ slots_loop body st bs
unfolding slots_loop
slots_loop-erase body same st [] = refl
slots_loop-erase body same st ((field, v) ∷ bs) =
    rw (same st field v)
      (ap (λ k. body st field v >>= k) (fun_ext (λ st'. slots_loop-erase body same st' bs)))

where_rhs-erase :
    (e : Error) (table : Text) (idx : ℕ) (schema : Schema) (column : Text) (r : Rhs)
    → where_rhs e table idx schema column (erase_rhs r) ≡ where_rhs e table idx schema column r
unfolding where_rhs
where_rhs-erase e table idx schema column (param_ref name) = refl
where_rhs-erase e table idx schema column (const l) = refl

lower_where-erase :
    (e : Error) (table : Text) (idx : ℕ) (schema : Schema) (w : Option Predicate)
    → lower_where e table idx schema (erase_where w) ≡ lower_where e table idx schema w
unfolding lower_where
lower_where-erase e table idx schema none = refl
lower_where-erase e table idx schema (some p) = where_rhs-erase e table idx schema p.column p.rhs

-- The SQL, the schema and the error of lowering a statement do not depend on the constants (Const) in
-- its bindings and its where clause: the statement with each of them replaced by 0 is lowered to the
-- same. So the value of such a constant is neither in the SQL text nor in the schema. Nothing is said
-- of the number behind `limit`, which the SQL has.
pub lower_stmt-erase : (s : Stmt) → lower_stmt (erase_consts s) ≡ lower_stmt s
unfolding lower_stmt lower_read lower_insert lower_update lower_delete
lower_stmt-erase (read s) = simp lower_where-erase
lower_stmt-erase (insert s) =
    simp (slots_loop-erase (insert_slot s.table.raw) (insert_slot-erase s.table.raw))
lower_stmt-erase (update s) =
    simp (
      slots_loop-erase (update_slot s.table.raw) (update_slot-erase s.table.raw),
      lower_where-erase,
    )
lower_stmt-erase (delete s) = simp lower_where-erase
