-- ===== src/Liq/Compiler/Placeholders/Keys.antt =====
-- The placeholders of a statement against the keys of its schema.
use lidb.Base.{
  ℕ, ◌+◌, ◌≤◌, ◌≡◌, subst, sym, Bool-cases, inl, inr, [], ◌∷◌, List, Option, none, some, ok, arith,
  length, length-append,
}
use lidb.Str.{Text}
use lidb.Dict.{keys, elem}
use lidb.Dict.Unique.{IsUnique, IsUnique-snoc}
use lidb.Liq.Syntax.{Rhs, param_ref, const, Predicate, Bindings, Stmt, read, insert, update, delete}
use lidb.Liq.Compiler.{Lowered, lower_stmt, add_param, add_where, add_bindings, collect_params}
use lidb.Liq.Compiler.Params.{lower_stmt-IsSchemaOf}
use lidb.Liq.Compiler.Placeholders.{dollars, rhs_uses, where_uses, binding_uses, uses}
use lidb.Liq.Compiler.Placeholders.Statements.{lower_stmt-dollars}

-- Names of `n` uses at most, each of them once.
record OnceOf (n : ℕ) (names : List Text) : Type 0 where
  unique : IsUnique names
  bounded : length names ≤ n

add_param-OnceOf :
    (n : ℕ) (names : List Text) (r : Rhs)
    → OnceOf n names
    → OnceOf (n + rhs_uses r) (add_param names r)
unfolding add_param
add_param-OnceOf n names (const l) h = record {
  unique = h.unique;
  bounded = omega (arith, h.bounded);
}
add_param-OnceOf n names (param_ref name) h = elim (Bool-cases (elem name names)) [
  | inl e ↦ rw e (record { unique = h.unique; bounded = omega (arith, h.bounded) })
  | inr e ↦ rw e (record {
    unique = IsUnique-snoc name names h.unique e;
    bounded = omega (arith, h.bounded, length-append names (name ∷ []));
  })
]

add_where-OnceOf :
    (n : ℕ) (names : List Text) (w : Option Predicate)
    → OnceOf n names
    → OnceOf (n + where_uses w) (add_where names w)
unfolding add_where
add_where-OnceOf n names none h = record { unique = h.unique; bounded = omega (arith, h.bounded) }
add_where-OnceOf n names (some p) h = add_param-OnceOf n names p.rhs h

add_bindings-OnceOf :
    (n : ℕ) (names : List Text) (bs : Bindings)
    → OnceOf n names
    → OnceOf (n + binding_uses bs) (add_bindings names bs)
unfolding add_bindings
add_bindings-OnceOf n names [] h = record { unique = h.unique; bounded = omega (arith, h.bounded) }
add_bindings-OnceOf n names ((f, v) ∷ bs) h =
    let rest =
      add_bindings-OnceOf (n + rhs_uses v) (add_param names v) bs (add_param-OnceOf n names v h) in
    record { unique = rest.unique; bounded = omega (arith, rest.bounded) }

nothing-OnceOf : OnceOf 0 []
nothing-OnceOf = record { unique = tt; bounded = omega arith }

zero_more : {n : ℕ} {names : List Text} → OnceOf (0 + n) names → OnceOf n names
zero_more h = record { unique = h.unique; bounded = omega (arith, h.bounded) }

collect_params-OnceOf : (s : Stmt) → OnceOf (uses s) (collect_params s)
unfolding collect_params
collect_params-OnceOf (read s) = zero_more (add_where-OnceOf 0 [] s.where_clause nothing-OnceOf)
collect_params-OnceOf (insert s) = zero_more (add_bindings-OnceOf 0 [] s.bindings nothing-OnceOf)
collect_params-OnceOf (update s) =
    add_where-OnceOf (binding_uses s.bindings) (add_bindings [] s.bindings) s.where_clause
      (zero_more (add_bindings-OnceOf 0 [] s.bindings nothing-OnceOf))
collect_params-OnceOf (delete s) = zero_more (add_where-OnceOf 0 [] s.where_clause nothing-OnceOf)

-- The SQL of a lowered statement has one placeholder sign $ for every use of a parameter in it, while
-- no parameter has two keys in the schema: there are at most as many keys as placeholders.
pub lower_stmt-keys :
    (s : Stmt) {l : Lowered}
    → lower_stmt s ≡ ok l
    → (dollars l.0 ≡ uses s) × IsUnique (keys l.1) × (length (keys l.1) ≤ dollars l.0)
lower_stmt-keys s {l} h =
    let counted = lower_stmt-dollars s h in
    let once : OnceOf (uses s) (keys l.1) =
      subst (OnceOf (uses s)) (sym (lower_stmt-IsSchemaOf s h).keys_are)
        (collect_params-OnceOf s) in
    (counted, once.unique, omega (arith, counted, once.bounded))
