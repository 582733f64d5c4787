-- ===== src/Liq/Compiler/Collect.antt =====
-- The parameters of a statement in liq/compiler.py: their types, and _collect_params.
use lidb.Base.{List, [], ◌∷◌, ◌++◌, Option, none, some, if◌then◌else◌}
use lidb.Str.{Text, codes}
use lidb.Dict.{Dict, lookup, elem}
use lidb.Liq.Syntax.{Rhs, param_ref, const, Predicate, Bindings, Stmt, read, insert, update, delete}

-- _PARAM_TYPES
param_types : Dict Text
param_types =
    (codes "status", codes "text")
    ∷ (codes "publisher_id", codes "uuid")
    ∷ (codes "pub", codes "uuid")
    ∷ (codes "pkg", codes "uuid")
    ∷ (codes "ver", codes "text")
    ∷ (codes "sha", codes "text")
    ∷ (codes "name", codes "text")
    ∷ (codes "id", codes "uuid")
    ∷ (codes "rid", codes "uuid")
    ∷ []

-- _PARAM_TYPES.get(name, "text")
unfoldable pub param_type : Text → Text
unfolding param_types
param_type name = elim (lookup name param_types) [ none ↦ codes "text" | some t ↦ t ]

abbrev pub Schema : Type 0
Schema = Dict Text

-- `add` of _collect_params
unfoldable pub add_param : List Text → Rhs → List Text
add_param names (const l) = names
add_param names (param_ref name) = if elem name names then names else names ++ name ∷ []

-- `pred` of _collect_params
unfoldable pub add_where : List Text → Option Predicate → List Text
unfolding add_param
add_where names none = names
add_where names (some p) = add_param names p.rhs

unfoldable pub add_bindings : List Text → Bindings → List Text
unfolding add_param
add_bindings names [] = names
add_bindings names ((f, v) ∷ bs) = add_bindings (add_param names v) bs

unfoldable pub collect_params : Stmt → List Text
unfolding add_where add_bindings
collect_params (read s) = add_where [] s.where_clause
collect_params (insert s) = add_bindings [] s.bindings
collect_params (update s) = add_where (add_bindings [] s.bindings) s.where_clause
collect_params (delete s) = add_where [] s.where_clause
