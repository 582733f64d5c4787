-- ===== src/Liq/Ir.antt =====
-- stmt_to_ir of liq/parser.py.
pub mod Reader
pub mod Lowering
use lidb.Base.{ℕ, Bool, List, [], ◌∷◌, Option, none, some, map}
use lidb.Str.{Text, codes}
use lidb.Json.{Json, null, bool, num, str, array, object}
use lidb.Liq.Syntax.{
  IdentRef, Rhs, param_ref, const, str_value, int_value, Predicate, Stmt, read, insert, update,
  delete,
}

abbrev pub texts : List Text → Json
texts ts = array (map str ts)

-- list(x) if x else None
unfoldable pub listed : Option (List Text) → Json
listed none = null
listed (some []) = null
listed (some (t ∷ ts)) = texts (t ∷ ts)

unfoldable pub ident_ir : IdentRef → Json
ident_ir i = object (
    (codes "kind", str (codes "IdentRef"))
    ∷ (codes "raw", str i.raw)
    ∷ (codes "parts", texts i.parts)
    ∷ [])

unfoldable pub rhs_ir : Rhs → Json
rhs_ir (param_ref name) =
    object ((codes "kind", str (codes "ParamRef")) ∷ (codes "name", str name) ∷ [])
rhs_ir (const (str_value s)) =
    object ((codes "kind", str (codes "Const")) ∷ (codes "value", str s) ∷ [])
rhs_ir (const (int_value n)) =
    object ((codes "kind", str (codes "Const")) ∷ (codes "value", num n) ∷ [])

unfoldable pub pred_ir : Option Predicate → Json
unfolding rhs_ir
pred_ir none = null
pred_ir (some p) =
    object
      ((codes "column", str p.column) ∷ (codes "op", str p.op) ∷ (codes "rhs", rhs_ir p.rhs) ∷ [])

-- The order of a read: None and "" are false.
unfoldable pub order_ir : Option Text → Bool → Json
order_ir none desc = null
order_ir (some []) desc = null
order_ir (some (c ∷ cs)) desc =
    object ((codes "column", str (c ∷ cs)) ∷ (codes "desc", bool desc) ∷ [])

unfoldable pub limit_ir : Option ℕ → Json
limit_ir none = null
limit_ir (some n) = num n

unfoldable pub binding_ir : Text × Rhs → Json
unfolding rhs_ir
binding_ir (f, v) = object ((codes "field", str f) ∷ (codes "rhs", rhs_ir v) ∷ [])

unfoldable pub stmt_to_ir : Stmt → Json
unfolding listed ident_ir pred_ir order_ir limit_ir binding_ir
stmt_to_ir (read s) = object (
    (codes "op", str (codes "read"))
    ∷ (codes "table", ident_ir s.table)
    ∷ (codes "columns", listed s.columns)
    ∷ (codes "where", pred_ir s.where_clause)
    ∷ (codes "order", order_ir s.order_column s.order_desc)
    ∷ (codes "limit", limit_ir s.limit)
    ∷ [])
stmt_to_ir (insert s) = object (
    (codes "op", str (codes "insert"))
    ∷ (codes "table", ident_ir s.table)
    ∷ (codes "bindings", array (map binding_ir s.bindings))
    ∷ [])
stmt_to_ir (update s) = object (
    (codes "op", str (codes "update"))
    ∷ (codes "table", ident_ir s.table)
    ∷ (codes "bindings", array (map binding_ir s.bindings))
    ∷ (codes "where", pred_ir s.where_clause)
    ∷ (codes "returning", listed s.returning)
    ∷ [])
stmt_to_ir (delete s) = object (
    (codes "op", str (codes "delete"))
    ∷ (codes "table", ident_ir s.table)
    ∷ (codes "where", pred_ir s.where_clause)
    ∷ [])
