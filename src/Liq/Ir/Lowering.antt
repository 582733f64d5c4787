-- ===== src/Liq/Ir/Lowering.antt =====
-- The IR of a statement settles the SQL that it is lowered to.
use lidb.Base.{◌≡◌, refl, sym, ap, ◌∙◌, Bool, List, [], ◌∷◌, Option, none, some}
use lidb.Str.{Text}
use lidb.Liq.Syntax.{Stmt, read, insert, update, delete}
use lidb.Liq.Compiler.{lower_stmt, lower_read, lower_update, lower_order, truthy}
use lidb.Liq.Ir.{stmt_to_ir}
use lidb.Liq.Ir.Reader.{stmt_of, normal, some_columns, some_order, stmt_of-stmt_to_ir}

truthy-some_columns : (cols : Option (List Text)) → truthy (some_columns cols) ≡ truthy cols
truthy-some_columns none = refl
truthy-some_columns (some []) = refl
truthy-some_columns (some (c ∷ cs)) = refl

lower_order-some_order :
    (table : Text) (c : Option Text) (desc : Bool)
    → lower_order table (truthy (some_order c desc).0) (some_order c desc).1
      ≡ lower_order table (truthy c) desc
unfolding lower_order
lower_order-some_order table none desc = refl
lower_order-some_order table (some []) desc = refl
lower_order-some_order table (some (c ∷ cs)) desc = refl

lower_stmt-normal : (s : Stmt) → lower_stmt (normal s) ≡ lower_stmt s
unfolding lower_stmt lower_read lower_update
lower_stmt-normal (read s) =
    rw
      (
        truthy-some_columns s.columns,
        lower_order-some_order s.table.raw s.order_column s.order_desc,
      )
      refl
lower_stmt-normal (insert s) = refl
lower_stmt-normal (update s) = rw (truthy-some_columns s.returning) refl
lower_stmt-normal (delete s) = refl

-- Two statements with the same IR are lowered to the same SQL with the same parameters, or refused
-- with the same error: the IR, which the plan id is made of, keeps all that the SQL depends on.
pub stmt_to_ir-lower_stmt : (s t : Stmt) → stmt_to_ir s ≡ stmt_to_ir t → lower_stmt s ≡ lower_stmt t
stmt_to_ir-lower_stmt s t h =
    sym (lower_stmt-normal s)
    ∙ ap lower_stmt (sym (stmt_of-stmt_to_ir s) ∙ ap stmt_of h ∙ stmt_of-stmt_to_ir t)
    ∙ lower_stmt-normal t
