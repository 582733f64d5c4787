-- ===== src/Liq/Ir/Reader.antt =====
-- What a statement's IR has in it: a reader of the IR, the reference that stmt_to_ir is held to.
use lidb.Base.{ℕ, ◌≡◌, refl, ap, Bool, false, List, [], ◌∷◌, Option, none, some, map, if◌then◌else◌}
use lidb.Str.{Text, codes, ◌==◌}
use lidb.Json.{Json, null, bool, num, str, arr, obj, Items, nil, cons, Fields, end, field, items}
use lidb.Liq.Syntax.{
  IdentRef, Rhs, param_ref, const, str_value, int_value, Literal, Predicate, Bindings, Stmt, read,
  insert, update, delete,
}
use lidb.Liq.Ir.{stmt_to_ir, listed, ident_ir, rhs_ir, pred_ir, order_ir, limit_ir, binding_ir}

abbrev text_of : Json → Text
text_of (str s) = s
text_of _ = []

-- The value under a key.
member_of : Text → Fields → Json
member_of key end = null
member_of key (field k j fs) = let rest = member_of key fs in if k == key then j else rest

abbrev member : Text → Json → Json
member key (obj fs) = member_of key fs
member key _ = null

texts_of : Items → List Text
texts_of nil = []
texts_of (cons j js) = text_of j ∷ texts_of js

abbrev columns_of : Json → Option (List Text)
columns_of (arr js) = some (texts_of js)
columns_of _ = none

abbrev parts_of : Json → List Text
parts_of (arr js) = texts_of js
parts_of _ = []

abbrev ident_of : Json → IdentRef
ident_of j = record {
  raw = text_of (member (codes "raw") j);
  parts = parts_of (member (codes "parts") j);
}

abbrev literal_of : Json → Literal
literal_of (num n) = int_value n
literal_of j = str_value (text_of j)

abbrev value_of : Json → Rhs
value_of j =
    if text_of (member (codes "kind") j) == codes "ParamRef"
    then param_ref (text_of (member (codes "name") j))
    else const (literal_of (member (codes "value") j))

abbrev filter_of : Json → Option Predicate
filter_of (obj fs) = some (record {
  column = text_of (member_of (codes "column") fs);
  op = text_of (member_of (codes "op") fs);
  rhs = value_of (member_of (codes "rhs") fs);
})
filter_of _ = none

bindings_of : Items → Bindings
bindings_of nil = []
bindings_of (cons j js) =
    (text_of (member (codes "field") j), value_of (member (codes "rhs") j)) ∷ bindings_of js

abbrev bindings_in : Json → Bindings
bindings_in (arr js) = bindings_of js
bindings_in _ = []

abbrev is_desc : Json → Bool
is_desc (bool b) = b
is_desc _ = false

abbrev order_of : Json → Option Text × Bool
order_of (obj fs) =
    (some (text_of (member_of (codes "column") fs)), is_desc (member_of (codes "desc") fs))
order_of _ = (none, false)

abbrev limit_of : Json → Option ℕ
limit_of (num n) = some n
limit_of _ = none

-- The statement by its verb.
abbrev stmt_with : Text → Json → Stmt
stmt_with op j =
    let table = ident_of (member (codes "table") j) in
    let filter = filter_of (member (codes "where") j) in
    if op == codes "read"
    then read (record {
      table = table;
      columns = columns_of (member (codes "columns") j);
      where_clause = filter;
      order_column = (order_of (member (codes "order") j)).0;
      order_desc = (order_of (member (codes "order") j)).1;
      limit = limit_of (member (codes "limit") j);
    })
    else if op == codes "insert"
    then insert (record { table = table; bindings = bindings_in (member (codes "bindings") j) })
    else if op == codes "update"
    then update (record {
      table = table;
      bindings = bindings_in (member (codes "bindings") j);
      where_clause = filter;
      returning = columns_of (member (codes "returning") j);
    })
    else delete (record { table = table; where_clause = filter })

unfoldable pub stmt_of : Json → Stmt
unfolding member_of texts_of bindings_of
stmt_of j = stmt_with (text_of (member (codes "op") j)) j

-- What the IR forgets: whether a list of columns is there that is empty, and whether an order is by the
-- empty name, with its direction.
abbrev pub some_columns : Option (List Text) → Option (List Text)
some_columns none = none
some_columns (some []) = none
some_columns (some (c ∷ cs)) = some (c ∷ cs)

abbrev pub some_order : Option Text → Bool → Option Text × Bool
some_order none desc = (none, false)
some_order (some []) desc = (none, false)
some_order (some (c ∷ cs)) desc = (some (c ∷ cs), desc)

abbrev pub normal : Stmt → Stmt
normal (read s) = read (record s {
  columns = some_columns s.columns;
  order_column = (some_order s.order_column s.order_desc).0;
  order_desc = (some_order s.order_column s.order_desc).1;
})
normal (insert s) = insert s
normal (update s) = update (record s { returning = some_columns s.returning })
normal (delete s) = delete s

texts_of-texts : (ts : List Text) → texts_of (items (map str ts)) ≡ ts
unfolding texts_of
texts_of-texts [] = refl
texts_of-texts (t ∷ ts) = ap (◌∷◌ t) (texts_of-texts ts)

columns_of-listed : (cols : Option (List Text)) → columns_of (listed cols) ≡ some_columns cols
unfolding listed
columns_of-listed none = refl
columns_of-listed (some []) = refl
columns_of-listed (some (c ∷ cs)) = ap some (texts_of-texts (c ∷ cs))

ident_of-ident_ir : (i : IdentRef) → ident_of (ident_ir i) ≡ i
unfolding ident_ir member_of ◌==◌
ident_of-ident_ir i = ap (λ (ps : List Text). record i { parts = ps }) (texts_of-texts i.parts)

value_of-rhs_ir : (r : Rhs) → value_of (rhs_ir r) ≡ r
unfolding rhs_ir member_of ◌==◌
value_of-rhs_ir (param_ref name) = refl
value_of-rhs_ir (const (str_value s)) = refl
value_of-rhs_ir (const (int_value n)) = refl

filter_of-pred_ir : (w : Option Predicate) → filter_of (pred_ir w) ≡ w
unfolding pred_ir member_of ◌==◌
filter_of-pred_ir none = refl
filter_of-pred_ir (some p) = ap (λ (r : Rhs). some (record p { rhs = r })) (value_of-rhs_ir p.rhs)

order_of-order_ir : (c : Option Text) (desc : Bool) → order_of (order_ir c desc) ≡ some_order c desc
unfolding order_ir member_of ◌==◌
order_of-order_ir none desc = refl
order_of-order_ir (some []) desc = refl
order_of-order_ir (some (c ∷ cs)) desc = refl

limit_of-limit_ir : (n : Option ℕ) → limit_of (limit_ir n) ≡ n
unfolding limit_ir
limit_of-limit_ir none = refl
limit_of-limit_ir (some n) = refl

bindings_of-binding_ir : (bs : Bindings) → bindings_of (items (map binding_ir bs)) ≡ bs
unfolding bindings_of binding_ir member_of ◌==◌
bindings_of-binding_ir [] = refl
bindings_of-binding_ir ((f, r) ∷ bs) = rw (value_of-rhs_ir r, bindings_of-binding_ir bs) refl

-- The IR has all of a statement in it but for what it forgets.
pub stmt_of-stmt_to_ir : (s : Stmt) → stmt_of (stmt_to_ir s) ≡ normal s
unfolding stmt_of stmt_to_ir ◌==◌
stmt_of-stmt_to_ir (read s) =
    rw
      (
        ident_of-ident_ir s.table,
        columns_of-listed s.columns,
        filter_of-pred_ir s.where_clause,
        order_of-order_ir s.order_column s.order_desc,
        limit_of-limit_ir s.limit,
      )
      refl
stmt_of-stmt_to_ir (insert s) =
    rw (ident_of-ident_ir s.table, bindings_of-binding_ir s.bindings) refl
stmt_of-stmt_to_ir (update s) =
    rw
      (
        ident_of-ident_ir s.table,
        bindings_of-binding_ir s.bindings,
        filter_of-pred_ir s.where_clause,
        columns_of-listed s.returning,
      )
      refl
stmt_of-stmt_to_ir (delete s) =
    rw (ident_of-ident_ir s.table, filter_of-pred_ir s.where_clause) refl
