-- ===== src/Liq/Compiler/Alphabet/Loops.antt =====
-- The loops over the bindings collect SQL text.
use lidb.Base.{
  ◌+◌, refl, List, [], ◌∷◌, ◌++◌, Outcome, ok, ◌>>=◌, all, all-append, to_Ensures, Ensures,
  Ensures-bind,
}
use lidb.Str.{Text, codes, decimal}
use lidb.Errors.{Error}
use lidb.Liorm.Catalog.{resolve_column}
use lidb.Liq.Syntax.{Rhs, param_ref, const, Bindings}
use lidb.Liq.Compiler.{Slots, quoted_col, insert_value, update_value, slots_loop}
use lidb.Liq.Compiler.Alphabet.{
  is_sql_char, IsSqlText, AllSql, decimal-IsSqlText, quoted_col-TextOk,
}

pub record SlotsText (st : Slots) : Type 0 where
  pub fields : AllSql st.fields
  pub placeholders : AllSql st.placeholders

pub snoc-AllSql : (ts : List Text) (t : Text) → AllSql ts → IsSqlText t → AllSql (ts ++ t ∷ [])
snoc-AllSql ts t h k = rw (all-append (all is_sql_char) ts (t ∷ []), h, k)

pub insert_value-SlotsText :
    (st : Slots) (col : Text) (v : Rhs)
    → IsSqlText col
    → SlotsText st
    → SlotsText (insert_value st col v)
unfolding insert_value is_sql_char
insert_value-SlotsText st col (param_ref name) c h = record {
  fields = snoc-AllSql st.fields col h.fields c;
  placeholders = snoc-AllSql st.placeholders _ h.placeholders (decimal-IsSqlText (st.idx + 1));
}
insert_value-SlotsText st col (const l) c h = record {
  fields = snoc-AllSql st.fields col h.fields c;
  placeholders = snoc-AllSql st.placeholders (codes "%s") h.placeholders refl;
}

pub update_value-SlotsText :
    (st : Slots) (col : Text) (v : Rhs)
    → IsSqlText col
    → SlotsText st
    → SlotsText (update_value st col v)
unfolding update_value is_sql_char
update_value-SlotsText st col (param_ref name) c h = record {
  fields =
      snoc-AllSql st.fields (col ++ codes " = $" ++ decimal (st.idx + 1)) h.fields
        (simp (all-append, c, decimal-IsSqlText (st.idx + 1)));
  placeholders = h.placeholders;
}
update_value-SlotsText st col (const l) c h = record {
  fields = snoc-AllSql st.fields (col ++ codes " = %s") h.fields (simp (all-append, c));
  placeholders = h.placeholders;
}

-- The column of a binding is resolved twice, and its text then goes on.
pub resolved_slot :
    (table field : Text) (f : Text → Slots)
    → ((col : Text) → IsSqlText col → SlotsText (f col))
    → Ensures SlotsText
        (resolve_column table field >>= λ _. quoted_col table field >>= λ col. ok (f col))
resolved_slot table field f h =
    Ensures-bind (λ _. Unit) SlotsText (resolve_column table field) _
      (to_Ensures (λ _. Unit) (resolve_column table field) (λ _ _. tt))
      λ _ _.
        Ensures-bind IsSqlText SlotsText (quoted_col table field) _ (quoted_col-TextOk table field)
          λ col c. h col c

pub slots_loop-SlotsText :
    (body : Slots → Text → Rhs → Outcome Error Slots)
    → ((st : Slots) (field : Text) (v : Rhs) → SlotsText st → Ensures SlotsText (body st field v))
    → (st : Slots) (bs : Bindings) → SlotsText st
    → Ensures SlotsText (slots_loop body st bs)
unfolding slots_loop
slots_loop-SlotsText body keep st [] h = h
slots_loop-SlotsText body keep st ((field, v) ∷ bs) h =
    Ensures-bind SlotsText SlotsText (body st field v) _ (keep st field v h)
      λ st' h'. slots_loop-SlotsText body keep st' bs h'
