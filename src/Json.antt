-- ===== src/Json.antt =====
-- JSON values, the Any of the sources, and json.dumps. `negsuc n` is the number -(n + 1). A float is
-- its repr, which json.dumps writes.
pub mod Escape
use lidb.Base.{
  ℕ, ◌+◌, Bool, true, false, ◌||◌, not, nat_eq, is_empty, List, [], ◌∷◌, ◌++◌, if◌then◌else◌,
}
use lidb.Str.{Text, codes, decimal, text_leb, ◌==◌}
use lidb.Json.Escape.{escape}

mutual
  pub data Json : Type 0 where
    null : Json
    bool : Bool → Json
    num : ℕ → Json
    negsuc : ℕ → Json
    float : Text → Json
    str : Text → Json
    arr : Items → Json
    obj : Fields → Json

  pub data Items : Type 0 where
    nil : Items
    cons : Json → Items → Items

  pub data Fields : Type 0 where
    end : Fields
    field : Text → Json → Fields → Fields

-- A list of values, and a dict of pairs.
abbrev pub items : List Json → Items
items [] = nil
items (j ∷ js) = cons j (items js)

abbrev pub fields : List (Text × Json) → Fields
fields [] = end
fields ((k, j) ∷ fs) = field k j (fields fs)

abbrev pub array : List Json → Json
array js = arr (items js)

abbrev pub object : List (Text × Json) → Json
object fs = obj (fields fs)

-- Puts a printed member among the printed members with greater keys.
unfoldable pub insert_member : Text × Text → List (Text × Text) → List (Text × Text)
insert_member m [] = m ∷ []
insert_member m (n ∷ ns) = if text_leb m.0 n.0 then m ∷ n ∷ ns else n ∷ insert_member m ns

unfoldable pub quoted : Text → Text
quoted s = b'"' ∷ (escape s ++ b'"' ∷ [])

-- The members, already printed and sorted, with the separators behind an item and behind a key.
unfoldable pub members_text : Text → Text → List (Text × Text) → Text
unfolding quoted
members_text sep colon [] = []
members_text sep colon ((k, v) ∷ []) = quoted k ++ colon ++ v
members_text sep colon ((k, v) ∷ n ∷ ns) =
    quoted k ++ colon ++ v ++ sep ++ members_text sep colon (n ∷ ns)

unfoldable mutual
  unfolding insert_member quoted members_text

  -- json.dumps(j, sort_keys=True, separators=(sep, colon))
  pub dumps_with : Text → Text → Json → Text
  dumps_with sep colon null = codes "null"
  dumps_with sep colon (bool true) = codes "true"
  dumps_with sep colon (bool false) = codes "false"
  dumps_with sep colon (num n) = decimal n
  dumps_with sep colon (negsuc n) = b'-' ∷ decimal (n + 1)
  dumps_with sep colon (float r) = r
  dumps_with sep colon (str s) = quoted s
  dumps_with sep colon (arr js) = b'[' ∷ (dumps_items sep colon js ++ b']' ∷ [])
  dumps_with sep colon (obj fs) =
      b'{' ∷ (members_text sep colon (dumps_fields sep colon fs) ++ b'}' ∷ [])

  pub dumps_items : Text → Text → Items → Text
  dumps_items sep colon nil = []
  dumps_items sep colon (cons j nil) = dumps_with sep colon j
  dumps_items sep colon (cons j (cons k js)) =
      dumps_with sep colon j ++ sep ++ dumps_items sep colon (cons k js)

  pub dumps_fields : Text → Text → Fields → List (Text × Text)
  dumps_fields sep colon end = []
  dumps_fields sep colon (field k j fs) =
      insert_member (k, dumps_with sep colon j) (dumps_fields sep colon fs)

-- json.dumps(j, sort_keys=True)
unfoldable pub dumps : Json → Text
unfolding dumps_with dumps_items dumps_fields
dumps = dumps_with (codes ", ") (codes ": ")

-- json.dumps(j, sort_keys=True, separators=(",", ":"))
unfoldable pub dumps_compact : Json → Text
unfolding dumps_with dumps_items dumps_fields
dumps_compact = dumps_with (codes ",") (codes ":")

-- bool(j)
abbrev pub is_truthy : Json → Bool
is_truthy null = false
is_truthy (bool b) = b
is_truthy (num n) = not (nat_eq n 0)
is_truthy (negsuc n) = true
is_truthy (float r) = not (r == codes "0.0" || r == codes "-0.0")
is_truthy (str s) = not (is_empty s)
is_truthy (arr nil) = false
is_truthy (arr (cons _ _)) = true
is_truthy (obj end) = false
is_truthy (obj (field _ _ _)) = true

-- str(j); `repr` is that of a list or a dict.
abbrev pub py_str : (Json → Text) → Json → Text
py_str repr null = codes "None"
py_str repr (bool true) = codes "True"
py_str repr (bool false) = codes "False"
py_str repr (num n) = decimal n
py_str repr (negsuc n) = b'-' ∷ decimal (n + 1)
py_str repr (float r) = r
py_str repr (str s) = s
py_str repr j = repr j
