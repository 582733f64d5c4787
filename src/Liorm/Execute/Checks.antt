-- ===== src/Liorm/Execute/Checks.antt =====
-- What the checks of `prepare` decide, one by one.
use lidb.Base.{◌≡◌, ◌↔◌, refl, sym, ◌∙◌, true, false, List, [], ◌∷◌, some, ok, traverse, arith, All}
use lidb.Str.{Text, ==_iff, ==_refl}
use lidb.Dict.{Dict, lookup, keys, elem}
use lidb.Dict.Laws.{lookup_of_elem}
use lidb.Json.{Json}
use lidb.Liorm.Execute.{
  Params, subset, keys_match, occurs_in, check_values, ordered_params, param_value,
}

-- Two key lists are the same set.
abbrev pub SameKeys : List Text → List Text → Type 0
SameKeys given expected = (k : Text) → elem k given ≡ elem k expected

elem-eq : (j k : Text) (js : List Text) → j ≡ k → elem k (j ∷ js) ≡ true
unfolding elem
elem-eq j k js e = ground (arith, ==_iff j k)

elem-later : (j k : Text) (js : List Text) → elem k js ≡ true → elem k (j ∷ js) ≡ true
unfolding elem
elem-later j k js m = ground arith

subset-elem :
    (xs ys : List Text) (k : Text) → subset xs ys ≡ true → elem k xs ≡ true → elem k ys ≡ true
unfolding subset elem
subset-elem [] ys k h m = cc
subset-elem (x ∷ xs) ys k h m = ground (arith, ==_iff x k, subset-elem xs ys k)

elem-subset :
    (xs ys : List Text) → ((k : Text) → elem k xs ≡ true → elem k ys ≡ true) → subset xs ys ≡ true
unfolding subset elem
elem-subset [] ys h = refl
elem-subset (x ∷ xs) ys h =
    ground (arith, ==_refl x, h x, elem-subset xs ys (λ k m. h k (ground arith)))

pub keys_match_iff :
    (given expected : List Text) → (keys_match given expected ≡ true) ↔ SameKeys given expected
unfolding keys_match
keys_match_iff given expected = (
  λ h k. ground (arith, subset-elem given expected k, subset-elem expected given k),
  λ h. ground (
    arith,
    elem-subset given expected (λ k m. sym (h k) ∙ m),
    elem-subset expected given (λ k m. h k ∙ m),
  ),
)

-- No text among the values occurs in the SQL.
abbrev pub NoValueIn : Text → Params → Type 0
NoValueIn sql params = All (λ (p : Text × Json). occurs_in sql p.1 ≡ false) params

pub check_values_iff :
    (sql : Text) (params : Params) → (check_values sql params ≡ ok tt) ↔ NoValueIn sql params
unfolding check_values
check_values_iff sql [] = (λ _. tt, λ _. refl)
check_values_iff sql ((k, v) ∷ ps) = ground (arith, check_values_iff sql ps)

-- The parameters bound for `ks` are those that the keys have in `params`.
abbrev pub Bound : Params → List Text → List Json → Type 0
Bound params [] [] = Unit
Bound params [] (v ∷ vs) = ⊥
Bound params (k ∷ ks) [] = ⊥
Bound params (k ∷ ks) (v ∷ vs) = (lookup k params ≡ some v) × Bound params ks vs

traverse-Bound :
    (params : Params) (ks : List Text)
    → ((k : Text) → elem k ks ≡ true → elem k (keys params) ≡ true)
    → (vs : List Json) × (traverse (param_value params) ks ≡ ok vs) × Bound params ks vs
unfolding param_value
traverse-Bound params [] h = ([], refl, tt)
traverse-Bound params (k ∷ ks) h =
    let (v, found) = lookup_of_elem k params (h k (elem-eq k k ks refl)) in
    let (vs, rest, bound) = traverse-Bound params ks (λ j m. h j (elem-later k j ks m)) in
    (v ∷ vs, ground (arith, found, rest), (found, bound))

pub ordered_params-Bound :
    (schema : Dict Text) (params : Params)
    → SameKeys (keys params) (keys schema)
    → (vs : List Json) × (ordered_params schema params ≡ ok vs) × Bound params (keys schema) vs
unfolding ordered_params
ordered_params-Bound schema params same = traverse-Bound params (keys schema) (λ k m. same k ∙ m)

pub Bound-unique :
    (params : Params) (ks : List Text) (vs ws : List Json)
    → Bound params ks vs
    → Bound params ks ws
    → vs ≡ ws
Bound-unique params [] [] [] b c = refl
Bound-unique params [] [] (w ∷ ws) b c = absurd c
Bound-unique params [] (v ∷ vs) ws b c = absurd b
Bound-unique params (k ∷ ks) [] ws b c = absurd b
Bound-unique params (k ∷ ks) (v ∷ vs) [] b c = absurd c
Bound-unique params (k ∷ ks) (v ∷ vs) (w ∷ ws) b c =
    cc (b.0, c.0, Bound-unique params ks vs ws b.1 c.1)
