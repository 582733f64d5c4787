-- ===== src/Dict/Unique.antt =====
-- Dicts have each key once.
use lidb.Base.{◌≡◌, inl, inr, refl, false, List, [], ◌∷◌, ◌++◌, arith, Bool-cases}
use lidb.Str.{Text, ◌==◌, ==_iff}
use lidb.Dict.{Dict, put, keys, elem}
use lidb.Dict.Laws.{keys-put}

abbrev pub IsUnique : List Text → Type 0
IsUnique [] = Unit
IsUnique (k ∷ ks) = (elem k ks ≡ false) × IsUnique ks

elem-snoc :
    (j k : Text) (ks : List Text)
    → elem j ks ≡ false
    → (k == j) ≡ false
    → elem j (ks ++ k ∷ []) ≡ false
unfolding elem
elem-snoc j k [] h d = ground arith
elem-snoc j k (i ∷ ks) h d = ground (arith, elem-snoc j k ks)

pub IsUnique-snoc :
    (k : Text) (ks : List Text) → IsUnique ks → elem k ks ≡ false → IsUnique (ks ++ k ∷ [])
unfolding elem
IsUnique-snoc k [] u h = (refl, tt)
IsUnique-snoc k (j ∷ ks) (n, u) h = (
  elem-snoc j k ks n (ground (arith, ==_iff j k, ==_iff k j)),
  IsUnique-snoc k ks u (ground arith),
)

pub put-IsUnique {ℓ} :
    {V : Type ℓ} (k : Text) (v : V) (d : Dict V) → IsUnique (keys d) → IsUnique (keys (put k v d))
put-IsUnique k v d u = elim (Bool-cases (elem k (keys d))) [
  | inl e ↦ rw (keys-put k v d, e) u
  | inr e ↦ rw (keys-put k v d, e) (IsUnique-snoc k (keys d) u e)
]
