-- ===== src/Dict/Laws.antt =====
-- Laws of lookup, assignment and membership.
use lidb.Base.{
  ◌≡◌, ◌⊎◌, inl, inr, refl, true, [], ◌∷◌, ◌++◌, none, some, arith, if◌then◌else◌, Bool-cases,
}
use lidb.Str.{Text, ◌==◌, ==_iff}
use lidb.Dict.{Dict, lookup, put, keys, elem}

module _ {ℓ} {V : Type ℓ} where
  pub lookup-put :
      (k j : Text) (v : V) (d : Dict V)
      → lookup j (put k v d) ≡ (if k == j then some v else lookup j d)
  unfolding lookup put
  lookup-put k j v [] = refl
  lookup-put k j v ((i, w) ∷ d) =
      ground (arith, ==_iff k j, ==_iff i k, ==_iff i j, lookup-put k j v d)

  -- A new key comes last; a key that is there keeps its place.
  pub keys-put :
      (k : Text) (v : V) (d : Dict V)
      → keys (put k v d) ≡ (if elem k (keys d) then keys d else keys d ++ k ∷ [])
  unfolding put elem
  keys-put k v [] = refl
  keys-put k v ((i, w) ∷ d) = ground (arith, keys-put k v d)

  pub lookup_of_elem :
      (k : Text) (d : Dict V) → elem k (keys d) ≡ true → (v : V) × (lookup k d ≡ some v)
  unfolding elem lookup
  lookup_of_elem k [] h = cc
  lookup_of_elem k ((i, w) ∷ d) h = elim (Bool-cases (i == k)) [
    | inl e ↦ (w, rw e)
    | inr e ↦ let (v, f) = lookup_of_elem k d (ground arith) in (v, rw e f)
  ]

  pub elem-keys : (k : Text) (d : Dict V) → (elem k (keys d) ≡ true) ⊎ (lookup k d ≡ none)
  unfolding elem lookup
  elem-keys k [] = inr refl
  elem-keys k ((i, w) ∷ d) = ground (arith, elem-keys k d)
