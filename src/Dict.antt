-- ===== src/Dict.antt =====
-- Python's dict with string keys: an association list in insertion order, a key once. Assigning to
-- a key that is there keeps its place.
pub mod Laws
pub mod Unique
use lidb.Base.{Bool, true, false, ◌||◌, List, [], ◌∷◌, map, Option, none, some, if◌then◌else◌}
use lidb.Str.{Text, ◌==◌}

abbrev pub Dict {ℓ} : Type ℓ → Type ℓ
Dict V = List (Text × V)

module _ {ℓ} {V : Type ℓ} where
  -- d.get(k)
  unfoldable pub lookup : Text → Dict V → Option V
  lookup k [] = none
  lookup k ((j, v) ∷ d) = if j == k then some v else lookup k d

  -- d[k] = v
  unfoldable pub put : Text → V → Dict V → Dict V
  put k v [] = (k, v) ∷ []
  put k v ((j, w) ∷ d) = if j == k then (j, v) ∷ d else (j, w) ∷ put k v d

  -- list(d.keys())
  abbrev pub keys : Dict V → List Text
  keys [] = []
  keys ((k, v) ∷ d) = k ∷ keys d

-- `k in s` for a tuple, a frozenset or a list of strings
unfoldable pub elem : Text → List Text → Bool
elem k [] = false
elem k (j ∷ js) = j == k || elem k js
