-- ===== src/Str/Basic.antt =====
-- Python's str as a list of code points, and the comparison of two of them.
use Prim.Native.Char.{code}
use Prim.Native.String.{String}
use lidb.Base.{
  ℕ, ◌≡◌, ◌≢◌, ◌↔◌, refl, Bool, true, false, ◌&&◌, ◌||◌, List, [], ◌∷◌, arith, ltb, nat_eq,
}

abbrev pub Text : Type 0
Text = List ℕ

-- A literal of the source. `String` has its own `[]` and `∷`.
abbrev pub codes : String → Text
codes String.[] = []
codes (String.◌∷◌ c s) = code c ∷ codes s

infix 50 ◌==◌
unfoldable pub ◌==◌ : Text → Text → Bool
[] == [] = true
[] == (d ∷ ds) = false
(c ∷ cs) == [] = false
(c ∷ cs) == (d ∷ ds) = nat_eq c d && cs == ds

pub ==_iff : (s t : Text) → ((s == t) ≡ true) ↔ (s ≡ t)
unfolding ◌==◌
==_iff [] [] = ground arith
==_iff [] (d ∷ ds) = ground arith
==_iff (c ∷ cs) [] = ground arith
==_iff (c ∷ cs) (d ∷ ds) = ground (arith, ==_iff cs ds)

pub ==_refl : (s : Text) → (s == s) ≡ true
==_refl s = (==_iff s s).1 refl

pub ==_of_ne : (s t : Text) → s ≢ t → (s == t) ≡ false
==_of_ne s t h = ground (arith, ==_iff s t)

-- s <= t, by code points
unfoldable pub text_leb : Text → Text → Bool
text_leb [] t = true
text_leb (c ∷ cs) [] = false
text_leb (c ∷ cs) (d ∷ ds) = ltb c d || nat_eq c d && text_leb cs ds
