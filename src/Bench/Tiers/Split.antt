-- ===== src/Bench/Tiers/Split.antt =====
-- What split_by_tier puts under each path.
use mathlib.Core.List.{append_cancel_left, append_cancel_right}
use lidb.Base.{
  ◌≡◌, inl, inr, refl, sym, ap, ◌∙◌, Bool, false, List, [], ◌∷◌, ◌++◌, Option, none, some, arith,
  append_assoc, if◌then◌else◌, Bool-cases,
}
use lidb.Str.{Text, codes, ◌==◌, ==_iff}
use lidb.Dict.{lookup, put, keys, elem}
use lidb.Dict.Laws.{lookup-put, elem-keys}
use lidb.Dict.Unique.{IsUnique, put-IsUnique}
use lidb.Bench.Rows.{Row}
use lidb.Bench.Tiers.{
  tier_dirs, Buckets, or_empty, add_to, add_known, fill, csv_path, under_paths, split_by_tier,
}

-- Whether a benchmark is in a tier.
abbrev pub is_in : Text → Option Text → Bool
is_in tier none = false
is_in tier (some t) = t == tier

-- The rows of a tier, in their order.
unfoldable pub rows_of : Text → List Row → List Row
rows_of tier [] = []
rows_of tier (row ∷ rows) =
    let rest = rows_of tier rows in
    if is_in tier (lookup row.benchmark tier_dirs) then row ∷ rest else rest

-- A bucket with more rows behind it.
abbrev more : Option (List Row) → List Row → Option (List Row)
more o [] = o
more o (r ∷ rs) = some (or_empty o ++ r ∷ rs)

more-cons :
    (o : Option (List Row)) (row : Row) (rs : List Row)
    → more (some (or_empty o ++ row ∷ [])) rs ≡ more o (row ∷ rs)
more-cons o row [] = refl
more-cons o row (r ∷ rs) = ap some (append_assoc (or_empty o) (row ∷ []) (r ∷ rs))

-- One round of the loop.
add_known-lookup :
    (tier : Text) (o : Option Text) (row : Row) (buckets : Buckets) (rs : List Row)
    → more (lookup tier (add_known o row buckets)) rs
      ≡ more (lookup tier buckets) (if is_in tier o then row ∷ rs else rs)
unfolding add_to
add_known-lookup tier none row buckets rs = refl
add_known-lookup tier (some t) row buckets rs =
    let put_here = lookup-put t tier (or_empty (lookup t buckets) ++ row ∷ []) buckets in
    elim (Bool-cases (t == tier)) [
      | inr e ↦ rw (put_here, e) refl
      | inl e ↦
          let same : t ≡ tier = (==_iff t tier).0 e in
          rw (put_here, e)
            (ap (λ (u : Text). more (some (or_empty (lookup u buckets) ++ row ∷ [])) rs) same
              ∙ more-cons (lookup tier buckets) row rs)
    ]

fill-lookup :
    (tier : Text) (rows : List Row) (buckets : Buckets)
    → lookup tier (fill rows buckets) ≡ more (lookup tier buckets) (rows_of tier rows)
unfolding fill rows_of
fill-lookup tier [] buckets = refl
fill-lookup tier (row ∷ rows) buckets =
    fill-lookup tier rows (add_known (lookup row.benchmark tier_dirs) row buckets)
    ∙ add_known-lookup tier (lookup row.benchmark tier_dirs) row buckets (rows_of tier rows)

add_known-IsUnique :
    (o : Option Text) (row : Row) (buckets : Buckets)
    → IsUnique (keys buckets)
    → IsUnique (keys (add_known o row buckets))
unfolding add_to
add_known-IsUnique none row buckets u = u
add_known-IsUnique (some t) row buckets u = put-IsUnique t _ buckets u

fill-IsUnique :
    (rows : List Row) (buckets : Buckets)
    → IsUnique (keys buckets)
    → IsUnique (keys (fill rows buckets))
unfolding fill
fill-IsUnique [] buckets u = u
fill-IsUnique (row ∷ rows) buckets u =
    fill-IsUnique rows _ (add_known-IsUnique (lookup row.benchmark tier_dirs) row buckets u)

-- Two tiers have two paths.
pub csv_path-injective : (root a b : Text) → csv_path root a ≡ csv_path root b → a ≡ b
unfolding csv_path
csv_path-injective root a b h = append_cancel_left (root ++ codes "/") a b (
    append_cancel_right (root ++ codes "/" ++ a) (root ++ codes "/" ++ b)
      (codes "/results/latest.csv") h)

pub csv_path-== : (root a b : Text) → (csv_path root a == csv_path root b) ≡ (a == b)
csv_path-== root a b = ground (
  arith,
  ==_iff (csv_path root a) (csv_path root b),
  ==_iff a b,
  csv_path-injective root a b,
  ap (csv_path root) {x = a} {y = b},
)

-- What is found in a dict, or else in another.
abbrev or_else : Option (List Row) → Option (List Row) → Option (List Row)
or_else none o = o
or_else (some rows) o = some rows

lookup_of_new :
    (t : Text) (buckets : Buckets) → elem t (keys buckets) ≡ false → lookup t buckets ≡ none
lookup_of_new t buckets n = ground (arith, elem-keys t buckets)

put_path :
    (root tier t : Text) (rows : List Row) (buckets out : Buckets)
    → elem t (keys buckets) ≡ false
    → or_else (lookup tier buckets) (lookup (csv_path root tier) (put (csv_path root t) rows out))
      ≡ or_else
          (if t == tier then some rows else lookup tier buckets)
          (lookup (csv_path root tier) out)
put_path root tier t rows buckets out n =
    ap (or_else (lookup tier buckets)) (
      lookup-put (csv_path root t) (csv_path root tier) rows out
      ∙ ap (λ b. if b then some rows else lookup (csv_path root tier) out)
          (csv_path-== root t tier))
    ∙ elim (Bool-cases (t == tier)) [
      | inr e ↦ rw e refl
      | inl e ↦
          let same : t ≡ tier = (==_iff t tier).0 e in
          let gone : lookup tier buckets ≡ none =
            ap (λ (u : Text). lookup u buckets) (sym same) ∙ lookup_of_new t buckets n in
          rw (e, gone) refl
    ]

under_paths-lookup :
    (root tier : Text) (buckets out : Buckets)
    → IsUnique (keys buckets)
    → lookup (csv_path root tier) (under_paths root buckets out)
      ≡ or_else (lookup tier buckets) (lookup (csv_path root tier) out)
unfolding under_paths lookup
under_paths-lookup root tier [] out u = refl
under_paths-lookup root tier ((t, rows) ∷ buckets) out (n, u) =
    under_paths-lookup root tier buckets (put (csv_path root t) rows out) u
    ∙ put_path root tier t rows buckets out n

under_paths-IsUnique :
    (root : Text) (buckets out : Buckets)
    → IsUnique (keys out)
    → IsUnique (keys (under_paths root buckets out))
unfolding under_paths
under_paths-IsUnique root [] out u = u
under_paths-IsUnique root ((t, rows) ∷ buckets) out u =
    under_paths-IsUnique root buckets _ (put-IsUnique (csv_path root t) rows out u)

pub split_by_tier-IsUnique :
    (rows : List Row) (root : Text) → IsUnique (keys (split_by_tier rows root))
unfolding split_by_tier
split_by_tier-IsUnique rows root = under_paths-IsUnique root (fill rows []) [] tt

-- A list of rows, if there is a row.
abbrev pub any_rows : List Row → Option (List Row)
any_rows [] = none
any_rows (r ∷ rs) = some (r ∷ rs)

-- Under the path of a tier are the rows of its benchmarks, all of them and in their order; a tier
-- without a row has no entry.
pub split_by_tier-lookup :
    (rows : List Row) (root tier : Text)
    → lookup (csv_path root tier) (split_by_tier rows root) ≡ any_rows (rows_of tier rows)
unfolding split_by_tier lookup
split_by_tier-lookup rows root tier =
    under_paths-lookup root tier (fill rows []) [] (fill-IsUnique rows [] tt)
    ∙ ap (λ (o : Option (List Row)). or_else o none) (fill-lookup tier rows [])
    ∙ last (rows_of tier rows)
  where
    last : (rs : List Row) → or_else (more none rs) none ≡ any_rows rs
    last [] = refl
    last (r ∷ rs) = refl
