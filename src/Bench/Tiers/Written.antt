-- ===== src/Bench/Tiers/Written.antt =====
-- What emit_all leaves in the files.
use lidb.Base.{
  ◌≡◌, inl, inr, refl, sym, ap, ◌∙◌, List, [], ◌∷◌, Option, none, some, arith, Bool-cases,
}
use lidb.Str.{Text, ◌==◌, ==_iff}
use lidb.Dict.{Dict, lookup, put, keys}
use lidb.Dict.Laws.{lookup-put, elem-keys}
use lidb.Dict.Unique.{IsUnique}
use lidb.Bench.Rows.{Row}
use lidb.Bench.Csv.{csv_text}
use lidb.Bench.Tiers.{Buckets, write_csv, write_all, emit_all, split_by_tier, csv_path}
use lidb.Bench.Tiers.Split.{rows_of, split_by_tier-lookup, split_by_tier-IsUnique, any_rows}

-- The text of the rows, or what was there before.
abbrev pub written_or : Option (List Row) → Option Text → Option Text
written_or none before = before
written_or (some rows) before = some (csv_text rows)

write_all-lookup :
    (path : Text) (buckets : Buckets) (files : Dict Text)
    → IsUnique (keys buckets)
    → lookup path (write_all buckets files).1 ≡ written_or (lookup path buckets) (lookup path files)
unfolding write_all write_csv lookup
write_all-lookup path [] files u = refl
write_all-lookup path ((p, rows) ∷ buckets) files (n, u) =
    write_all-lookup path buckets (put p (csv_text rows) files) u
    ∙ ap (written_or (lookup path buckets)) (lookup-put p path (csv_text rows) files)
    ∙ elim (Bool-cases (p == path)) [
      | inr e ↦ rw e refl
      | inl e ↦
          let same : p ≡ path = (==_iff p path).0 e in
          let gone : lookup path buckets ≡ none =
            ap (λ (u : Text). lookup u buckets) (sym same)
            ∙ (ground (arith, elem-keys p buckets)) in
          rw (e, gone) refl
    ]

-- After emit_all the file of a tier has the rows of its benchmarks, all of them and in their order,
-- instead of what it had before; the file of a tier without a row stays as it was.
pub emit_all-lookup :
    (rows : List Row) (root tier : Text) (files : Dict Text)
    → lookup (csv_path root tier) (emit_all rows root files).1
      ≡ written_or (any_rows (rows_of tier rows)) (lookup (csv_path root tier) files)
unfolding emit_all
emit_all-lookup rows root tier files =
    write_all-lookup (csv_path root tier) (split_by_tier rows root) files
      (split_by_tier-IsUnique rows root)
    ∙ ap (λ (o : Option (List Row)). written_or o (lookup (csv_path root tier) files))
        (split_by_tier-lookup rows root tier)
