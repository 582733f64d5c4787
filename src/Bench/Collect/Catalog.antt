-- ===== src/Bench/Collect/Catalog.antt =====
-- The rows that collect_rows makes, and its clean-up.
use mathlib.Core.List.{map-append}
use lidb.Base.{
  ℕ, ◌≡◌, refl, ap, sym, ◌∙◌, List, [], ◌∷◌, ◌++◌, map, Option, Outcome, ok, err, Ensures,
  Ensures-mono, subst,
}
use lidb.Str.{Text, codes, ◌==◌}
use lidb.Dict.{keys, elem}
use lidb.Dict.Unique.{IsUnique}
use lidb.Liorm.Execute.{keys_match}
use lidb.Liorm.Execute.Checks.{SameKeys, keys_match_iff}
use lidb.Bench.Tiers.{tier_dirs}
use lidb.Errors.{Error, called_process_error}
use lidb.Action.{Action, Yields, Yields-bind, Yields-rest, ◌>>=◌}
use lidb.Bench.Rows.{Row, base_row, blocked_row, measured_row}
use lidb.Bench.Lab.{Lab, Floats, asked, finally, run_checked}
use lidb.Bench.Measure.{Settings, ensure_embed, time_query, seed_registry}
use lidb.Bench.Measure.Memory.{peak_rss_kib_darwin, measure_memory, measure_parallel_readers}
use lidb.Bench.Measure.Security.{measure_security}
use lidb.Bench.Collect.{
  BlockedSpec, latency_row, publish_row, measure_publish, measured_rows, by_name_sql, latest_sql,
  blocked_rows, blocked_specs, with_blocked, collect_in, collect_rows,
}

abbrev pub benchmarks : List Row → List Text
benchmarks = map (λ (r : Row). r.benchmark)

-- The benchmarks of measured_rows, in their order.
abbrev measured_names : List Text
measured_names =
    codes "registry_read_by_name"
    ∷ codes "registry_read_latest"
    ∷ codes "registry_publish"
    ∷ codes "rss_idle"
    ∷ codes "rss_peak_load"
    ∷ codes "concurrent_readers"
    ∷ codes "concurrent_writers"
    ∷ codes "injection_blocked"
    ∷ codes "rls_bypass_blocked"
    ∷ []

IsPublish : Row → Type 0
IsPublish r = r.benchmark ≡ codes "registry_publish"

HasNames : List Text → List Row → Type 0
HasNames names rows = benchmarks rows ≡ names

-- The names around the one of the publish row.
abbrev with_publish : Text → List Text
with_publish b =
    codes "registry_read_by_name"
    ∷ codes "registry_read_latest"
    ∷ b
    ∷ codes "rss_idle"
    ∷ codes "rss_peak_load"
    ∷ codes "concurrent_readers"
    ∷ codes "concurrent_writers"
    ∷ codes "injection_blocked"
    ∷ codes "rls_bypass_blocked"
    ∷ []

-- One row for every benchmark of the catalog of tiers.
pub record IsCatalog (rows : List Row) : Type 0 where
  pub once : IsUnique (benchmarks rows)
  pub same : SameKeys (benchmarks rows) (keys tier_dirs)

names-IsUnique : IsUnique (measured_names ++ map (λ (s : BlockedSpec). s.benchmark) blocked_specs)
unfolding elem ◌==◌
names-IsUnique = (
  refl,
  (
    refl,
    (
      refl,
      (
        refl,
        (
          refl,
          (
            refl,
            (
              refl,
              (
                refl,
                (
                  refl,
                  (
                    refl,
                    (refl, (refl, (refl, (refl, (refl, (refl, (refl, (refl, (refl, tt))))))))),
                  ),
                ),
              ),
            ),
          ),
        ),
      ),
    ),
  ),
)

names_match :
    SameKeys
      (measured_names ++ map (λ (s : BlockedSpec). s.benchmark) blocked_specs)
      (keys tier_dirs)
names_match =
    (keys_match_iff (measured_names ++ map (λ (s : BlockedSpec). s.benchmark) blocked_specs)
        (keys tier_dirs)).0
      (unfold keys_match elem ◌==◌ in refl)

module _ {W F : Type 0} (lab : Lab W F) (floats : Floats F) (set : Settings)
    (to_kib : Text → Option ℕ) where
  publish_row-IsPublish :
      (o : Outcome Error F) → Ensures IsPublish (publish_row lab floats set to_kib o)
  unfolding publish_row latency_row measured_row blocked_row base_row IsPublish
  publish_row-IsPublish (ok p95) = refl
  publish_row-IsPublish (err called_process_error) = refl
  publish_row-IsPublish (err _) = tt

  measure_publish-IsPublish :
      (embed data_dir pkg_id pub_id : Text)
      → Yields IsPublish (measure_publish lab floats set to_kib embed data_dir pkg_id pub_id)
  unfolding measure_publish
  measure_publish-IsPublish embed data_dir pkg_id pub_id w = publish_row-IsPublish _

  measured_rows-HasNames :
      (embed data_dir : Text)
      → Yields (HasNames measured_names) (measured_rows lab floats set to_kib embed data_dir)
  unfolding measured_rows HasNames latency_row measured_row blocked_row base_row IsPublish
  measured_rows-HasNames embed data_dir =
      Yields-rest P (run_checked lab (embed ∷ codes "open" ∷ data_dir ∷ [])) _ λ _.
        Yields-rest P (run_checked lab (embed ∷ codes "migrate" ∷ data_dir ∷ [])) _ λ _.
          Yields-rest P (seed_registry lab set embed data_dir) _ λ ids.
            Yields-rest P
              (peak_rss_kib_darwin lab set to_kib (embed ∷ codes "migrate" ∷ data_dir ∷ [])) _
              λ _.
                Yields-rest P (time_query lab set floats embed data_dir by_name_sql set.read_iters)
                  _
                  λ _.
                    Yields-rest P
                      (time_query lab set floats embed data_dir (latest_sql ids.0) set.read_iters) _
                      λ _.
                        Yields-bind IsPublish P
                          (measure_publish lab floats set to_kib embed data_dir ids.0 ids.1) _
                          (measure_publish-IsPublish embed data_dir ids.0 ids.1)
                          λ publish named.
                            Yields-rest P (measure_memory lab set to_kib floats embed data_dir) _
                              λ _.
                                Yields-rest P
                                  (measure_parallel_readers lab set floats embed data_dir) _
                                  λ _.
                                    Yields-rest P (measure_security lab set floats) _
                                      λ _ w. ap with_publish named
    where
      P : List Row → Type 0
      P = HasNames measured_names

  finally-Yields :
      (P : List Row → Type 0) (m : Action W (List Row)) (clean : W → W)
      → Yields P m
      → Yields P (finally m clean)
  finally-Yields P m clean h w = h w

  -- Behind the measured rows come those of blocked_specs.
  collect_rows-HasNames :
      Yields
        (HasNames (measured_names ++ map (λ (s : BlockedSpec). s.benchmark) blocked_specs))
        (collect_rows lab floats set to_kib)
  unfolding collect_rows HasNames blocked_row base_row
  collect_rows-HasNames =
      Yields-rest P (ensure_embed lab set)
        (λ embed. asked lab.make_temp_dir >>= collect_in lab floats set to_kib embed)
        λ embed.
          Yields-rest P (asked lab.make_temp_dir) (collect_in lab floats set to_kib embed)
            λ data_dir.
              Yields-bind (HasNames measured_names) P
                (finally (measured_rows lab floats set to_kib embed data_dir)
                  (lab.remove_tree data_dir))
                (with_blocked lab floats set to_kib)
                (finally-Yields (HasNames measured_names)
                  (measured_rows lab floats set to_kib embed data_dir) (lab.remove_tree data_dir)
                  (measured_rows-HasNames embed data_dir))
                λ rows named w.
                  map-append (λ (r : Row). r.benchmark) rows
                    (blocked_rows lab floats set to_kib blocked_specs)
                  ∙ ap
                      (λ (ns : List Text).
                        ns ++ map (λ (s : BlockedSpec). s.benchmark) blocked_specs)
                      named
    where
      P : List Row → Type 0
      P = HasNames (measured_names ++ map (λ (s : BlockedSpec). s.benchmark) blocked_specs)

  -- Whatever the machine answers, collect_rows raises or returns exactly one row for each benchmark that
  -- split_by_tier knows, and none for another; so no row is left out of the files.
  pub collect_rows-IsCatalog : Yields IsCatalog (collect_rows lab floats set to_kib)
  unfolding HasNames
  collect_rows-IsCatalog w =
      Ensures-mono
        (HasNames (measured_names ++ map (λ (s : BlockedSpec). s.benchmark) blocked_specs))
        IsCatalog _
        (λ rows named. record {
          once = subst IsUnique (sym named) names-IsUnique;
          same = subst (λ (ns : List Text). SameKeys ns (keys tier_dirs)) (sym named) names_match;
        })
        (collect_rows-HasNames w)
