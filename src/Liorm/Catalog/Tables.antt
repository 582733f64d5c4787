-- ===== src/Liorm/Catalog/Tables.antt =====
-- The allowlist of liorm/catalog.py. A frozenset is the list of its elements, in the source's order.
use lidb.Base.{String, List, [], ◌∷◌, ◌++◌, map, Option, some}
use lidb.Str.{Text, codes}
use lidb.Dict.{Dict}

-- The columns that a table allows; `none` would allow all.
abbrev pub Columns : Type 0
Columns = Option (List Text)

abbrev allow : String → List String → Text × Columns
allow table columns = (codes table, some (map codes columns))

abbrev registry : Dict Columns
registry =
    allow "public.publishers" ("id" ∷ "name" ∷ "public_key" ∷ "created_at" ∷ "revoked_at" ∷ [])
    ∷ allow "public.packages" ("id" ∷ "name" ∷ "description" ∷ "repository_url" ∷ "created_at" ∷ [])
    ∷ allow "public.package_versions" (
        "id" ∷ "package_id" ∷ "version" ∷ "tree_digest" ∷ "tarball_sha256" ∷ "proof_digest"
        ∷ "coverage_pct" ∷ "publisher_id" ∷ "published_at" ∷ "yanked" ∷ [])
    ∷ allow "public.attestations"
        ("id" ∷ "package_version_id" ∷ "kind" ∷ "digest" ∷ "signature" ∷ "created_at" ∷ [])
    ∷ allow "public.yanks" ("id" ∷ "package_version_id" ∷ "reason" ∷ "yanked_by" ∷ "yanked_at" ∷ [])
    ∷ allow "public.blocklist"
        ("id" ∷ "package_name" ∷ "tree_digest" ∷ "reason" ∷ "created_at" ∷ [])
    ∷ allow "public.schema_migrations" ("version" ∷ "checksum" ∷ "applied_at" ∷ [])
    ∷ []

abbrev control_plane : Dict Columns
control_plane =
    allow "public.agent_runs" (
      "id" ∷ "run_id" ∷ "agent_id" ∷ "publisher_id" ∷ "created_at" ∷ "started_at" ∷ "status"
      ∷ "briefing_hash" ∷ "completed_at" ∷ "output" ∷ [])
    ∷ allow "public.agent_run_events" ("run_id" ∷ "seq" ∷ "event_type" ∷ "payload" ∷ [])
    ∷ allow "public.control_plane_state" ("id" ∷ "payload" ∷ "updated_at" ∷ [])
    ∷ allow "public.control_plane_reports"
        ("id" ∷ "briefing_hash" ∷ "generated_at" ∷ "is_latest" ∷ "payload" ∷ [])
    ∷ allow "public.interventions_snapshots"
        ("id" ∷ "briefing_hash" ∷ "generated_at" ∷ "items" ∷ [])
    ∷ allow "public.briefing_snapshots" ("briefing_hash" ∷ "generated_at" ∷ "payload" ∷ [])
    ∷ allow "public.heap_plan_snapshots" ("briefing_hash" ∷ "generated_at" ∷ "payload" ∷ [])
    ∷ allow "public.queued_agent_tasks"
        ("briefing_hash" ∷ "fingerprint" ∷ "agent_id" ∷ "reason" ∷ "payload" ∷ [])
    ∷ allow "public.repo_workflow_rollouts"
        ("run_id" ∷ "repo" ∷ "pr_url" ∷ "install_ok" ∷ "created_at" ∷ [])
    ∷ []

-- The two dicts have no key in common, so `{**a, **b}` is the one after the other.
unfoldable pub catalog_allowlist : Dict Columns
catalog_allowlist = registry ++ control_plane
