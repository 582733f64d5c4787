-- ===== src/Bench/Compare/Sending.antt =====
-- What each function of the comparison sends.
use lidb.Base.{ℕ, ◌+◌, ap, ◌∙◌, List, [], ◌∷◌, ◌++◌, map, Option, none, some, ok}
use lidb.Str.{Text, codes, decimal}
use lidb.Json.{str, array, dumps}
use lidb.Action.{pure, ◌>>◌}
use lidb.Bench.Rig.{
  Rig, PgCall, execute, fetchone, commit, or_build, build_embed, embed_binary, embed_or_raise,
  lidb_exec, smoke_dir, found_or_raise, succeed_or_raise,
}
use lidb.Bench.Compare.{
  Scenario, registry_publish, registry_read_by_name, registry_read_latest, lidb_publish, lidb_fn,
  pg_publish, pg_fn, send_version, pg_send_version,
}
use lidb.Bench.Compare.Transcript.{
  Sent, to_lidb, to_pg, IsRecorded, Says, pure-Says, bind-Says, Script, Follows, on_world-Follows,
}

-- A statement with its parameters as lidb_embed reads them.
abbrev pub statement : Text → List Text → Sent
statement sql params = to_lidb sql (some (dumps (array (map (λ p. str p) params))))

abbrev pub version_params : ℕ → List Text
version_params n =
    codes "1"
    ∷ (codes "0.0." ++ decimal n)
    ∷ (codes "sha256:t" ++ decimal n)
    ∷ codes "90"
    ∷ codes "1"
    ∷ []

-- The version with a number.
abbrev pub version_statement : ℕ → Sent
version_statement n =
    statement
      (codes
        "INSERT INTO package_versions (package_id, version, tree_digest, coverage_pct, publisher_id) VALUES (?, ?, ?, ?, ?)")
      (version_params n)

abbrev pub pg_version : ℕ → List Sent
pg_version n =
    to_pg (
      execute
        (codes
          "INSERT INTO package_versions (package_id, version, tree_digest, coverage_pct) VALUES ((SELECT id FROM packages WHERE name=%s), %s, %s, %s)")
        (codes "bench-pkg"
          ∷ (codes "0.0." ++ decimal n)
          ∷ (codes "sha256:t" ++ decimal n)
          ∷ codes "90.0"
          ∷ []))
    ∷ to_pg commit
    ∷ []

abbrev pub pg_query : Text → List Sent
pg_query sql = to_pg (execute sql (codes "bench-pkg" ∷ [])) ∷ to_pg fetchone ∷ []

-- One call of a scenario on lidb: a publication takes the next number.
abbrev pub lidb_script : Scenario → Script
lidb_script registry_publish (n, p) = (version_statement (n + 1) ∷ [], (n + 1, p))
lidb_script registry_read_by_name x = (
  statement (codes "SELECT id, name FROM packages WHERE name = ?") (codes "bench-pkg" ∷ []) ∷ [],
  x,
)
lidb_script registry_read_latest x = (
  statement
        (codes
          "SELECT pv.version FROM package_versions pv JOIN packages p ON p.id = pv.package_id WHERE p.name = ?")
        (codes "bench-pkg" ∷ [])
      ∷ [],
  x,
)

-- One call of a scenario on Postgres.
abbrev pub pg_script : Scenario → Script
pg_script registry_publish (n, p) = (pg_version (p + 1), (n, p + 1))
pg_script registry_read_by_name x =
    (pg_query (codes "SELECT id, name FROM packages WHERE name=%s"), x)
pg_script registry_read_latest x = (
  pg_query (
      codes
        "\n                    SELECT pv.version FROM package_versions pv\n                    JOIN packages p ON p.id = pv.package_id\n                    WHERE p.name = %s ORDER BY pv.published_at DESC LIMIT 1\n                    "),
  x,
)

module _ {W F : Type 0} (rig : Rig W F) (log : W → List Sent) (rec : IsRecorded rig log) where
  -- cmake has other arguments than a statement.
  build_embed-Says : Says log [] (build_embed rig)
  unfolding build_embed
  build_embed-Says w a w' e =
      bind-Says log [] [] _ (λ _ v. (ok (embed_binary rig v), v))
        (bind-Says log [] [] (rig.call _ none) (λ _. rig.call _ none)
          (λ v proc v' h. rec.called _ none v h) (λ _ v proc v' h. rec.called _ none v h))
        (λ _ v. pure-Says log (ok (embed_binary rig v)) v) (rig.make_dir (smoke_dir rig) w) a w' e
      ∙ ap (λ (l : List Sent). l ++ []) (rec.new_dir (smoke_dir rig) w)

  or_build-Says : (found : Option Text) → Says log [] (or_build rig found)
  or_build-Says none = build_embed-Says
  or_build-Says (some exe) = pure-Says log (ok (some exe))

  embed_or_raise-Says : Says log [] (embed_or_raise rig)
  unfolding embed_or_raise
  embed_or_raise-Says w =
      bind-Says log [] [] (or_build rig (embed_binary rig w)) (λ exe. pure (found_or_raise rig exe))
        (or_build-Says (embed_binary rig w)) (λ exe. pure-Says log (found_or_raise rig exe)) w

  pub lidb_exec-Says :
      (dir sql : Text) (params : List Text)
      → Says log (statement sql params ∷ []) (lidb_exec rig dir sql params)
  unfolding lidb_exec
  lidb_exec-Says dir sql params =
      bind-Says log [] (statement sql params ∷ []) (embed_or_raise rig) _ embed_or_raise-Says λ exe.
        bind-Says log (statement sql params ∷ []) [] (rig.call _ _) _
          (λ v proc v' h. rec.called _ _ v h) λ proc. pure-Says log (succeed_or_raise rig proc)

  -- Two calls of psycopg2.
  pg-Says : (one two : PgCall) → Says log (to_pg one ∷ to_pg two ∷ []) (rig.pg one >> rig.pg two)
  pg-Says one two =
      bind-Says log (to_pg one ∷ []) (to_pg two ∷ []) (rig.pg one) (λ _. rig.pg two)
        (λ v u v' h. rec.pg_called one v h) (λ _ v u v' h. rec.pg_called two v h)

  pub lidb_fn-Follows :
      (dir : Text) (sid : Scenario) → Follows log (lidb_script sid) (lidb_fn rig dir sid)
  unfolding lidb_fn lidb_publish
  lidb_fn-Follows dir registry_publish = λ c.
      on_world-Follows log (version_statement (c.pub_n + 1) ∷ [])
        (send_version rig dir (c.pub_n + 1)) (lidb_exec-Says dir _ (version_params (c.pub_n + 1)))
        (record c { pub_n = c.pub_n + 1 })
  lidb_fn-Follows dir registry_read_by_name =
      on_world-Follows log _ _ (lidb_exec-Says dir _ (codes "bench-pkg" ∷ []))
  lidb_fn-Follows dir registry_read_latest =
      on_world-Follows log _ _ (lidb_exec-Says dir _ (codes "bench-pkg" ∷ []))

  pub pg_fn-Follows : (sid : Scenario) → Follows log (pg_script sid) (pg_fn rig sid)
  unfolding pg_fn pg_publish
  pg_fn-Follows registry_publish = λ c.
      on_world-Follows log (pg_version (c.pg_pub_n + 1)) (pg_send_version rig (c.pg_pub_n + 1))
        (pg-Says _ commit) (record c { pg_pub_n = c.pg_pub_n + 1 })
  pg_fn-Follows registry_read_by_name = on_world-Follows log _ _ (pg-Says _ fetchone)
  pg_fn-Follows registry_read_latest = on_world-Follows log _ _ (pg-Says _ fetchone)
