-- ===== src/Registry/Publication.antt =====
-- What publish_package_version has done when it returns a record.
use lidb.Base.{◌≡◌, sym, [], ◌∷◌, Option, none, some, Outcome, ok}
use lidb.Str.{Text, codes}
use lidb.Dict.{Dict}
use lidb.Errors.{Error}
use lidb.Json.{Json, str}
use lidb.Action.{done, pure, ◌>>◌, bind-eq-done}
use lidb.Liorm.Execute.{Params, Plans, Rows, Engine}
use lidb.Registry.Plans.{
  RegistryPlanSpec, package_by_name, insert_package, insert_package_version, publisher_by_name,
  insert_publisher,
}
use lidb.Registry.Records.{PackageVersionRecord, Publication, key_text, id_of, or_dash}
use lidb.Registry.Service.{
  run_rows, read_back, get_package_version, fresh_id, found_or, ensure_publisher, ensure_package,
  insert_version, read_version, publish_package_version,
}
use lidb.Registry.Versions.{get_package_version-name}

-- The parameters of the three insertions.
abbrev publisher_params : Publication → Text → Params
publisher_params p id =
    (codes "id", str id)
    ∷ (codes "name", str p.publisher_name)
    ∷ (codes "public_key", str (key_text p.publisher_public_key))
    ∷ []

abbrev package_params : Publication → Text → Params
package_params p id =
    (codes "id", str id)
    ∷ (codes "name", str p.package_name)
    ∷ (codes "description", str (or_dash p.package_description))
    ∷ (codes "repository_url", str (or_dash p.repository_url))
    ∷ []

abbrev version_params : Publication → (pub_id pkg_id ver_id : Text) → Params
version_params p pub_id pkg_id ver_id =
    (codes "id", str ver_id)
    ∷ (codes "package_id", str pkg_id)
    ∷ (codes "version", str p.version)
    ∷ (codes "tree_digest", str p.tree_digest)
    ∷ (codes "proof_digest", str (or_dash p.proof_digest))
    ∷ (codes "coverage_pct", str p.coverage_pct)
    ∷ (codes "publisher_id", str pub_id)
    ∷ []

module _ (repr : Json → Text) (to_float : Json → Outcome Error Text) {S : Type 0}
    (engine : Engine S) (plans : Plans) (uuid4 : S → Text × S) where
  -- An id that was looked up by a name, or inserted when there was no row.
  pub data HasId (by_name insertion : RegistryPlanSpec) (name : Text) (params : Text → Params)
      (id : Text) (s s' : S) : Type 0 where
    found :
        (row : Dict Json) (rows : Rows)
        → run_rows engine plans by_name ((codes "name", str name) ∷ []) s ≡ (ok (row ∷ rows), s')
        → id_of repr row ≡ ok id
        → HasId by_name insertion name params id s s'
    made :
        (t u : S) (rows : Rows)
        → run_rows engine plans by_name ((codes "name", str name) ∷ []) s ≡ (ok [], t)
        → uuid4 t ≡ (id, u)
        → run_rows engine plans insertion (params id) u ≡ (ok rows, s')
        → HasId by_name insertion name params id s s'

  -- The version is inserted under the ids of its publisher and its package and a fresh id, and then
  -- read back.
  pub record IsPublished (p : Publication) (rec : PackageVersionRecord) (s s' : S) : Type 0 where
    pub pub_id : Text
    pub pkg_id : Text
    pub ver_id : Text
    pub with_publisher : S
    pub with_package : S
    pub with_id : S
    pub inserted : S
    pub publisher_id :
        HasId publisher_by_name insert_publisher p.publisher_name
          (publisher_params p)
          pub_id
          s
          with_publisher
    pub package_id :
        HasId package_by_name insert_package p.package_name
          (package_params p)
          pkg_id
          with_publisher
          with_package
    pub fresh : uuid4 with_package ≡ (ver_id, with_id)
    pub rows : Rows
    pub insertion :
        run_rows engine plans insert_package_version (version_params p pub_id pkg_id ver_id) with_id
        ≡ (ok rows, inserted)
    pub read :
        get_package_version repr to_float engine plans p.package_name p.version inserted
        ≡ (ok (some rec), s')
    pub name : rec.name ≡ p.package_name
    pub version : rec.version ≡ p.version

  fresh_id-eq :
      (x : Text × S) {id : Text} {u : S}
      → (◌≡◌ {A = Outcome Error Text × S} (ok x.0, x.1) (ok id, u))
      → x ≡ (id, u)
  fresh_id-eq (_, _) h = cc

  -- The id behind the lookup of a name.
  found_or-HasId :
      (by_name insertion : RegistryPlanSpec) (name : Text) (params : Text → Params)
      (existing : Rows) (s t : S) {id : Text} {s' : S}
      → run_rows engine plans by_name ((codes "name", str name) ∷ []) s ≡ (ok existing, t)
      → found_or repr to_float engine plans uuid4
          (λ id. run_rows engine plans insertion (params id))
          existing
          t
        ≡ (ok id, s')
      → HasId by_name insertion name params id s s'
  unfolding found_or
  found_or-HasId by_name insertion name params (row ∷ rows) s t {id} {s'} looked h =
      let there : t ≡ s' = cc (h) in rw (sym there) (found row rows looked (cc h))
  found_or-HasId by_name insertion name params [] s t {id} {s'} looked h =
      let (new_id, u, drawn, rest) =
        bind-eq-done (fresh_id repr to_float engine plans uuid4)
          (λ id. run_rows engine plans insertion (params id) >> done id) t h in
      let (rows, v, ran, last) =
        bind-eq-done (run_rows engine plans insertion (params new_id)) (λ _. done new_id) u rest in
      let same_id : new_id ≡ id = cc (last) in
      let there : v ≡ s' = cc (last) in
      rw (sym same_id, sym there) (made t u rows looked (fresh_id-eq (uuid4 t) drawn) ran)

  ensure_publisher-HasId :
      (p : Publication) (s : S) {id : Text} {s' : S}
      → ensure_publisher repr to_float engine plans uuid4 p.publisher_name p.publisher_public_key s
        ≡ (ok id, s')
      → HasId publisher_by_name insert_publisher p.publisher_name (publisher_params p) id s s'
  unfolding ensure_publisher
  ensure_publisher-HasId p s h =
      let (existing, t, looked, rest) =
        bind-eq-done
          (run_rows engine plans publisher_by_name ((codes "name", str p.publisher_name) ∷ []))
          (found_or repr to_float engine plans uuid4
            (λ id. run_rows engine plans insert_publisher (publisher_params p id)))
          s h in
      found_or-HasId publisher_by_name insert_publisher p.publisher_name (publisher_params p)
        existing s t looked rest

  ensure_package-HasId :
      (p : Publication) (s : S) {id : Text} {s' : S}
      → ensure_package repr to_float engine plans uuid4 p.package_name p.package_description
          p.repository_url s
        ≡ (ok id, s')
      → HasId package_by_name insert_package p.package_name (package_params p) id s s'
  unfolding ensure_package
  ensure_package-HasId p s h =
      let (existing, t, looked, rest) =
        bind-eq-done
          (run_rows engine plans package_by_name ((codes "name", str p.package_name) ∷ []))
          (found_or repr to_float engine plans uuid4
            (λ id. run_rows engine plans insert_package (package_params p id)))
          s h in
      found_or-HasId package_by_name insert_package p.package_name (package_params p) existing s t
        looked rest

  read_back-eq :
      (o : Option PackageVersionRecord) {rec : PackageVersionRecord}
      → read_back o ≡ ok rec
      → o ≡ some rec
  read_back-eq none h = cc
  read_back-eq (some r) h = cc

  -- What read_version has looked up.
  read_version-eq-ok :
      (p : Publication) (s : S) {rec : PackageVersionRecord} {s' : S}
      → read_version repr to_float engine plans uuid4 p s ≡ (ok rec, s')
      → get_package_version repr to_float engine plans p.package_name p.version s
        ≡ (ok (some rec), s')
  unfolding read_version
  read_version-eq-ok p s {rec} h =
      let (o, t, got, last) =
        bind-eq-done (get_package_version repr to_float engine plans p.package_name p.version)
          (λ o. pure (read_back o)) s h in
      let o_is : o ≡ some rec = read_back-eq o (cc last) in cc (got, o_is, last)

  -- A publication that returns a record has looked up or inserted its publisher and its package, has
  -- inserted the version under their ids and a fresh one, with the digests and the coverage that were
  -- given, and has then read the record back from the engine; it has the name and the version of the
  -- publication.
  pub publish_package_version-IsPublished :
      (p : Publication) (s : S) {rec : PackageVersionRecord} {s' : S}
      → publish_package_version repr to_float engine plans uuid4 p s ≡ (ok rec, s')
      → IsPublished p rec s s'
  unfolding publish_package_version insert_version
  publish_package_version-IsPublished p s {rec} {s'} h =
      let (pub_id, s1, ensured, rest) =
        bind-eq-done
          (ensure_publisher repr to_float engine plans uuid4 p.publisher_name
            p.publisher_public_key)
          _ s h in
      let (pkg_id, s2, packaged, rest2) =
        bind-eq-done
          (ensure_package repr to_float engine plans uuid4 p.package_name p.package_description
            p.repository_url)
          _ s1 rest in
      let (ver_id, s3, drawn, rest3) =
        bind-eq-done (fresh_id repr to_float engine plans uuid4)
          (λ ver_id.
            insert_version repr to_float engine plans uuid4 p pub_id pkg_id ver_id
            >> read_version repr to_float engine plans uuid4 p)
          s2 rest2 in
      let (rows, s4, ran, rest4) =
        bind-eq-done (insert_version repr to_float engine plans uuid4 p pub_id pkg_id ver_id)
          (λ _. read_version repr to_float engine plans uuid4 p) s3 rest3 in
      let got = read_version-eq-ok p s4 rest4 in
      let named =
        get_package_version-name repr to_float engine plans p.package_name p.version s4 got in
      record {
        pub_id = pub_id;
        pkg_id = pkg_id;
        ver_id = ver_id;
        with_publisher = s1;
        with_package = s2;
        with_id = s3;
        inserted = s4;
        publisher_id = ensure_publisher-HasId p s ensured;
        package_id = ensure_package-HasId p s1 packaged;
        fresh = fresh_id-eq (uuid4 s2) drawn;
        rows = rows;
        insertion = ran;
        read = got;
        name = named.0;
        version = named.1;
      }
