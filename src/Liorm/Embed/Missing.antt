-- ===== src/Liorm/Embed/Missing.antt =====
-- The bridge on a system with neither the program lidb_embed nor cmake.
use lidb.Base.{◌≡◌, refl, true, false, List, Option, none, err, Bool-cases, inl, inr}
use lidb.Str.{Text}
use lidb.Errors.{runtime_error}
use lidb.Json.{Json}
use lidb.Liorm.Execute.{run_engine}
use lidb.Liorm.Embed.Binary.{Host, run_embed, embed_binary, build_embed}
use lidb.Liorm.Embed.Session.{
  Bridge, embedded_engine, engine_ready, ensure_session, has_failed, start, open_or_start,
  open_and_migrate,
}

module _ {W : Type 0} (host : Host W) (no_program : (w : W) → embed_binary host w ≡ none)
    (no_cmake : host.has_cmake ≡ false) where
  run_embed_fails :
      (args : List Text) (stdin : Option Text) (w : W)
      → (run_embed host args stdin w).0.succeeded ≡ false
  unfolding run_embed build_embed
  run_embed_fails args stdin w = rw (no_program w, no_cmake) refl

  open_and_migrate_fails : (dir : Text) (w : W) → (open_and_migrate host dir w).0 ≡ false
  unfolding open_and_migrate
  open_and_migrate_fails dir w = rw (run_embed_fails _ _ w) refl

  start_fails :
      (st : Bridge W) → (start host st).0 ≡ none × has_failed (start host st).1.ready ≡ true
  unfolding start
  start_fails st = rw (open_and_migrate_fails _ _) (refl, refl)

  open_or_start_fails :
      (session : Option Text) (st : Bridge W)
      → session ≡ none
      → (open_or_start host session st).0 ≡ none
        × has_failed (open_or_start host session st).1.ready ≡ true
  unfolding open_or_start
  open_or_start_fails session st h = rw h (start_fails st)

  ensure_session_fails :
      (st : Bridge W)
      → st.session ≡ none
      → (ensure_session host st).0 ≡ none × has_failed (ensure_session host st).1.ready ≡ true
  unfolding ensure_session
  ensure_session_fails st h = elim (Bool-cases (has_failed st.ready)) [
    | inl bad ↦ rw bad (refl, bad)
    | inr good ↦ rw good (open_or_start_fails _ st h)
  ]

  -- Where there is neither lidb_embed nor cmake, and no session from before, a statement of
  -- liorm/execute.py ends in the RuntimeError, and the failure is kept.
  pub run_engine-missing :
      (sql : Text) (bound : List Json) (st : Bridge W)
      → st.session ≡ none
      → (run_engine (embedded_engine host) sql bound st).0 ≡ err runtime_error
        × has_failed (run_engine (embedded_engine host) sql bound st).1.ready ≡ true
  unfolding run_engine engine_ready
  run_engine-missing sql bound st h =
      let (gone, kept) = ensure_session_fails st h in rw gone (refl, kept)
