-- ===== src/Liorm/Embed/Sessions.antt =====
-- How the session lives: it is opened once and kept, a failed start is kept too, and the two functions
-- that liorm/execute.py calls one after the other use one session.
use lidb.Base.{◌≡◌, refl, true, false, List, Option, none, some, Bool-cases, inl, inr}
use lidb.Str.{Text}
use lidb.Json.{Json}
use lidb.Liorm.Execute.{run_engine}
use lidb.Liorm.Embed.Binary.{Host}
use lidb.Liorm.Embed.Session.{
  Bridge, ensure_session, engine_ready, execute_sql, exec_with, embedded_engine, has_failed, start,
  open_or_start, default_data_dir, open_and_migrate,
}

-- What ensure_session leaves: no session and a failed start, or the session that it returns.
pub data Settled {W : Type 0} : Option Text → Bridge W → Type 0 where
  failed : (st : Bridge W) → has_failed st.ready ≡ true → Settled none st
  opened :
      (dir : Text) (st : Bridge W)
      → has_failed st.ready ≡ false
      → st.session ≡ some dir
      → Settled (some dir) st

module _ {W : Type 0} (host : Host W) where
  start-Settled : (st : Bridge W) → Settled (start host st).0 (start host st).1
  unfolding start
  start-Settled st =
      let (dir, st1) = default_data_dir host st in
      elim (Bool-cases (open_and_migrate host dir st1.world).0) [
        | inl good ↦ rw good (opened _ _ refl refl)
        | inr bad ↦ rw bad (failed _ refl)
      ]

  open_or_start-Settled :
      (st : Bridge W) (session : Option Text)
      → st.session ≡ session
      → has_failed st.ready ≡ false
      → Settled (open_or_start host session st).0 (open_or_start host session st).1
  unfolding open_or_start
  open_or_start-Settled st none h ready = start-Settled st
  open_or_start-Settled st (some dir) h ready = opened dir st ready h

  ensure_session-Settled :
      (st : Bridge W) → Settled (ensure_session host st).0 (ensure_session host st).1
  unfolding ensure_session
  ensure_session-Settled st = elim (Bool-cases (has_failed st.ready)) [
    | inl bad ↦ rw bad (failed st bad)
    | inr good ↦ rw good (open_or_start-Settled st st.session refl good)
  ]

  Settled-ensure_session :
      (session : Option Text) (st : Bridge W)
      → Settled session st
      → ensure_session host st ≡ (session, st)
  unfolding ensure_session open_or_start
  Settled-ensure_session session st (failed _ bad) = rw bad refl
  Settled-ensure_session session st (opened dir _ good there) = rw (good, there) refl

  -- Asking for the session again gives the same session, or again none, and leaves the globals and the
  -- system as they are: lidb_embed is opened and migrated once, and not tried again after a failure.
  pub ensure_session_again :
      (st : Bridge W)
      → ensure_session host (ensure_session host st).1
        ≡ ((ensure_session host st).0, (ensure_session host st).1)
  ensure_session_again st = Settled-ensure_session _ _ (ensure_session-Settled st)

  run_with :
      (sql : Text) (bound : List Json) (session : Option Text) (st st' : Bridge W)
      → ensure_session host st ≡ (session, st')
      → ensure_session host st' ≡ (session, st')
      → run_engine (embedded_engine host) sql bound st ≡ exec_with host sql bound session st'
  unfolding run_engine engine_ready execute_sql
  run_with sql bound none st st' h k = rw h refl
  run_with sql bound (some dir) st st' h k = rw (h, k) refl

  -- On the embedded engine, _run_engine of liorm/execute.py is one call of ensure_session, and then the
  -- RuntimeError where there is no session or the one call of lidb_embed in that session: the session
  -- that the check has found is the one that the statement runs in.
  pub run_engine-ensure_session :
      (sql : Text) (bound : List Json) (st : Bridge W)
      → run_engine (embedded_engine host) sql bound st
        ≡ exec_with host sql bound (ensure_session host st).0 (ensure_session host st).1
  run_engine-ensure_session sql bound st =
      run_with sql bound (ensure_session host st).0 st (ensure_session host st).1 refl
        (ensure_session_again st)
