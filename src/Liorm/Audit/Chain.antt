-- ===== src/Liorm/Audit/Chain.antt =====
-- The chain of the audit log: what append keeps, and what verify_chain decides.
use lidb.Base.{ℕ, ◌+◌, ◌≡◌, ◌↔◌, refl, true, [], ◌∷◌, ◌++◌, Outcome, ok, length, arith, bind-eq-ok}
use lidb.Str.{Text, codes, ==_iff}
use lidb.Dict.{Dict, lookup}
use lidb.Errors.{Error}
use lidb.Json.{Json}
use lidb.Liorm.Audit.{
  AuditEntry, Entries, genesis, without, last_hash, hash_of, new_entry, append, verify_from,
  verify_chain, recorded_time,
}

module _ (sha256_hex : Text → Text) where
  -- One entry fits behind the index `idx` and the hash `prev`.
  pub record Fits (idx : ℕ) (prev : Text) (e : AuditEntry) : Type 0 where
    pub seq_is : e.seq ≡ idx
    pub prev_is : e.prev_hash ≡ prev
    pub hash_is :
        e.entry_hash ≡ hash_of sha256_hex e.seq e.event e.payload e.recorded_at e.prev_hash

  pub verify_from-cons :
      (idx : ℕ) (prev : Text) (e : AuditEntry) (es : Entries)
      → (verify_from sha256_hex idx prev (e ∷ es) ≡ true)
        ↔ (Fits idx prev e × (verify_from sha256_hex (idx + 1) e.entry_hash es ≡ true))
  unfolding verify_from
  verify_from-cons idx prev e es = ground (
    arith,
    ==_iff e.prev_hash prev,
    ==_iff e.entry_hash (hash_of sha256_hex e.seq e.event e.payload e.recorded_at e.prev_hash),
  )

  -- A chain from the index `idx` and the hash `prev` on.
  abbrev pub IsChainFrom : ℕ → Text → Entries → Type 0
  IsChainFrom idx prev [] = Unit
  IsChainFrom idx prev (e ∷ es) = Fits idx prev e × IsChainFrom (idx + 1) e.entry_hash es

  pub verify_from_iff :
      (idx : ℕ) (prev : Text) (es : Entries)
      → (verify_from sha256_hex idx prev es ≡ true) ↔ IsChainFrom idx prev es
  verify_from_iff idx prev [] = unfold verify_from in (λ _. tt, λ _. refl)
  verify_from_iff idx prev (e ∷ es) =
      let ih = verify_from_iff (idx + 1) e.entry_hash es in
      let step = verify_from-cons idx prev e es in
      (λ h. let p = step.0 h in (p.0, ih.0 p.1), λ c. step.1 (c.0, ih.1 c.1))

  pub IsChainFrom-snoc :
      (idx : ℕ) (prev : Text) (es : Entries) (e : AuditEntry)
      → IsChainFrom idx prev es
      → Fits (idx + length es) (last_hash prev es) e
      → IsChainFrom idx prev (es ++ e ∷ [])
  unfolding last_hash
  IsChainFrom-snoc idx prev [] e c f =
      (record { seq_is = omega (arith, f.seq_is); prev_is = f.prev_is; hash_is = f.hash_is }, tt)
  IsChainFrom-snoc idx prev (x ∷ xs) e c f = (
    c.0,
    IsChainFrom-snoc (idx + 1) x.entry_hash xs e c.1
        (record { seq_is = omega (arith, f.seq_is); prev_is = f.prev_is; hash_is = f.hash_is }),
  )

  -- The entry that `append` makes fits behind its log.
  pub new_entry-Fits :
      (es : Entries) (event : Text) (payload : Dict Json) (t : Text)
      → Fits (0 + length es) (last_hash genesis es) (new_entry sha256_hex es event payload t)
  unfolding new_entry
  new_entry-Fits es event payload t = record {
    seq_is = omega arith;
    prev_is = refl;
    hash_is = refl;
  }

  -- What append returns: the log before it, and behind it one entry that fits.
  pub append-eq-ok :
      (to_float : Json → Outcome Error Text) (now : Text) (es : Entries) (event : Text)
      (payload : Dict Json) {e : AuditEntry} {es' : Entries}
      → append sha256_hex to_float now es event payload ≡ ok (e, es')
      → (t : Text) × (e ≡ new_entry sha256_hex es event (without (codes "recorded_at") payload) t)
        × (es' ≡ es ++ e ∷ [])
  unfolding append
  append-eq-ok to_float now es event payload h =
      let made = new_entry sha256_hex es event (without (codes "recorded_at") payload) in
      let (t, timed, built) =
        bind-eq-ok (recorded_time to_float now (lookup (codes "recorded_at") payload))
          (λ t. ok (made t, es ++ made t ∷ [])) h in
      (t, ground arith, ground arith)

  -- A log that verify_chain accepts is still accepted after append, whatever the event, the payload
  -- and the clock; the entries that were there stay as they were, in front.
  pub append-verify_chain :
      (to_float : Json → Outcome Error Text) (now : Text) (es : Entries) (event : Text)
      (payload : Dict Json) {e : AuditEntry} {es' : Entries}
      → append sha256_hex to_float now es event payload ≡ ok (e, es')
      → verify_chain sha256_hex es ≡ true
      → (es' ≡ es ++ e ∷ []) × (verify_chain sha256_hex es' ≡ true)
  unfolding verify_chain
  append-verify_chain to_float now es event payload {e} h v =
      let (t, made, grown) = append-eq-ok to_float now es event payload h in
      (
        grown,
        rw grown (
            (verify_from_iff 0 genesis (es ++ e ∷ [])).1 (
              rw made (
                IsChainFrom-snoc 0 genesis es _ ((verify_from_iff 0 genesis es).0 v)
                  (new_entry-Fits es event _ t)))),
      )
