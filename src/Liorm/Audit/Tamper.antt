-- ===== src/Liorm/Audit/Tamper.antt =====
-- What the last hash of a verified audit log says of its entries.
use lidb.Base.{
  ℕ, ◌+◌, ◌≡◌, ◌≢◌, ◌⊎◌, inl, inr, refl, sym, ◌∙◌, true, [], ◌∷◌, length, arith, All, Bool-cases,
  map,
}
use lidb.Str.{Text, ◌==◌, ==_iff}
use lidb.Json.Escape.{is_written}
use lidb.Liorm.Audit.{AuditEntry, Entries, body_text, genesis, last_hash, hash_of, verify_chain}
use lidb.Liorm.Audit.Chain.{Fits, IsChainFrom, verify_from_iff}
use lidb.Liorm.Audit.Bodies.{IsWritten, IsBare, body_text-prev_hash}

-- The JSON text of what an entry records: its number, event, payload, time and the hash before it.
abbrev pub recorded_text : AuditEntry → Text
recorded_text e = body_text e.seq e.event e.payload e.recorded_at e.prev_hash

-- The time of an entry is written without a quote, as a float is.
abbrev pub IsTimed : AuditEntry → Type 0
IsTimed e = IsBare e.recorded_at

-- Two logs have, at one place, entries with different texts whose hash is the same.
pub data Collision (sha256_hex : Text → Text) : Entries → Entries → Type 0 where
  here :
      (d e : AuditEntry) (ds es : Entries)
      → recorded_text d ≢ recorded_text e
      → sha256_hex (recorded_text d) ≡ sha256_hex (recorded_text e)
      → Collision sha256_hex (d ∷ ds) (e ∷ es)
  later :
      (d e : AuditEntry) (ds es : Entries)
      → Collision sha256_hex ds es
      → Collision sha256_hex (d ∷ ds) (e ∷ es)

module _ (sha256_hex : Text → Text) (hex : (s : Text) → IsWritten (sha256_hex s)) where
  entry_hash-IsWritten :
      {idx : ℕ} {prev : Text} (e : AuditEntry) → Fits sha256_hex idx prev e → IsWritten e.entry_hash
  unfolding hash_of
  entry_hash-IsWritten e f = rw f.hash_is (hex (recorded_text e))

  same_hash :
      {idx : ℕ} {prev prev' : Text} (d e : AuditEntry)
      → Fits sha256_hex idx prev d
      → Fits sha256_hex idx prev' e
      → d.entry_hash ≡ e.entry_hash
      → sha256_hex (recorded_text d) ≡ sha256_hex (recorded_text e)
  unfolding hash_of
  same_hash d e f g h = sym f.hash_is ∙ h ∙ g.hash_is

  -- The last hash fixes the texts of a chain of a given length, and the hash before it.
  chains_agree :
      (idx : ℕ) (prev prev' : Text) (ds es : Entries)
      → IsWritten prev
      → IsWritten prev'
      → IsChainFrom sha256_hex idx prev ds
      → IsChainFrom sha256_hex idx prev' es
      → All IsTimed ds
      → All IsTimed es
      → length ds ≡ length es
      → last_hash prev ds ≡ last_hash prev' es
      → Collision sha256_hex ds es
        ⊎ ((prev ≡ prev') × (map recorded_text ds ≡ map recorded_text es))
  unfolding last_hash
  chains_agree idx prev prev' [] [] w w' c c' t t' l h = inr (h, refl)
  chains_agree idx prev prev' [] (e ∷ es) w w' c c' t t' l h = absurd (omega arith)
  chains_agree idx prev prev' (d ∷ ds) [] w w' c c' t t' l h = absurd (omega arith)
  chains_agree idx prev prev' (d ∷ ds) (e ∷ es) w w' c c' t t' l h =
      elim (chains_agree (idx + 1) d.entry_hash e.entry_hash ds es (entry_hash-IsWritten d c.0)
        (entry_hash-IsWritten e c'.0) c.1 c'.1 t.1 t'.1 (omega arith) h) [
          | inl found ↦ inl (later d e ds es found)
          | inr (hash, rest) ↦ elim (Bool-cases (recorded_text d == recorded_text e)) [
            | inl same ↦
                let text = (==_iff (recorded_text d) (recorded_text e)).0 same in
                inr (
                  sym c.0.prev_is
                      ∙ body_text-prev_hash d e (rw c.0.prev_is w) (rw c'.0.prev_is w') t.0 t'.0
                          text
                      ∙ c'.0.prev_is,
                  cc (text, rest),
                )
            | inr other ↦ inl (
                here d e ds es
                  (λ text. cc ((==_iff (recorded_text d) (recorded_text e)).1 text, other))
                  (same_hash d e c.0 c'.0 hash))
          ]
        ]

  -- Let the hash be written in digits and letters, as hexdigest is, or in any characters that JSON writes
  -- as they are, and let two logs of one length, whose times are written without a quote, be accepted
  -- by verify_chain and end in the same hash. Then all their entries record the same JSON texts, one by
  -- one, or at some place the two logs have two different texts with one hash.
  pub tamper_evident :
      (ds es : Entries)
      → verify_chain sha256_hex ds ≡ true
      → verify_chain sha256_hex es ≡ true
      → All IsTimed ds
      → All IsTimed es
      → length ds ≡ length es
      → last_hash genesis ds ≡ last_hash genesis es
      → Collision sha256_hex ds es ⊎ (map recorded_text ds ≡ map recorded_text es)
  unfolding verify_chain
  tamper_evident ds es v w t t' l h =
      elim (chains_agree 0 genesis genesis ds es genesis-IsWritten genesis-IsWritten
        ((verify_from_iff sha256_hex 0 genesis ds).0 v)
        ((verify_from_iff sha256_hex 0 genesis es).0 w) t t' l h) [
          | inl found ↦ inl found
          | inr same ↦ inr same.1
        ]
    where
      genesis-IsWritten : IsWritten genesis
      genesis-IsWritten = unfold is_written in refl
