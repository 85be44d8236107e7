-- ===== src/Idempotency/Keyring/Rotation.antt =====
-- Fingerprints across a rotation of the keys (ui/backend/internal/idempotency/keyring.go).
use ldapium.Prelude.{
  ◌*◌, ◌≡◌, ◌≢◌, none, some, List, [], ◌∷◌, arith, length, Option-cases, inl, inr,
}
use ldapium.Prelude.Bytes.{Bytes}
use ldapium.Prelude.Eq.{bytes_eq, beq_refl, bytes_beq_iff}
use ldapium.Idempotency.Keyring.{
  Digest, Keyring, FpKey, derive_key, mac, new_keyring, random_keyring, fingerprint, verify,
  verdict_same, with_current, with_previous,
}

module _ (d : Digest) where
  -- A ring made from one secret holds that secret's key alone.
  new_keyring_single :
      (old : Bytes) (r : Keyring)
      → new_keyring d old [] ≡ some r
      → (derive_key d old ≡ some r.current) × (r.previous ≡ none)
  unfolding new_keyring
  new_keyring_single old r h = ground (arith)

  derive_key_nonempty : (k : FpKey) → derive_key d [] ≢ some k
  unfolding derive_key
  derive_key_nonempty k h = cc

  new_keyring_pair :
      (new old : Bytes) (k : FpKey) (r : Keyring)
      → derive_key d old ≡ some k
      → new_keyring d new old ≡ some r
      → r.previous ≡ some k
  unfolding new_keyring with_current with_previous
  new_keyring_pair new [] k r hk h = absurd (derive_key_nonempty k hk)
  new_keyring_pair new (c ∷ old) k r hk h = ground (arith)

  -- A fingerprint made before a rotation from secret `old` to `new` is verified after it, as the
  -- same request, whenever the two keys have different identifiers.
  pub rotation_keeps :
      (old new : Bytes) (r r' : Keyring)
      → new_keyring d old [] ≡ some r
      → new_keyring d new old ≡ some r'
      → r'.current.id ≢ r.current.id
      → (parts : List Bytes)
      → let (fp, key_id) = fingerprint d r parts in verify d r' key_id fp parts ≡ verdict_same
  unfolding fingerprint verify
  rotation_keeps old new r r' h h' ne parts =
      let prev = new_keyring_pair new old r.current r' (new_keyring_single old r h).0 h' in
      ground (
        arith,
        bytes_beq_iff r.current.id r'.current.id,
        bytes_beq_iff r.current.id r.current.id,
        beq_refl (mac d r.current.key parts),
        prev,
      )

  -- With 32 random bytes, which the rendering doubles, a ring without a persisted key is always
  -- made, and it has no previous key.
  random_keyring_lem :
      (b : Bytes)
      → length b ≡ 32
      → length (d.hex b) ≡ 2 * length b
      → (r : Keyring) × (random_keyring d (some b) ≡ some r) × (r.previous ≡ none)
  unfolding random_keyring new_keyring with_current derive_key
  random_keyring_lem b long doubled = elim (Option-cases (random_keyring d (some b))) [
    | inl e ↦ ground (arith, e, long, doubled)
    | inr (r, e) ↦ (r, e, ground (arith, e, long, doubled))
  ]
