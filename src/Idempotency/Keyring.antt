-- ===== src/Idempotency/Keyring.antt =====
-- ui/backend/internal/idempotency/keyring.go: fingerprints under the current and the previous key.
-- HMAC-SHA256, SHA-256 and hex encoding are Go's, and a parameter.
pub mod Separation
pub mod Rotation
use ldapium.Prelude.{
  ℕ, ◌≤◌, ◌≡◌, refl, Bool, true, false, Option, none, some, List, [], ◌∷◌, ◌++◌, arith, ltb,
  if◌then◌else◌, length, take,
}
use ldapium.Prelude.Bytes.{Bytes, codes}
use ldapium.Prelude.Eq.{◌==◌, bytes_eq}

-- `hmac key msg` is HMAC-SHA256, `sha256` the digest, `hex` its lower-case rendering.
pub record Digest : Type 0 where
  pub hmac : Bytes → Bytes → Bytes
  pub sha256 : Bytes → Bytes
  pub hex : Bytes → Bytes

-- The parts with a zero byte between two of them: the loops of `mac` and `hashHex`.
unfoldable pub joined : List Bytes → Bytes
joined [] = []
joined (p ∷ []) = p
joined (p ∷ q ∷ rest) = p ++ 0 ∷ joined (q ∷ rest)

abbrev pub key_label : Bytes
key_label = codes "ldapium/idempotency/v1"

abbrev pub min_master_len : ℕ
min_master_len = 32

pub record FpKey : Type 0 where
  pub id : Bytes
  pub key : Bytes

pub record Keyring : Type 0 where
  pub current : FpKey
  pub previous : Option FpKey

pub data Verdict : Type 0 where
  verdict_same verdict_different verdict_unknown_key : Verdict

module _ (d : Digest) where
  abbrev pub hash_hex : List Bytes → Bytes
  hash_hex parts = d.hex (d.sha256 (joined parts))

  -- KeyHash(subject, key)
  abbrev pub key_hash : Bytes → Bytes → Bytes
  key_hash subject key = hash_hex (subject ∷ key ∷ [])

  unfoldable pub derive_key : Bytes → Option FpKey
  derive_key master =
      let k = d.hmac master key_label in
      if ltb (length master) min_master_len
      then none
      else some (record { id = take 8 (d.hex (d.sha256 k)); key = k })

  with_previous : FpKey → Option FpKey → Option Keyring
  with_previous cur none = none
  with_previous cur (some prev) = some (record { current = cur; previous = some prev })

  with_current : Option FpKey → Bytes → Option Keyring
  unfolding with_previous
  with_current none previous = none
  with_current (some cur) [] = some (record { current = cur; previous = none })
  with_current (some cur) (c ∷ previous) = with_previous cur (derive_key (c ∷ previous))

  -- `none` is the error of a master secret that is too short.
  unfoldable pub new_keyring : Bytes → Bytes → Option Keyring
  unfolding with_current
  new_keyring current previous = with_current (derive_key current) previous

  -- `RandomKeyring`, for what the source of random bytes gave (`none` is its error).
  unfoldable pub random_keyring : Option Bytes → Option Keyring
  unfolding new_keyring
  random_keyring random = elim random [ none ↦ none | some b ↦ new_keyring (d.hex b) [] ]

  abbrev pub mac : Bytes → List Bytes → Bytes
  mac key parts = d.hmac key (joined parts)

  unfoldable pub fingerprint : Keyring → List Bytes → Bytes × Bytes
  fingerprint r parts = (mac r.current.key parts, r.current.id)

  -- The `switch` of `Verify`.
  unfoldable pub select_key : Keyring → Bytes → Option FpKey
  select_key r key_id =
      if key_id == r.current.id
      then some r.current
      else elim r.previous [ none ↦ none | some p ↦ if key_id == p.id then some p else none ]

  unfoldable pub verify : Keyring → Bytes → Bytes → List Bytes → Verdict
  unfolding select_key
  verify r key_id stored parts = elim (select_key r key_id) [
    | none ↦ verdict_unknown_key
    | some k ↦ if stored == mac k.key parts then verdict_same else verdict_different
  ]
