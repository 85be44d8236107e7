-- ===== src/Idempotency/Keyring/Separation.antt =====
-- Record keys of two (subject, key) pairs differ (ui/backend/internal/idempotency, KeyHash).
use ldapium.Prelude.{◌≡◌, refl, Bool, true, false, [], ◌∷◌, ◌++◌, arith, all, ==_iff, ◌==◌, ap, not}
use ldapium.Prelude.Bytes.{Bytes}
use ldapium.Idempotency.Key.{allowed_key_rune}
use ldapium.Idempotency.Key.Syntax.{IsKey}
use ldapium.Idempotency.Keyring.{Digest, joined, key_hash}

abbrev pub no_zero : Bytes → Bool
no_zero = all (λ c. not (c == 0))

zero_not_allowed : allowed_key_rune 0 ≡ false
unfolding allowed_key_rune
zero_not_allowed = refl

pub allowed-no_zero : (k : Bytes) → all allowed_key_rune k ≡ true → no_zero k ≡ true
unfolding all
allowed-no_zero [] h = refl
allowed-no_zero (c ∷ k) h = ground (arith, zero_not_allowed, (==_iff c 0).0, allowed-no_zero k)

zero_inside : (t j : Bytes) → no_zero (t ++ 0 ∷ j) ≡ false
unfolding all
zero_inside [] j = refl
zero_inside (x ∷ t) j = ground (arith, zero_inside t j)

-- The last zero byte splits the text in one way.
pub joined_split :
    (s t k j : Bytes)
    → no_zero k ≡ true
    → no_zero j ≡ true
    → s ++ 0 ∷ k ≡ t ++ 0 ∷ j
    → (s ≡ t) × (k ≡ j)
unfolding all
joined_split [] [] k j hk hj e = (refl, (cc))
joined_split [] (y ∷ t) k j hk hj e =
    let clash : k ≡ t ++ 0 ∷ j = (cc) in cc (ap no_zero clash, zero_inside t j)
joined_split (x ∷ s) [] k j hk hj e =
    let clash : j ≡ s ++ 0 ∷ k = (cc) in cc (ap no_zero clash, zero_inside s k)
joined_split (x ∷ s) (y ∷ t) k j hk hj e =
    let (p, q) = joined_split s t k j hk hj (cc) in ((cc p), q)

-- Hypothesis `distinct`: the digest is free of collisions. Then two pairs of a subject and a key in
-- the documented syntax with one record key are the same pair, whatever bytes the subjects hold.
pub key_hash_separates :
    (d : Digest)
    → ((a b : Bytes) → d.hex (d.sha256 a) ≡ d.hex (d.sha256 b) → a ≡ b)
    → (s t k j : Bytes) → IsKey k
    → IsKey j
    → key_hash d s k ≡ key_hash d t j
    → (s ≡ t) × (k ≡ j)
unfolding joined
key_hash_separates d distinct s t k j hk hj e =
    joined_split s t k j (allowed-no_zero k hk.allowed) (allowed-no_zero j hj.allowed)
      (distinct (joined (s ∷ k ∷ [])) (joined (t ∷ j ∷ [])) e)
