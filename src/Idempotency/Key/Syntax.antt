-- ===== src/Idempotency/Key/Syntax.antt =====
-- Which header values are keys (ui/backend/internal/idempotency/key.go).
use ldapium.Prelude.{
  ==_iff, ◌↔◌, ◌≤◌, ◌≡◌, refl, ◌⊎◌, inl, inr, true, false, some, List, [], ◌∷◌, arith, length, all,
  Bool-cases,
}
use ldapium.Prelude.Bytes.{
  Bytes, is_quoted, inner, quote, quote-inner, inner-quote, is_quoted-quote,
}
use ldapium.Idempotency.Key.{allowed_key_rune, check_token, parse_key, key_min_len, key_max_len}

-- The documented syntax: 16 to 128 characters, each of them allowed.
pub record IsKey (k : Bytes) : Type 0 where
  pub long_enough : key_min_len ≤ length k
  pub short_enough : length k ≤ key_max_len
  pub allowed : all allowed_key_rune k ≡ true

check_token-IsKey : (v k : Bytes) → check_token v ≡ some k → (v ≡ k) × IsKey k
unfolding check_token
check_token-IsKey v k h = ground arith

IsKey-check_token : (k : Bytes) → IsKey k → check_token k ≡ some k
unfolding check_token
IsKey-check_token k h = ground arith

-- Spells v k: the header value v is the key k itself or k between double quotes.
abbrev pub Spells : Bytes → Bytes → Type 0
Spells v k = (v ≡ k) ⊎ (v ≡ quote k)

-- A header is accepted with key k only if it is one value that spells k, and k is a key.
parse_key_sound :
    (values : List Bytes) (k : Bytes)
    → parse_key values ≡ some k
    → (v : Bytes) × (values ≡ v ∷ []) × Spells v k × IsKey k
unfolding parse_key
parse_key_sound [] k h = cc
parse_key_sound (v ∷ w ∷ rest) k h = cc
parse_key_sound (v ∷ []) k h = elim (Bool-cases (is_quoted v)) [
  | inl q ↦
      let (e, good) = check_token-IsKey (inner v) k (rw q at h) in
      (v, refl, inr (rw (← e) (quote-inner v q)), good)
  | inr q ↦ let (e, good) = check_token-IsKey v k (rw q at h) in (v, refl, inl e, good)
]

quote_not_allowed : allowed_key_rune b'"' ≡ false
unfolding allowed_key_rune
quote_not_allowed = refl

-- A key holds no quote, so it is never taken for a quoted string.
IsKey-unquoted : (k : Bytes) → IsKey k → is_quoted k ≡ false
unfolding is_quoted all
IsKey-unquoted [] h = refl
IsKey-unquoted (c ∷ k) h = ground (arith, quote_not_allowed, (==_iff c b'"').0, h)

-- Both spellings of a key are accepted, and give the key.
parse_key_complete : (v k : Bytes) → Spells v k → IsKey k → parse_key (v ∷ []) ≡ some k
unfolding parse_key
parse_key_complete v k (inl e) h = rw (e, IsKey-unquoted k h) (IsKey-check_token k h)
parse_key_complete v k (inr e) h = rw (e, is_quoted-quote k, inner-quote k) (IsKey-check_token k h)

-- A header is accepted with key k exactly when it is one value that spells k, bare or between
-- double quotes, and k is a key: 16 to 128 of the allowed characters.
pub parse_key_iff :
    (values : List Bytes) (k : Bytes)
    → (parse_key values ≡ some k) ↔ ((v : Bytes) × (values ≡ v ∷ []) × Spells v k × IsKey k)
parse_key_iff values k = (
  parse_key_sound values k,
  (λ ((v, e, s, good) : (v : Bytes) × (values ≡ v ∷ []) × Spells v k × IsKey k).
      rw e (parse_key_complete v k s good)),
)
