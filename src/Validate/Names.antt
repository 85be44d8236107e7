-- ===== src/Validate/Names.antt =====
-- What an accepted name can hold (ui/backend/internal/validate/validate.go).
use ldapium.Prelude.{
  ℕ, ◌≤◌, ◌≡◌, refl, Bool, true, Bool-cases, inl, inr, ◌&&◌, not, [], ◌∷◌, arith, leb, length, all,
}
use ldapium.Prelude.Bytes.{Bytes}
use ldapium.Prelude.Eq.{bytes_eq, nat_eq, ◌==◌}
use ldapium.Validate.{fine, is_uid_byte, is_alphanumeric, uid_pattern, check_uid}

-- A byte with no meaning in a DN or in a filter.
unfoldable pub is_inert : ℕ → Bool
is_inert c =
    not (c == b',')
    && not (c == b'+')
    && not (c == b'=')
    && not (c == b'<')
    && not (c == b'>')
    && not (c == b';')
    && not (c == b'#')
    && not (c == b'(')
    && not (c == b')')
    && not (c == b'*')
    && not (c == 92)
    && not (c == 34)
    && not (c == 32)
    && not (c == 0)

inert_byte : (c : ℕ) → is_uid_byte c ≡ true → is_inert c ≡ true
unfolding is_uid_byte is_alphanumeric is_inert
inert_byte c h = ground (arith, h)

uid_byte : (c : ℕ) → is_alphanumeric c ≡ true → is_uid_byte c ≡ true
unfolding is_uid_byte
uid_byte c h = rw h refl

all-weaken :
    (p q : ℕ → Bool) (s : Bytes)
    → ((c : ℕ) → p c ≡ true → q c ≡ true)
    → all p s ≡ true
    → all q s ≡ true
unfolding all
all-weaken p q [] w h = refl
all-weaken p q (c ∷ s) w h = ground (arith, h, w c, all-weaken p q s w)

all-first : (p : ℕ → Bool) (c : ℕ) (s : Bytes) → p c ≡ true → all p s ≡ true → all p (c ∷ s) ≡ true
unfolding all
all-first p c s h k = rw (h, k) refl

and_parts : (a b d : Bool) → (a && (b && d)) ≡ true → (a ≡ true) × (b ≡ true) × (d ≡ true)
and_parts a b d h = ground (arith, h)

fine_only : (uid : Bytes) → check_uid uid ≡ fine → uid_pattern uid ≡ true
unfolding check_uid
fine_only uid h = elim (Bool-cases (uid_pattern uid)) [ inl e ↦ e | inr e ↦ ground (arith, h, e) ]

uid_pattern_parts :
    (c : ℕ) (s : Bytes)
    → check_uid (c ∷ s) ≡ fine
    → (is_alphanumeric c ≡ true) × (leb (length s) 63 ≡ true) × (all is_uid_byte s ≡ true)
unfolding uid_pattern
uid_pattern_parts c s h =
    and_parts (is_alphanumeric c) (leb (length s) 63) (all is_uid_byte s) (fine_only (c ∷ s) h)

-- A uid that is accepted has 1 to 64 bytes, none of which means anything in a DN or in a filter: it
-- can stand in either without escaping.
pub check_uid-inert :
    (uid : Bytes)
    → check_uid uid ≡ fine
    → (1 ≤ length uid) × (length uid ≤ 64) × (all is_inert uid ≡ true)
unfolding check_uid uid_pattern
check_uid-inert [] h = cc
check_uid-inert (c ∷ s) h =
    let parts = uid_pattern_parts c s h in
    (
      omega arith,
      ground (arith, parts.1),
      all-weaken is_uid_byte is_inert (c ∷ s) inert_byte
          (all-first is_uid_byte c s (uid_byte c parts.0) parts.2),
    )
