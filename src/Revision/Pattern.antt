-- ===== src/Revision/Pattern.antt =====
-- What a pattern says of the bytes that it matches (ui/backend/internal/domain/revision.go).
use ldapium.Prelude.{
  ℕ, zero, suc, ◌≡◌, refl, Bool, true, ◌&&◌, not, [], ◌∷◌, ◌++◌, arith, length, all, All, replicate,
}
use ldapium.Prelude.Bytes.{Bytes, is_digit}
use ldapium.Prelude.Eq.{nat_eq, ◌==◌}
use ldapium.Revision.{
  csn_modification, csn_server, csn_count, csn_fraction, uuid_node, uuid_group, Pattern, matches,
  csn_pattern, uuid_pattern, is_upper_hex, is_lower_hex, valid_csn, valid_entry_uuid,
}

-- Not one of the bytes with a meaning in a filter: parentheses, asterisk, backslash and NUL.
abbrev pub is_plain : ℕ → Bool
is_plain c = not (c == b'(') && not (c == b')') && not (c == b'*') && not (c == 92) && not (c == 0)

abbrev pub AllPlain : Pattern → Type 0
AllPlain = All (λ (p : ℕ → Bool). (c : ℕ) → p c ≡ true → is_plain c ≡ true)

replicate-AllPlain :
    (n : ℕ) (p : ℕ → Bool) → ((c : ℕ) → p c ≡ true → is_plain c ≡ true) → AllPlain (replicate n p)
replicate-AllPlain zero p h = tt
replicate-AllPlain (suc n) p h = (h, replicate-AllPlain n p h)

append-AllPlain : (ps qs : Pattern) → AllPlain ps → AllPlain qs → AllPlain (ps ++ qs)
append-AllPlain [] qs h k = k
append-AllPlain (p ∷ ps) qs h k = (h.0, append-AllPlain ps qs h.1 k)

matches-plain :
    (ps : Pattern) (s : Bytes) → AllPlain ps → matches ps s ≡ true → all is_plain s ≡ true
unfolding matches all
matches-plain [] [] h m = refl
matches-plain [] (c ∷ s) h m = cc
matches-plain (p ∷ ps) [] h m = cc
matches-plain (p ∷ ps) (c ∷ s) h m = ground (arith, m, h.0 c, matches-plain ps s h.1)

matches-length : (ps : Pattern) (s : Bytes) → matches ps s ≡ true → length s ≡ length ps
unfolding matches
matches-length [] [] m = refl
matches-length [] (c ∷ s) m = cc
matches-length (p ∷ ps) [] m = cc
matches-length (p ∷ ps) (c ∷ s) m = ground (arith, m, matches-length ps s)

digit_plain : (c : ℕ) → is_digit c ≡ true → is_plain c ≡ true
digit_plain c h = ground (arith, h)

upper_hex_plain : (c : ℕ) → is_upper_hex c ≡ true → is_plain c ≡ true
upper_hex_plain c h = ground (arith, h)

lower_hex_plain : (c : ℕ) → is_lower_hex c ≡ true → is_plain c ≡ true
lower_hex_plain c h = ground (arith, h)

-- Of a separator of the patterns.
byte_plain : (b c : ℕ) → is_plain b ≡ true → (c == b) ≡ true → is_plain c ≡ true
byte_plain b c p h = ground (arith, p, h)

class_first :
    (n : ℕ) (p : ℕ → Bool) (ps : Pattern)
    → ((c : ℕ) → p c ≡ true → is_plain c ≡ true)
    → AllPlain ps
    → AllPlain (replicate n p ++ ps)
class_first n p ps h k = append-AllPlain (replicate n p) ps (replicate-AllPlain n p h) k

csn_server-AllPlain : AllPlain csn_server
csn_server-AllPlain = (
  (λ c. byte_plain b'#' c refl),
  class_first 3 is_upper_hex csn_modification upper_hex_plain
      ((λ c. byte_plain b'#' c refl), replicate-AllPlain 6 is_upper_hex upper_hex_plain),
)

csn_pattern-AllPlain : AllPlain csn_pattern
csn_pattern-AllPlain = class_first 14 is_digit csn_fraction digit_plain (
  (λ c. byte_plain b'.' c refl),
  class_first 6 is_digit csn_count digit_plain (
    (λ c. byte_plain b'Z' c refl),
    (
      (λ c. byte_plain b'#' c refl),
      class_first 6 is_upper_hex csn_server upper_hex_plain csn_server-AllPlain,
    ),
  ),
)

uuid_group-AllPlain : (ps : Pattern) → AllPlain ps → AllPlain (uuid_group ps)
uuid_group-AllPlain ps h =
    ((λ c. byte_plain b'-' c refl), class_first 4 is_lower_hex ps lower_hex_plain h)

uuid_pattern-AllPlain : AllPlain uuid_pattern
uuid_pattern-AllPlain =
    class_first 8 is_lower_hex (uuid_group (uuid_group (uuid_group uuid_node))) lower_hex_plain (
      uuid_group-AllPlain (uuid_group (uuid_group uuid_node)) (
        uuid_group-AllPlain (uuid_group uuid_node) (
          uuid_group-AllPlain uuid_node
            ((λ c. byte_plain b'-' c refl), replicate-AllPlain 12 is_lower_hex lower_hex_plain))))

pub valid_entry_uuid-plain : (s : Bytes) → valid_entry_uuid s ≡ true → all is_plain s ≡ true
unfolding valid_entry_uuid
valid_entry_uuid-plain s h = matches-plain uuid_pattern s uuid_pattern-AllPlain h

pub valid_csn-plain : (s : Bytes) → valid_csn s ≡ true → all is_plain s ≡ true
unfolding valid_csn
valid_csn-plain s h = matches-plain csn_pattern s csn_pattern-AllPlain h

pub valid_csn-length : (s : Bytes) → valid_csn s ≡ true → length s ≡ 40
unfolding valid_csn
valid_csn-length s h = matches-length csn_pattern s h
