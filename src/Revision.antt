-- ===== src/Revision.antt =====
-- Entry revisions: ui/backend/internal/domain/revision.go (entryCSN, entryUUID and their entity
-- tags), `ifMatchCSN` and `rejectIfMatch` of ui/backend/internal/httpapi/conditional.go, and the
-- filters of ui/backend/internal/ldapclient/assertion.go. Texts are bytes.
pub mod Pattern
pub mod Tags
pub mod Filters
mod Tests
use ldapium.Prelude.{
  ℕ, zero, suc, ◌+◌, ◌-◌, Bool, true, false, ◌&&◌, ◌||◌, not, Option, none, some, List, [], ◌∷◌,
  ◌++◌, String, ltb, leb, if◌then◌else◌, length, replicate,
}
use ldapium.Prelude.Bytes.{Bytes, codes, is_digit, is_quoted, inner, quote, is_lower}
use ldapium.Prelude.Eq.{bytes_eq, nat_eq, ◌==◌}

-- A pattern of the form `^[..]{n}..$` is the list of the classes of its bytes.
abbrev pub Pattern : Type 0
Pattern = List (ℕ → Bool)

abbrev pub is_upper_hex : ℕ → Bool
is_upper_hex c = is_digit c || (leb b'A' c && leb c b'F')

abbrev pub is_lower_hex : ℕ → Bool
is_lower_hex c = is_digit c || (leb b'a' c && leb c b'f')

-- #[0-9A-F]{6}$, and what goes before it: #[0-9A-F]{3}, Z#[0-9A-F]{6}, \.[0-9]{6}.
abbrev pub csn_modification : Pattern
csn_modification = (λ c. c == b'#') ∷ replicate 6 is_upper_hex

abbrev pub csn_server : Pattern
csn_server = (λ c. c == b'#') ∷ (replicate 3 is_upper_hex ++ csn_modification)

abbrev pub csn_count : Pattern
csn_count = (λ c. c == b'Z') ∷ (λ c. c == b'#') ∷ (replicate 6 is_upper_hex ++ csn_server)

abbrev pub csn_fraction : Pattern
csn_fraction = (λ c. c == b'.') ∷ (replicate 6 is_digit ++ csn_count)

abbrev pub csn_pattern : Pattern
csn_pattern = replicate 14 is_digit ++ csn_fraction

-- -[0-9a-f]{12}$, and three times -[0-9a-f]{4} before it.
abbrev pub uuid_node : Pattern
uuid_node = (λ c. c == b'-') ∷ replicate 12 is_lower_hex

abbrev pub uuid_group : Pattern → Pattern
uuid_group ps = (λ c. c == b'-') ∷ (replicate 4 is_lower_hex ++ ps)

abbrev pub uuid_pattern : Pattern
uuid_pattern = replicate 8 is_lower_hex ++ uuid_group (uuid_group (uuid_group uuid_node))

-- `MatchString`
unfoldable pub matches : Pattern → Bytes → Bool
matches [] [] = true
matches [] (c ∷ s) = false
matches (p ∷ ps) [] = false
matches (p ∷ ps) (c ∷ s) = p c && matches ps s

unfoldable pub valid_csn : Bytes → Bool
unfolding matches
valid_csn s = matches csn_pattern s

unfoldable pub valid_entry_uuid : Bytes → Bool
unfolding matches
valid_entry_uuid s = matches uuid_pattern s

unfoldable pub etag_from_csn : Bytes → Bytes
etag_from_csn csn = if valid_csn csn then quote csn else []

unfoldable pub csn_from_etag : Bytes → Option Bytes
csn_from_etag tag =
    if not (is_quoted tag) then none else if valid_csn (inner tag) then some (inner tag) else none

-- The values of the If-Match header; `none` is the 400.
unfoldable pub if_match_csn : List Bytes → Option Bytes
unfolding csn_from_etag
if_match_csn [] = some []
if_match_csn (v ∷ []) = if v == b'*' ∷ [] then some [] else csn_from_etag v
if_match_csn (v ∷ w ∷ vs) = none

-- The answer of `rejectIfMatch` is whether the request goes on.
unfoldable pub reject_if_match : List Bytes → Bool
reject_if_match values = length values == 0

unfoldable pub csn_filter : Bytes → Bytes
csn_filter csn = codes "(entryCSN=" ++ csn ++ codes ")"

unfoldable pub identity_filter : Bytes → Bytes → Bytes
identity_filter uuid csn = codes "(&(entryUUID=" ++ uuid ++ codes ")(entryCSN=" ++ csn ++ codes "))"

unfoldable pub one_control {ℓ} : {Control : Type ℓ} → Option Control → Option (List Control)
one_control none = none
one_control (some c) = some (c ∷ [])

module _ {Control : Type 0} (assertion_control : Bytes → Option Control) where
  -- `none` is an error: a malformed revision, or a filter that does not compile.
  unfoldable pub revision_controls : Bytes → Option (List Control)
  unfolding csn_filter one_control
  revision_controls csn =
      if csn == []
      then some []
      else if not (valid_csn csn)
      then none
      else elim (assertion_control (csn_filter csn)) [ none ↦ none | some c ↦ some (c ∷ []) ]

  unfoldable pub identity_controls : Bytes → Bytes → Option (List Control)
  unfolding identity_filter one_control
  identity_controls uuid csn =
      if not (valid_entry_uuid uuid) || not (valid_csn csn)
      then none
      else one_control (assertion_control (identity_filter uuid csn))
