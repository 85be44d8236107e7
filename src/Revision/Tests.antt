-- ===== src/Revision/Tests.antt =====
-- Runs on revisions and the witnesses of their theorems
-- (ui/backend/internal/domain/revision.go, ui/backend/internal/httpapi/conditional.go).
use ldapium.Prelude.{◌≡◌, refl, ◌↔◌, ◌⊎◌, true, false, Option, none, some, [], ◌∷◌, ◌++◌, all}
use ldapium.Prelude.Bytes.{Bytes, codes, quote, is_quoted}
use ldapium.Prelude.Eq.{bytes_eq}
use ldapium.Revision.{
  valid_csn, valid_entry_uuid, csn_from_etag, etag_from_csn, if_match_csn, revision_controls,
  identity_controls, csn_filter, identity_filter,
}
use ldapium.Revision.Pattern.{is_plain}
use ldapium.Revision.Tags.{csn_from_etag_iff}
use ldapium.Revision.Filters.{IsUnconditional, revision_controls_lem, condition_is_kept}

abbrev csn : Bytes
csn = codes "20260102030405.000006Z#0A0B0C#001#000000"

abbrev uuid : Bytes
uuid = codes "01234567-89ab-cdef-0123-456789abcdef"

-- The control is the filter that it asserts.
abbrev control : Bytes → Option Bytes
control filter = some filter

is_valid : valid_csn csn ≡ true
unfolding valid_csn
is_valid = refl

lower_is_not : valid_csn (codes "20260102030405.000006Z#0a0b0c#001#000000") ≡ false
unfolding valid_csn
lower_is_not = refl

uuid_is_valid : valid_entry_uuid uuid ≡ true
unfolding valid_entry_uuid
uuid_is_valid = refl

weak_is_not : if_match_csn ((codes "W/" ++ quote csn) ∷ []) ≡ none
unfolding if_match_csn is_quoted
weak_is_not = refl

any_is_allowed : if_match_csn ((b'*' ∷ []) ∷ []) ≡ some []
unfolding if_match_csn
any_is_allowed = refl

csn_from_etag_iff_example :
    (csn_from_etag (quote csn) ≡ some csn)
    ↔ ((valid_csn csn ≡ true) × (etag_from_csn csn ≡ quote csn))
csn_from_etag_iff_example = csn_from_etag_iff (quote csn) csn

with_csn : revision_controls control csn ≡ some (csn_filter csn ∷ [])
unfolding revision_controls valid_csn
with_csn = refl

revision_controls_lem_example :
    ((csn ≡ []) × (csn_filter csn ∷ [] ≡ []))
    ⊎ ((all is_plain csn ≡ true)
        × ((c : Bytes) × (control (csn_filter csn) ≡ some c) × (csn_filter csn ∷ [] ≡ c ∷ [])))
revision_controls_lem_example = revision_controls_lem control csn (csn_filter csn ∷ []) with_csn

with_identity : identity_controls control uuid csn ≡ some (identity_filter uuid csn ∷ [])
unfolding identity_controls valid_csn valid_entry_uuid
with_identity = refl

no_controls : revision_controls control [] ≡ some []
unfolding revision_controls
no_controls = refl

condition_is_kept_example : IsUnconditional ((b'*' ∷ []) ∷ [])
condition_is_kept_example =
    condition_is_kept control ((b'*' ∷ []) ∷ []) [] any_is_allowed no_controls
