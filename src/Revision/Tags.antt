-- ===== src/Revision/Tags.antt =====
-- The round trip of an entity tag, and what If-Match accepts
-- (ui/backend/internal/domain/revision.go, ui/backend/internal/httpapi/conditional.go).
use ldapium.Prelude.{◌≡◌, ◌↔◌, true, some, arith, subst}
use ldapium.Prelude.Bytes.{Bytes, quote, quote-inner, inner-quote, is_quoted-quote}
use ldapium.Prelude.Eq.{bytes_eq}
use ldapium.Revision.{valid_csn, etag_from_csn, csn_from_etag}

-- `CSNFromETag` is the strict inverse of `ETagFromCSN`: it accepts exactly the tags that a
-- well-formed entryCSN is rendered as, and gives that entryCSN back.
pub csn_from_etag_iff :
    (tag csn : Bytes)
    → (csn_from_etag tag ≡ some csn) ↔ ((valid_csn csn ≡ true) × (etag_from_csn csn ≡ tag))
unfolding csn_from_etag etag_from_csn
csn_from_etag_iff tag csn = (
  (λ h. ground (arith, h, quote-inner tag)),
  (λ h.
      let e : quote csn ≡ tag = ground (arith, h.0, h.1) in
      subst (λ (t : Bytes). csn_from_etag t ≡ some csn) e
        (ground (arith, h.0, is_quoted-quote csn, inner-quote csn))),
)
