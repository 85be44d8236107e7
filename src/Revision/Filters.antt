-- ===== src/Revision/Filters.antt =====
-- Conditions on writes: what reaches a filter, and that a condition is never lost
-- (ui/backend/internal/httpapi/conditional.go, ui/backend/internal/ldapclient/assertion.go).
use ldapium.Prelude.{
  ◌≡◌, refl, ◌⊎◌, inl, inr, true, ◌&&◌, and-true, Option, none, some, List, [], ◌∷◌, arith, all,
  Bool-cases, ap,
}
use ldapium.Prelude.Bytes.{Bytes}
use ldapium.Prelude.Eq.{bytes_eq, bytes_beq_iff, ◌==◌}
use ldapium.Revision.{
  valid_csn, valid_entry_uuid, if_match_csn, one_control, revision_controls, identity_controls,
  csn_filter, identity_filter,
}
use ldapium.Revision.Pattern.{valid_csn-plain, valid_csn-length, valid_entry_uuid-plain, is_plain}
use ldapium.Revision.Tags.{csn_from_etag_iff}

-- What `If-Match` may say: nothing or `*`, or one tag of an entryCSN.
abbrev pub IsUnconditional : List Bytes → Type 0
IsUnconditional vs = (vs ≡ []) ⊎ (vs ≡ (b'*' ∷ []) ∷ [])

if_match_csn-nonempty :
    (vs : List Bytes) (csn : Bytes)
    → if_match_csn vs ≡ some csn
    → IsUnconditional vs ⊎ (valid_csn csn ≡ true)
unfolding if_match_csn
if_match_csn-nonempty [] csn h = inl (inl refl)
if_match_csn-nonempty (v ∷ []) csn h = elim (Bool-cases (v == b'*' ∷ [])) [
  | inl e ↦ inl (inr (ap (λ (w : Bytes). w ∷ []) ((bytes_beq_iff v (b'*' ∷ [])).0 e)))
  | inr e ↦ inr ((csn_from_etag_iff v csn).0 (ground (arith, e, h))).0
]
if_match_csn-nonempty (v ∷ w ∷ vs) csn h = cc

one_control-some {ℓ} :
    {Control : Type ℓ} (o : Option Control) (controls : List Control)
    → one_control o ≡ some controls
    → (c : Control) × (o ≡ some c) × (controls ≡ c ∷ [])
unfolding one_control
one_control-some none controls h = cc
one_control-some (some c) controls h = (c, refl, cc)

module _ {Control : Type 0} (assertion_control : Bytes → Option Control) where
  -- A revision that is not empty gives one control or an error, and the control asserts a filter
  -- around bytes none of which is special in a filter.
  pub revision_controls_lem :
      (csn : Bytes) (controls : List Control)
      → revision_controls assertion_control csn ≡ some controls
      → ((csn ≡ []) × (controls ≡ []))
        ⊎ ((all is_plain csn ≡ true)
            × ((c : Control) × (assertion_control (csn_filter csn) ≡ some c) × (controls ≡ c ∷ [])))
  unfolding revision_controls
  revision_controls_lem csn controls h = elim (Bool-cases (csn == [])) [
    | inl e ↦ inl ((bytes_beq_iff csn []).0 e, ground (arith, h, e))
    | inr e ↦ elim (Bool-cases (valid_csn csn)) [
      | inl v ↦ inr (
        valid_csn-plain csn v,
        one_control-some (assertion_control (csn_filter csn)) controls (ground (arith, e, v, h)),
      )
      | inr v ↦ let absurd : ⊥ = ground (arith, e, v, h) in elim absurd [ ]
    ]
  ]

  -- A write whose If-Match header was accepted goes out without a control only if the header was
  -- absent or `*`.
  pub condition_is_kept :
      (vs : List Bytes) (csn : Bytes)
      → if_match_csn vs ≡ some csn
      → revision_controls assertion_control csn ≡ some []
      → IsUnconditional vs
  condition_is_kept vs csn h r = elim (if_match_csn-nonempty vs csn h) [
    | inl u ↦ u
    | inr v ↦ elim (revision_controls_lem csn [] r) [
      | inl (e, _) ↦ ground (arith, e, valid_csn-length csn v)
      | inr (_, (c, _, e)) ↦ cc
    ]
  ]

  -- The controls of an identity come from one filter, around bytes none of which is special.
  identity_controls_lem :
      (uuid csn : Bytes) (controls : List Control)
      → identity_controls assertion_control uuid csn ≡ some controls
      → (all is_plain uuid ≡ true)
        × (all is_plain csn ≡ true)
        × ((c : Control) × (assertion_control (identity_filter uuid csn) ≡ some c)
            × (controls ≡ c ∷ []))
  unfolding identity_controls
  identity_controls_lem uuid csn controls h =
      elim (Bool-cases (valid_entry_uuid uuid && valid_csn csn)) [
        | inl e ↦ (
          valid_entry_uuid-plain uuid (and-true (valid_entry_uuid uuid) (valid_csn csn) e).0,
          valid_csn-plain csn (and-true (valid_entry_uuid uuid) (valid_csn csn) e).1,
          one_control-some (assertion_control (identity_filter uuid csn)) controls
              (ground (arith, e, h)),
        )
        | inr e ↦ let absurd : ⊥ = ground (arith, e, h) in elim absurd [ ]
      ]
