-- ===== src/Idempotency/Body/Strict.antt =====
-- Which bodies `strictBody` lets through (ui/backend/internal/httpapi/idempotency.go).
use ldapium.Prelude.{
  ◌≡◌, ◌≢◌, refl, sym, ap, ◌⊎◌, ◌↔◌, inl, inr, true, false, Option, some, [], arith,
}
use ldapium.Prelude.Bytes.{Bytes}
use ldapium.Prelude.Eq.{bytes_eq}
use ldapium.Idempotency.Body.{
  Json, canonical, Content, blank, broken, value, Encoding, strict_body, strict_value, is_blank,
}
use ldapium.Idempotency.Body.Canonical.{Same, canonical_iff}

-- What is assumed of json.Marshal: different values have different texts, and none is empty.
pub record IsFaithful (enc : Encoding) : Type 0 where
  pub distinct : (v w : Json) → enc.marshal v ≡ enc.marshal w → v ≡ w
  pub not_empty : (v : Json) → enc.marshal v ≢ []

-- A body that is let through, and what is fingerprinted of it.
abbrev pub Strict : Encoding → Content → Bytes → Type 0
Strict enc c canon =
    ((c ≡ blank) × (canon ≡ []))
    ⊎ ((v : Json) × (c ≡ value v false) × (canon ≡ enc.marshal (canonical v)))

pub strict_body-Strict :
    (enc : Encoding) (method : Bytes) (mt : Option Bytes) (c : Content) (canon : Bytes)
    → strict_body enc method mt c ≡ some canon
    → Strict enc c canon
unfolding strict_body strict_value is_blank
strict_body-Strict enc method mt blank canon h = inl (refl, ground (arith, h))
strict_body-Strict enc method mt broken canon h =
    let absurd : ⊥ = ground (arith, h) in elim absurd [ ]
strict_body-Strict enc method mt (value v true) canon h =
    let absurd : ⊥ = ground (arith, h) in elim absurd [ ]
strict_body-Strict enc method mt (value v false) canon h = inr (v, refl, ground (arith, h))

-- No body, or the same value up to the order of members.
abbrev pub SameContent : Content → Content → Type 0
SameContent blank blank = Unit
SameContent (value v more) (value w other) = Same v w
SameContent blank broken = ⊥
SameContent blank (value w other) = ⊥
SameContent broken c = ⊥
SameContent (value v more) blank = ⊥
SameContent (value v more) broken = ⊥

pub Strict-SameContent :
    (enc : Encoding) (b c : Content) (canon canon' : Bytes)
    → IsFaithful enc
    → Strict enc b canon
    → Strict enc c canon'
    → (canon ≡ canon') ↔ SameContent b c
Strict-SameContent enc b c canon canon' f (inl (e, p)) (inl (g, q)) =
    rw (e, g, p, q) ((λ h. tt), (λ h. refl))
Strict-SameContent enc b c canon canon' f (inl (e, p)) (inr (w, g, q)) =
    rw (e, g, p, q) ((λ h. elim (f.not_empty (canonical w) (sym h)) [ ]), (λ h. elim h [ ]))
Strict-SameContent enc b c canon canon' f (inr (v, e, p)) (inl (g, q)) =
    rw (e, g, p, q) ((λ h. elim (f.not_empty (canonical v) h) [ ]), (λ h. elim h [ ]))
Strict-SameContent enc b c canon canon' f (inr (v, e, p)) (inr (w, g, q)) =
    rw (e, g, p, q)
      (
        (λ h. (canonical_iff v w).0 (f.distinct (canonical v) (canonical w) h)),
        (λ h. ap enc.marshal ((canonical_iff v w).1 h)),
      )
