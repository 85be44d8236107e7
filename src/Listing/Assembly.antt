-- ===== src/Listing/Assembly.antt =====
-- The assembly of a page from the selection and the fetched entries
-- (ui/backend/internal/ldapclient/page.go).
use ldapium.Prelude.{
  ◌≡◌, refl, ◌↔◌, sym, ap, ◌∙◌, subst, true, false, none, some, Option-cases, List, [], ◌∷◌, map,
  arith, if◌then◌else◌, Bool-cases, inl, inr, All,
}
use ldapium.Prelude.Bytes.{Bytes}
use ldapium.Prelude.Eq.{bytes_eq, bytes_beq_iff, beq_refl}
use ldapium.Prelude.Assoc.{lookup}
use ldapium.Listing.{
  PagePosition, Candidate, Entry, before, position_of, same_position, emit, assemble_page,
}
use ldapium.Listing.Distinct.{IsAscending}

module _ (to_lower : Bytes → Bytes) (key_of : Entry → Bytes) where
  abbrev pub position : Entry → PagePosition
  position e = position_of to_lower (key_of e) e.entry_dn

  -- The entry was fetched under the candidate's entryUUID and is still at the selected position.
  abbrev pub IsFresh : List (Bytes × Entry) → Candidate → Entry → Type 0
  IsFresh fetched c e = (lookup c.uuid fetched ≡ some e) × (position e ≡ c.pos)

  -- The entries are, in the candidates' order, the fresh ones: a candidate is left out only if
  -- nothing fresh was fetched for it.
  pub data Follows (fetched : List (Bytes × Entry)) : List Candidate → List Entry → Type 0 where
    done : Follows fetched [] []
    skips :
        {c : Candidate} {cs : List Candidate} {es : List Entry}
        → ((e : Entry) → IsFresh fetched c e → ⊥)
        → Follows fetched cs es
        → Follows fetched (c ∷ cs) es
    keeps :
        {c : Candidate} {cs : List Candidate} {e : Entry} {es : List Entry}
        → IsFresh fetched c e
        → Follows fetched cs es
        → Follows fetched (c ∷ cs) (e ∷ es)

  abbrev pub IsIncreasing : List PagePosition → Type 0
  IsIncreasing [] = Unit
  IsIncreasing (p ∷ ps) = All (λ (q : PagePosition). before p q ≡ true) ps × IsIncreasing ps

  position_ext : (a b : PagePosition) → a.key ≡ b.key → a.dn ≡ b.dn → a ≡ b
  position_ext a b h k = ground (arith, h, k)

  same_position_iff : (a b : PagePosition) → (same_position a b ≡ true) ↔ (a ≡ b)
  same_position_iff a b = (
    (λ h.
        position_ext a b ((bytes_beq_iff a.key b.key).0 (ground (arith, h)))
          ((bytes_beq_iff a.dn b.dn).0 (ground (arith, h)))),
    (λ h.
        subst (λ (p : PagePosition). same_position a p ≡ true) h
          (ground (arith, beq_refl a.key, beq_refl a.dn))),
  )

  stale :
      (c : Candidate) (fetched : List (Bytes × Entry)) (x y : Entry)
      → lookup c.uuid fetched ≡ some x
      → same_position (position x) c.pos ≡ false
      → IsFresh fetched c y
      → ⊥
  stale c fetched x y e h f = ground (
    arith,
    h,
    (same_position_iff (position x) c.pos).1 (ap position (ground (arith, e, f.0)) ∙ f.1),
  )

  emit_absent :
      (c : Candidate) (cs : List Candidate) (fetched : List (Bytes × Entry))
      → lookup c.uuid fetched ≡ none
      → emit to_lower key_of (c ∷ cs) fetched ≡ emit to_lower key_of cs fetched
  unfolding emit
  emit_absent c cs fetched h = rw (h, emit) refl

  emit_fetched :
      (c : Candidate) (cs : List Candidate) (fetched : List (Bytes × Entry)) (e : Entry)
      → lookup c.uuid fetched ≡ some e
      → emit to_lower key_of (c ∷ cs) fetched ≡ (
          if same_position (position e) c.pos
          then e ∷ emit to_lower key_of cs fetched
          else emit to_lower key_of cs fetched)
  unfolding emit
  emit_fetched c cs fetched e h = rw (h, emit) refl

  emit-Follows :
      (cs : List Candidate) (fetched : List (Bytes × Entry))
      → Follows fetched cs (emit to_lower key_of cs fetched)
  unfolding emit
  emit-Follows [] fetched = done
  emit-Follows (c ∷ cs) fetched = elim (Option-cases (lookup c.uuid fetched)) [
    | inl e ↦
        subst (Follows fetched (c ∷ cs)) (sym (emit_absent c cs fetched e))
          (skips (λ x f. ground (arith, e, f.0)) (emit-Follows cs fetched))
    | inr (x, e) ↦
        subst (Follows fetched (c ∷ cs)) (sym (emit_fetched c cs fetched x e))
          (elim (Bool-cases (same_position (position x) c.pos)) [
            | inl h ↦
                rw h
                  (keeps (e, (same_position_iff (position x) c.pos).0 h) (emit-Follows cs fetched))
            | inr h ↦ rw h (skips (λ y f. stale c fetched x y e h f) (emit-Follows cs fetched))
          ])
  ]

  Follows-After :
      (p : PagePosition) {fetched : List (Bytes × Entry)} {cs : List Candidate} {es : List Entry}
      → Follows fetched cs es
      → All (λ (c : Candidate). before p c.pos ≡ true) cs
      → All (λ (q : PagePosition). before p q ≡ true) (map position es)
  Follows-After p done a = tt
  Follows-After p (skips n f) a = Follows-After p f a.1
  Follows-After p (keeps h f) a =
      (subst (λ (q : PagePosition). before p q ≡ true) (sym h.1) a.0, Follows-After p f a.1)

  after_equal :
      (p q : PagePosition) (cs : List Candidate)
      → p ≡ q
      → All (λ (c : Candidate). before q c.pos ≡ true) cs
      → All (λ (c : Candidate). before p c.pos ≡ true) cs
  after_equal p q [] h a = tt
  after_equal p q (c ∷ cs) h a =
      (subst (λ (r : PagePosition). before r c.pos ≡ true) (sym h) a.0, after_equal p q cs h a.1)

  Follows-IsIncreasing :
      {fetched : List (Bytes × Entry)} {cs : List Candidate} {es : List Entry}
      → Follows fetched cs es
      → IsAscending cs
      → IsIncreasing (map position es)
  Follows-IsIncreasing done s = tt
  Follows-IsIncreasing (skips n f) s = Follows-IsIncreasing f s.1
  Follows-IsIncreasing (keeps h f) s =
      (Follows-After (position _) f (after_equal _ _ _ h.1 s.0), Follows-IsIncreasing f s.1)

  -- The entries of a page are exactly those the second lookup returned, for a selected candidate,
  -- with an unchanged position, in the order of the selection; when the selection ascends, so do
  -- their positions, strictly.
  pub assemble_page-Follows :
      (selected : List Candidate) (fetched : List (Bytes × Entry))
      → IsAscending selected
      → Follows fetched selected (assemble_page to_lower key_of selected fetched).0
        × IsIncreasing (map position (assemble_page to_lower key_of selected fetched).0)
  unfolding assemble_page
  assemble_page-Follows selected fetched s =
      (emit-Follows selected fetched, Follows-IsIncreasing (emit-Follows selected fetched) s)
