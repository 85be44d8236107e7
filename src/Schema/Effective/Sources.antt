-- ===== src/Schema/Effective/Sources.antt =====
-- The effective attributes are those of the classes that are reached
-- (ui/backend/internal/schema/objectclass.go).
use ldapium.Prelude.{
  ℕ, zero, suc, ◌≡◌, refl, ◌↔◌, sym, ◌∙◌, subst, true, false, Bool-cases, Option-cases, inl, inr,
  not, some, List, [], ◌∷◌, arith, length, retain,
}
use ldapium.Prelude.Bytes.{Bytes}
use ldapium.Prelude.Eq.{bytes_eq, beq_refl}
use ldapium.Prelude.Assoc.{lookup}
use ldapium.Schema.{ObjectClass}
use ldapium.Schema.Effective.{
  has, Walk, marked, gathered, each, visit, visit_names, no_walk, effective_attributes,
}
use ldapium.Schema.Effective.Sets.{has-add_all, has-sorted_keys, has-retain}
use ldapium.Schema.Effective.Visits.{visit_again, visit_unknown, visit_known}
use ldapium.Schema.Effective.Closure.{IsTaken, visit_names-IsClosed}

module _ (to_lower : Bytes → Bytes) (index : List (Bytes × ObjectClass)) (names : List Bytes) where
  -- The classes that the names and the SUP clauses lead to.
  pub data Reaches : ObjectClass → Type 0 where
    named :
        (x : Bytes) (oc : ObjectClass)
        → has x names ≡ true
        → lookup (to_lower x) index ≡ some oc
        → Reaches oc
    inherited :
        (x : Bytes) (oc sup : ObjectClass)
        → Reaches oc
        → has x oc.sup ≡ true
        → lookup (to_lower x) index ≡ some sup
        → Reaches sup

  abbrev pub IsRequired : Bytes → Type 0
  IsRequired a = (oc : ObjectClass) × Reaches oc × (has a oc.must ≡ true)

  abbrev pub IsOffered : Bytes → Type 0
  IsOffered a = (oc : ObjectClass) × Reaches oc × (has a oc.may ≡ true)

  record HasSources (w : Walk) : Type 0 where
    must_from : (a : Bytes) → has a w.must_set ≡ true → IsRequired a
    may_from : (a : Bytes) → has a w.may_set ≡ true → IsOffered a

  abbrev IsSource : Bytes → Type 0
  IsSource x = (oc : ObjectClass) → lookup (to_lower x) index ≡ some oc → Reaches oc

  no_walk-HasSources : HasSources no_walk
  unfolding has
  no_walk-HasSources = record { must_from = λ a h. cc; may_from = λ a h. cc }

  gathered-HasSources :
      (k : Bytes) (oc : ObjectClass) (w : Walk)
      → Reaches oc
      → HasSources w
      → HasSources (gathered oc (marked k w))
  gathered-HasSources k oc w r s = record {
    must_from = λ a h. elim (Bool-cases (has a oc.must)) [
      | inl m ↦ (oc, r, m)
      | inr m ↦ s.must_from a (ground (arith, h, m, has-add_all a oc.must w.must_set))
    ];
    may_from = λ a h. elim (Bool-cases (has a oc.may)) [
      | inl m ↦ (oc, r, m)
      | inr m ↦ s.may_from a (ground (arith, h, m, has-add_all a oc.may w.may_set))
    ];
  }

  each-HasSources :
      (f : Bytes → Walk → Walk)
      → ((x : Bytes) (w : Walk) → IsSource x → HasSources w → HasSources (f x w))
      → (xs : List Bytes) (w : Walk) → ((x : Bytes) → has x xs ≡ true → IsSource x)
      → HasSources w
      → HasSources (each f xs w)
  unfolding each has
  each-HasSources f h [] w i s = s
  each-HasSources f h (x ∷ xs) w i s =
      each-HasSources f h xs (f x w) (λ y m. i y (ground (arith, m)))
        (h x w (i x (ground (arith, beq_refl x))) s)

  visit-HasSources :
      (n : ℕ) (name : Bytes) (w : Walk)
      → IsSource name
      → HasSources w
      → HasSources (visit to_lower index n name w)
  unfolding visit
  visit-HasSources zero name w i s = s
  visit-HasSources (suc n) name w i s = elim (Bool-cases (has (to_lower name) w.visited)) [
    | inl h ↦ subst HasSources (sym (visit_again to_lower index n name w h)) s
    | inr h ↦ elim (Option-cases (lookup (to_lower name) index)) [
      | inl e ↦
          subst HasSources (sym (visit_unknown to_lower index n name w h e))
            (record { must_from = s.must_from; may_from = s.may_from })
      | inr (oc, e) ↦ subst HasSources (sym (visit_known to_lower index n name w oc h e)) (
          each-HasSources (visit to_lower index n) (visit-HasSources n) oc.sup
            (gathered oc (marked (to_lower name) w)) (λ x m c f. inherited x oc c (i oc e) m f)
            (gathered-HasSources (to_lower name) oc w (i oc e) s))
    ]
  ]

  visit_names-HasSources : HasSources (visit_names to_lower index names)
  unfolding visit_names
  visit_names-HasSources =
      each-HasSources (visit to_lower index (suc (length index)))
        (visit-HasSources (suc (length index))) names no_walk (λ x m oc e. named x oc m e)
        no_walk-HasSources

  reached-IsTaken :
      (oc : ObjectClass) → Reaches oc → IsTaken to_lower oc (visit_names to_lower index names)
  unfolding has
  reached-IsTaken _ (named x oc m e) =
      let walk = visit_names-IsClosed to_lower index names in
      walk.1 (to_lower x) oc (walk.0 x m) refl e
  reached-IsTaken _ (inherited x oc sup r m e) =
      let walk = visit_names-IsClosed to_lower index names in
      walk.1 (to_lower x) sup ((reached-IsTaken oc r).sup_taken x m) refl e

  -- `EffectiveAttributes` gives as required exactly the attributes that some class requires which
  -- the names and the SUP clauses lead to, however the clauses loop, and as optional exactly those
  -- that such a class allows and none requires. Names without a class in the index count for
  -- nothing.
  pub effective_attributes_lem :
      (a : Bytes)
      → ((has a (effective_attributes to_lower index names).0 ≡ true) ↔ IsRequired a)
        × ((has a (effective_attributes to_lower index names).1 ≡ true)
            ↔ (IsOffered a × (has a (effective_attributes to_lower index names).0 ≡ false)))
  unfolding effective_attributes
  effective_attributes_lem a =
      let w = visit_names to_lower index names in
      let required = has-sorted_keys a w.must_set in
      let offered =
        has-sorted_keys a (retain (λ b. not (has b w.must_set)) w.may_set)
        ∙ has-retain a w.must_set w.may_set in
      (
        (
          (λ h. visit_names-HasSources.must_from a (sym required ∙ h)),
          (λ (oc, r, m). required ∙ (reached-IsTaken oc r).must_taken a m),
        ),
        (
          (λ h. (
            visit_names-HasSources.may_from a (ground (arith, h, offered)),
            ground (arith, h, offered, required),
          )),
          (λ ((oc, r, m), n).
              ground (arith, offered, required, n, (reached-IsTaken oc r).may_taken a m)),
        ),
      )
