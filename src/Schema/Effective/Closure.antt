-- ===== src/Schema/Effective/Closure.antt =====
-- A walk leaves no superior class out (ui/backend/internal/schema/objectclass.go).
use ldapium.Prelude.{
  ℕ, zero, suc, ◌<◌, ◌≡◌, sym, ap, ◌∙◌, subst, true, false, Bool-cases, Option-cases, inl, inr,
  none, some, List, [], ◌∷◌, or_else, arith, length,
}
use ldapium.Prelude.Bytes.{Bytes}
use ldapium.Prelude.Eq.{bytes_eq, bytes_beq_iff, beq_refl, ◌==◌}
use ldapium.Prelude.Assoc.{lookup}
use ldapium.Schema.{ObjectClass}
use ldapium.Schema.Effective.{has, Walk, marked, gathered, each, visit, visit_names, no_walk}
use ldapium.Schema.Effective.Sets.{
  has-add_all, unvisited, unvisited-le, unvisited-cons, unvisited-le_length,
}
use ldapium.Schema.Effective.Visits.{
  IsBelow, IsBelow-each, IsBelow-visit, visit_again, visit_unknown, visit_known,
}

module _ (to_lower : Bytes → Bytes) where
  -- The class's attributes are gathered and its superior classes visited.
  pub record IsTaken (oc : ObjectClass) (w : Walk) : Type 0 where
    pub sup_taken : (x : Bytes) → has x oc.sup ≡ true → has (to_lower x) w.visited ≡ true
    pub must_taken : (a : Bytes) → has a oc.must ≡ true → has a w.must_set ≡ true
    pub may_taken : (a : Bytes) → has a oc.may ≡ true → has a w.may_set ≡ true

  IsTaken-later : (oc : ObjectClass) (v w : Walk) → IsBelow v w → IsTaken oc v → IsTaken oc w
  IsTaken-later oc v w b t = record {
    sup_taken = λ x h. b.in_visited (to_lower x) (t.sup_taken x h);
    must_taken = λ a h. b.in_must a (t.must_taken a h);
    may_taken = λ a h. b.in_may a (t.may_taken a h);
  }

  -- Every class that the second walk visited and the first did not is taken.
  abbrev pub IsClosed : List (Bytes × ObjectClass) → Walk → Walk → Type 0
  IsClosed index v w =
      (key : Bytes) (oc : ObjectClass)
      → has key w.visited ≡ true
      → has key v.visited ≡ false
      → lookup key index ≡ some oc
      → IsTaken oc w

  IsClosed-refl : (index : List (Bytes × ObjectClass)) (w : Walk) → IsClosed index w w
  IsClosed-refl index w key oc h n e = let absurd : ⊥ = ground (arith, h, n) in elim absurd [ ]

  IsClosed-trans :
      (index : List (Bytes × ObjectClass)) (u v w : Walk)
      → IsBelow v w
      → IsClosed index u v
      → IsClosed index v w
      → IsClosed index u w
  IsClosed-trans index u v w b p q key oc h n e = elim (Bool-cases (has key v.visited)) [
    | inl k ↦ IsTaken-later oc v w b (p key oc k n e)
    | inr k ↦ q key oc h k e
  ]

  -- What a visit is for.
  abbrev IsDone : List (Bytes × ObjectClass) → Bytes → Walk → Walk → Type 0
  IsDone index x v w = (has (to_lower x) w.visited ≡ true) × IsClosed index v w

  module _ (index : List (Bytes × ObjectClass)) where
    each-IsDone :
        (n : ℕ) (f : Bytes → Walk → Walk)
        → ((x : Bytes) (w : Walk) → IsBelow w (f x w))
        → ((x : Bytes) (w : Walk) → unvisited index w.visited < n → IsDone index x w (f x w))
        → (xs : List Bytes) (w : Walk) → unvisited index w.visited < n
        → ((x : Bytes) → has x xs ≡ true → has (to_lower x) (each f xs w).visited ≡ true)
          × IsClosed index w (each f xs w)
    unfolding each has
    each-IsDone n f b d [] w r = ((λ x h. cc), IsClosed-refl index w)
    each-IsDone n f b d (y ∷ xs) w r =
        let first = d y w r in
        let others =
          each-IsDone n f b d xs (f y w)
            (omega (arith, r, unvisited-le index w.visited (f y w).visited ((b y w).in_visited))) in
        let grows = IsBelow-each f b xs (f y w) in
        (
          (λ x h. elim (Bool-cases (y == x)) [
            | inl e ↦
                subst (λ (z : Bytes). has (to_lower z) (each f xs (f y w)).visited ≡ true)
                  ((bytes_beq_iff y x).0 e) (grows.in_visited (to_lower y) first.0)
            | inr e ↦ others.0 x (ground (arith, h, e))
          ]),
          IsClosed-trans index w (f y w) (each f xs (f y w)) grows first.1 others.1,
        )

    unknown-IsDone :
        (name : Bytes) (w : Walk)
        → lookup (to_lower name) index ≡ none
        → IsDone index name w (marked (to_lower name) w)
    unfolding has
    unknown-IsDone name w e = (
      ground (arith, beq_refl (to_lower name)),
      (λ key oc h n f.
          let same : to_lower name ≡ key =
            (bytes_beq_iff (to_lower name) key).0 (ground (arith, h, n)) in
          let absurd : ⊥ = ground (arith, e, f, ap (λ (k : Bytes). lookup k index) same) in
          elim absurd [ ]),
    )

    known-IsTaken :
        (name : Bytes) (v w : Walk) (oc : ObjectClass)
        → IsBelow (gathered oc (marked (to_lower name) v)) w
        → ((x : Bytes) → has x oc.sup ≡ true → has (to_lower x) w.visited ≡ true)
        → IsTaken oc w
    known-IsTaken name v w oc b s = record {
      sup_taken = s;
      must_taken = λ a h. b.in_must a (ground (arith, h, has-add_all a oc.must v.must_set));
      may_taken = λ a h. b.in_may a (ground (arith, h, has-add_all a oc.may v.may_set));
    }

    known-IsDone :
        (name : Bytes) (v w : Walk) (oc : ObjectClass)
        → lookup (to_lower name) index ≡ some oc
        → IsBelow (gathered oc (marked (to_lower name) v)) w
        → ((x : Bytes) → has x oc.sup ≡ true → has (to_lower x) w.visited ≡ true)
        → IsClosed index (gathered oc (marked (to_lower name) v)) w
        → IsDone index name v w
    unfolding has
    known-IsDone name v w oc e b s c = (
      b.in_visited (to_lower name) (ground (arith, beq_refl (to_lower name))),
      (λ key oc' h n f. elim (Bool-cases (to_lower name == key)) [
        | inl k ↦
            let same : to_lower name ≡ key = (bytes_beq_iff (to_lower name) key).0 k in
            let equal : some oc ≡ some oc' = sym e ∙ ap (λ (j : Bytes). lookup j index) same ∙ f in
            subst (λ (c : ObjectClass). IsTaken c w) (ap (or_else oc) equal)
              (known-IsTaken name v w oc b s)
        | inr k ↦ c key oc' h (ground (arith, n, k)) f
      ]),
    )

    visit-IsDone :
        (n : ℕ) (name : Bytes) (w : Walk)
        → unvisited index w.visited < n
        → IsDone index name w (visit to_lower index n name w)
    visit-IsDone zero name w r = let absurd : ⊥ = omega (arith, r) in elim absurd [ ]
    visit-IsDone (suc n) name w r = elim (Bool-cases (has (to_lower name) w.visited)) [
      | inl h ↦
          subst (IsDone index name w) (sym (visit_again to_lower index n name w h))
            (h, IsClosed-refl index w)
      | inr h ↦ elim (Option-cases (lookup (to_lower name) index)) [
        | inl e ↦
            subst (IsDone index name w) (sym (visit_unknown to_lower index n name w h e))
              (unknown-IsDone name w e)
        | inr (oc, e) ↦
            let v = gathered oc (marked (to_lower name) w) in
            let sups =
              each-IsDone n (visit to_lower index n) (IsBelow-visit to_lower index n)
                (visit-IsDone n) oc.sup v
                (omega (arith, r, unvisited-cons index (to_lower name) w.visited oc e h)) in
            subst (IsDone index name w) (sym (visit_known to_lower index n name w oc h e)) (
              known-IsDone name w (each (visit to_lower index n) oc.sup v) oc e
                (IsBelow-each (visit to_lower index n) (IsBelow-visit to_lower index n) oc.sup v)
                sups.0 sups.1)
      ]
    ]

    -- The walk of the whole list of names, with the fuel that it is given.
    pub visit_names-IsClosed :
        (names : List Bytes)
        → ((x : Bytes)
            → has x names ≡ true
            → has (to_lower x) (visit_names to_lower index names).visited ≡ true)
          × IsClosed index no_walk (visit_names to_lower index names)
    unfolding visit_names
    visit_names-IsClosed names =
        each-IsDone (suc (length index)) (visit to_lower index (suc (length index)))
          (IsBelow-visit to_lower index (suc (length index))) (visit-IsDone (suc (length index)))
          names no_walk (omega (arith, unvisited-le_length index []))
