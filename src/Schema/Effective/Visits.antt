-- ===== src/Schema/Effective/Visits.antt =====
-- A walk only grows (ui/backend/internal/schema/objectclass.go).
use ldapium.Prelude.{
  ℕ, zero, suc, ◌≡◌, refl, sym, subst, true, false, Bool-cases, Option-cases, inl, inr, none, some,
  List, [], ◌∷◌, arith,
}
use ldapium.Prelude.Bytes.{Bytes}
use ldapium.Prelude.Eq.{bytes_eq}
use ldapium.Prelude.Assoc.{lookup}
use ldapium.Schema.{ObjectClass}
use ldapium.Schema.Effective.{has, Walk, marked, gathered, each, visit}
use ldapium.Schema.Effective.Sets.{has-add_all}

-- Everything of the one walk is in the other.
pub record IsBelow (v w : Walk) : Type 0 where
  pub in_visited : (k : Bytes) → has k v.visited ≡ true → has k w.visited ≡ true
  pub in_must : (a : Bytes) → has a v.must_set ≡ true → has a w.must_set ≡ true
  pub in_may : (a : Bytes) → has a v.may_set ≡ true → has a w.may_set ≡ true

pub IsBelow-refl : (w : Walk) → IsBelow w w
IsBelow-refl w = record { in_visited = λ k h. h; in_must = λ a h. h; in_may = λ a h. h }

pub IsBelow-trans : (u v w : Walk) → IsBelow u v → IsBelow v w → IsBelow u w
IsBelow-trans u v w p q = record {
  in_visited = λ k h. q.in_visited k (p.in_visited k h);
  in_must = λ a h. q.in_must a (p.in_must a h);
  in_may = λ a h. q.in_may a (p.in_may a h);
}

pub IsBelow-marked : (k : Bytes) (w : Walk) → IsBelow w (marked k w)
unfolding has
IsBelow-marked k w = record {
  in_visited = λ j h. ground (arith, h);
  in_must = λ a h. h;
  in_may = λ a h. h;
}

pub IsBelow-gathered : (oc : ObjectClass) (w : Walk) → IsBelow w (gathered oc w)
IsBelow-gathered oc w = record {
  in_visited = λ k h. h;
  in_must = λ a h. ground (arith, h, has-add_all a oc.must w.must_set);
  in_may = λ a h. ground (arith, h, has-add_all a oc.may w.may_set);
}

pub IsBelow-each :
    (f : Bytes → Walk → Walk)
    → ((x : Bytes) (w : Walk) → IsBelow w (f x w))
    → (xs : List Bytes) (w : Walk) → IsBelow w (each f xs w)
unfolding each
IsBelow-each f h [] w = IsBelow-refl w
IsBelow-each f h (x ∷ xs) w =
    IsBelow-trans w (f x w) (each f xs (f x w)) (h x w) (IsBelow-each f h xs (f x w))

module _ (to_lower : Bytes → Bytes) (index : List (Bytes × ObjectClass)) where
  -- The three cases of a visit.
  pub visit_again :
      (n : ℕ) (name : Bytes) (w : Walk)
      → has (to_lower name) w.visited ≡ true
      → visit to_lower index (suc n) name w ≡ w
  unfolding visit
  visit_again n name w h = rw (h, visit) refl

  pub visit_unknown :
      (n : ℕ) (name : Bytes) (w : Walk)
      → has (to_lower name) w.visited ≡ false
      → lookup (to_lower name) index ≡ none
      → visit to_lower index (suc n) name w ≡ marked (to_lower name) w
  unfolding visit
  visit_unknown n name w h e = rw (h, e, visit) refl

  pub visit_known :
      (n : ℕ) (name : Bytes) (w : Walk) (oc : ObjectClass)
      → has (to_lower name) w.visited ≡ false
      → lookup (to_lower name) index ≡ some oc
      → visit to_lower index (suc n) name w
        ≡ each (visit to_lower index n) oc.sup (gathered oc (marked (to_lower name) w))
  unfolding visit
  visit_known n name w oc h e = rw (h, e, visit) refl

  pub IsBelow-visit : (n : ℕ) (name : Bytes) (w : Walk) → IsBelow w (visit to_lower index n name w)
  unfolding visit
  IsBelow-visit zero name w = IsBelow-refl w
  IsBelow-visit (suc n) name w = elim (Bool-cases (has (to_lower name) w.visited)) [
    | inl h ↦ subst (IsBelow w) (sym (visit_again n name w h)) (IsBelow-refl w)
    | inr h ↦ elim (Option-cases (lookup (to_lower name) index)) [
      | inl e ↦
          subst (IsBelow w) (sym (visit_unknown n name w h e)) (IsBelow-marked (to_lower name) w)
      | inr (oc, e) ↦
          let v = gathered oc (marked (to_lower name) w) in
          subst (IsBelow w) (sym (visit_known n name w oc h e)) (
            IsBelow-trans w v (each (visit to_lower index n) oc.sup v)
              (IsBelow-trans w (marked (to_lower name) w) v (IsBelow-marked (to_lower name) w)
                (IsBelow-gathered oc (marked (to_lower name) w)))
              (IsBelow-each (visit to_lower index n) (IsBelow-visit n) oc.sup v))
    ]
  ]
