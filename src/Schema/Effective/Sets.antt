-- ===== src/Schema/Effective/Sets.antt =====
-- Sets of texts and the part of the index that was not visited
-- (ui/backend/internal/schema/objectclass.go).
use ldapium.Prelude.{
  ℕ, suc, ◌≤◌, ◌<◌, ◌≡◌, refl, sym, ap, true, false, Bool-cases, inl, inr, ◌&&◌, ◌||◌, not, some,
  List, [], ◌∷◌, arith, if◌then◌else◌, length, retain,
}
use ldapium.Prelude.Bytes.{Bytes}
use ldapium.Prelude.Eq.{bytes_eq, bytes_beq_iff, ◌==◌}
use ldapium.Prelude.Assoc.{lookup}
use ldapium.Schema.{ObjectClass}
use ldapium.Schema.Effective.{has, add, add_all, insert_text, sorted_keys}

has-add : (a b : Bytes) (s : List Bytes) → has a (add b s) ≡ ((b == a) || has a s)
unfolding has add
has-add a b s = ground (arith, bytes_beq_iff b a)

pub has-add_all : (a : Bytes) (xs s : List Bytes) → has a (add_all xs s) ≡ (has a xs || has a s)
unfolding has add_all
has-add_all a [] s = refl
has-add_all a (b ∷ xs) s = ground (arith, has-add_all a xs (add b s), has-add a b s)

has-insert_text : (a b : Bytes) (s : List Bytes) → has a (insert_text b s) ≡ ((b == a) || has a s)
unfolding has insert_text
has-insert_text a b [] = refl
has-insert_text a b (c ∷ s) = ground (arith, has-insert_text a b s)

pub has-sorted_keys : (a : Bytes) (s : List Bytes) → has a (sorted_keys s) ≡ has a s
unfolding has sorted_keys
has-sorted_keys a [] = refl
has-sorted_keys a (b ∷ s) = ground (arith, has-insert_text a b (sorted_keys s), has-sorted_keys a s)

pub has-retain :
    (a : Bytes) (t s : List Bytes)
    → has a (retain (λ b. not (has b t)) s) ≡ (has a s && not (has a t))
unfolding has retain
has-retain a t [] = refl
has-retain a t (b ∷ s) = ground (arith, bytes_beq_iff b a, has-retain a t s)

-- How many keys of the index are not in the set.
unfoldable pub unvisited : List (Bytes × ObjectClass) → List Bytes → ℕ
unvisited [] s = 0
unvisited ((k, oc) ∷ index) s = let more = unvisited index s in if has k s then more else suc more

pub unvisited-le :
    (index : List (Bytes × ObjectClass)) (s t : List Bytes)
    → ((k : Bytes) → has k s ≡ true → has k t ≡ true)
    → unvisited index t ≤ unvisited index s
unfolding unvisited
unvisited-le [] s t h = omega arith
unvisited-le ((k, oc) ∷ index) s t h = ground (arith, h k, unvisited-le index s t h)

kept_by_cons : (k : Bytes) (s : List Bytes) (j : Bytes) → has j s ≡ true → has j (k ∷ s) ≡ true
unfolding has
kept_by_cons k s j h = ground (arith, h)

pub unvisited-cons :
    (index : List (Bytes × ObjectClass)) (k : Bytes) (s : List Bytes) (oc : ObjectClass)
    → lookup k index ≡ some oc
    → has k s ≡ false
    → unvisited index (k ∷ s) < unvisited index s
unfolding unvisited lookup has
unvisited-cons [] k s oc e h = cc
unvisited-cons ((j, c) ∷ index) k s oc e h = elim (Bool-cases (j == k)) [
  | inl f ↦
      let same : j ≡ k = (bytes_beq_iff j k).0 f in
      ground (
        arith,
        h,
        ap (λ (x : Bytes). has x s) same,
        (bytes_beq_iff k j).1 (sym same),
        unvisited-le index s (k ∷ s) (kept_by_cons k s),
      )
  | inr f ↦ ground (arith, e, h, f, bytes_beq_iff k j, unvisited-cons index k s oc)
]

pub unvisited-le_length :
    (index : List (Bytes × ObjectClass)) (s : List Bytes) → unvisited index s ≤ length index
unfolding unvisited
unvisited-le_length [] s = omega arith
unvisited-le_length ((k, oc) ∷ index) s = ground (arith, unvisited-le_length index s)
