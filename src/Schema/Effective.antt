-- ===== src/Schema/Effective.antt =====
-- The index of classes and EffectiveAttributes (ui/backend/internal/schema/objectclass.go). Go's
-- sets are lists to which a text is added once; `to_lower` is strings.ToLower. The fuel of a visit
-- bounds the depth of the recursion.
pub mod Sets
pub mod Visits
pub mod Sources
pub mod Closure
mod Tests
use ldapium.Prelude.{
  ℕ, zero, suc, Bool, true, false, ◌||◌, not, Option, none, some, List, [], ◌∷◌, if◌then◌else◌,
  length, retain,
}
use ldapium.Prelude.Bytes.{Bytes}
use ldapium.Prelude.Eq.{bytes_eq, ◌==◌}
use ldapium.Prelude.Assoc.{lookup, put}
use ldapium.Listing.{compare_bytes, is_less}
use ldapium.Schema.{ObjectClass}

unfoldable pub has : Bytes → List Bytes → Bool
has a [] = false
has a (b ∷ s) = (b == a) || has a s

unfoldable pub add : Bytes → List Bytes → List Bytes
add a s = if has a s then s else a ∷ s

unfoldable pub add_all : List Bytes → List Bytes → List Bytes
unfolding add
add_all [] s = s
add_all (a ∷ xs) s = add_all xs (add a s)

unfoldable pub insert_text : Bytes → List Bytes → List Bytes
insert_text a [] = a ∷ []
insert_text a (b ∷ s) = if is_less (compare_bytes b a) then b ∷ insert_text a s else a ∷ b ∷ s

unfoldable pub sorted_keys : List Bytes → List Bytes
unfolding insert_text
sorted_keys [] = []
sorted_keys (a ∷ s) = insert_text a (sorted_keys s)

pub record Walk : Type 0 where
  pub must_set : List Bytes
  pub may_set : List Bytes
  pub visited : List Bytes

abbrev pub no_walk : Walk
no_walk = record { must_set = []; may_set = []; visited = [] }

abbrev pub marked : Bytes → Walk → Walk
marked key w = record w { visited = key ∷ w.visited }

abbrev pub gathered : ObjectClass → Walk → Walk
gathered oc w = record w {
  must_set = add_all oc.must w.must_set;
  may_set = add_all oc.may w.may_set;
}

unfoldable pub each : (Bytes → Walk → Walk) → List Bytes → Walk → Walk
each f [] w = w
each f (x ∷ xs) w = each f xs (f x w)

module _ (to_lower : Bytes → Bytes) where
  unfoldable pub index_names :
      ObjectClass → List Bytes → List (Bytes × ObjectClass) → List (Bytes × ObjectClass)
  index_names oc [] index = index
  index_names oc (n ∷ ns) index = index_names oc ns (put (to_lower n) oc index)

  unfoldable pub index_from :
      List ObjectClass → List (Bytes × ObjectClass) → List (Bytes × ObjectClass)
  unfolding index_names
  index_from [] index = index
  index_from (oc ∷ ocs) index = index_from ocs (index_names oc oc.names index)

  unfoldable pub new_schema : List ObjectClass → List (Bytes × ObjectClass)
  unfolding index_from
  new_schema classes = index_from classes []

  unfoldable pub object_class : List (Bytes × ObjectClass) → Bytes → Option ObjectClass
  object_class index name = lookup (to_lower name) index

  unfoldable pub visit : List (Bytes × ObjectClass) → ℕ → Bytes → Walk → Walk
  visit index zero name w = w
  visit index (suc n) name w =
      if has (to_lower name) w.visited then w else elim (lookup (to_lower name) index) [
        | none ↦ marked (to_lower name) w
        | some oc ↦ each (visit index n) oc.sup (gathered oc (marked (to_lower name) w))
      ]

  unfoldable pub visit_names : List (Bytes × ObjectClass) → List Bytes → Walk
  unfolding visit each
  visit_names index names = each (visit index (suc (length index))) names no_walk

  unfoldable pub effective_attributes :
      List (Bytes × ObjectClass) → List Bytes → List Bytes × List Bytes
  effective_attributes index names =
      let w = visit_names index names in
      (sorted_keys w.must_set, sorted_keys (retain (λ a. not (has a w.must_set)) w.may_set))
