-- ===== src/Schema/Effective/Tests.antt =====
-- Runs of EffectiveAttributes and the witness of its theorem
-- (ui/backend/internal/schema/objectclass.go).
use ldapium.Prelude.{◌≡◌, refl, ◌↔◌, true, false, some, List, [], ◌∷◌, retain}
use ldapium.Prelude.Bytes.{Bytes, codes}
use ldapium.Prelude.Eq.{bytes_eq}
use ldapium.Prelude.Assoc.{lookup, put}
use ldapium.Listing.{compare_bytes}
use ldapium.Schema.{ObjectClass, structural}
use ldapium.Schema.Effective.{
  has, effective_attributes, new_schema, visit_names, sorted_keys, add_all, object_class,
}
use ldapium.Schema.Effective.Sources.{IsRequired, IsOffered, effective_attributes_lem}

abbrev same : Bytes → Bytes
same b = b

-- Two classes that inherit from each other.
abbrev first : ObjectClass
first = record {
  oid = codes "1";
  names = codes "a" ∷ [];
  name = codes "a";
  sup = codes "b" ∷ [];
  must = codes "x" ∷ [];
  may = codes "z" ∷ [];
  kind = structural;
}

abbrev second : ObjectClass
second = record {
  oid = codes "2";
  names = codes "b" ∷ codes "c" ∷ [];
  name = codes "b";
  sup = codes "a" ∷ codes "unknown" ∷ [];
  must = codes "z" ∷ [];
  may = codes "y" ∷ [];
  kind = structural;
}

abbrev index : List (Bytes × ObjectClass)
index = (codes "a", first) ∷ (codes "b", second) ∷ (codes "c", second) ∷ []

is_index : new_schema same (first ∷ second ∷ []) ≡ index
unfolding new_schema put
is_index = refl

by_other_name : object_class same index (codes "c") ≡ some second
unfolding object_class lookup
by_other_name = refl

through_a_loop :
    effective_attributes same index (codes "c" ∷ []) ≡ (codes "x" ∷ codes "z" ∷ [], codes "y" ∷ [])
unfolding effective_attributes visit_names sorted_keys add_all has lookup retain compare_bytes
through_a_loop = refl

effective_attributes_lem_example :
    ((has (codes "z") (effective_attributes same index (codes "c" ∷ [])).0 ≡ true)
      ↔ IsRequired same index (codes "c" ∷ []) (codes "z"))
    × ((has (codes "z") (effective_attributes same index (codes "c" ∷ [])).1 ≡ true) ↔ (
        IsOffered same index (codes "c" ∷ []) (codes "z")
        × (has (codes "z") (effective_attributes same index (codes "c" ∷ [])).0 ≡ false)))
effective_attributes_lem_example = effective_attributes_lem same index (codes "c" ∷ []) (codes "z")
