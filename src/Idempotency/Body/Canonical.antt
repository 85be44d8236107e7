-- ===== src/Idempotency/Body/Canonical.antt =====
-- Which bodies have one canonical form (ui/backend/internal/httpapi/idempotency.go).
use ldapium.Prelude.{◌≡◌, ◌≢◌, refl, sym, ap, subst, ◌∙◌, ◌↔◌, Bool-cases, inl, inr}
use ldapium.Prelude.Bytes.{Bytes}
use ldapium.Idempotency.Body.{
  Json, null, boolean, number, text, array, object, Items, no_items, item, Members, no_members,
  member, insert_member, canonical, canonical_items, canonical_members,
}
use ldapium.Idempotency.Body.Order.{less, less-ne, insert_member_comm}

-- The values that differ in the order of members only: two neighbours of different names may change
-- places, at any depth and as often as needed.
mutual
  pub data Same : Json → Json → Type 0 where
    itself : (v : Json) → Same v v
    via : {u v w : Json} → Same u v → Same v w → Same u w
    in_array : {vs ws : Items} → SameItems vs ws → Same (array vs) (array ws)
    in_object : {ms ns : Members} → SameMembers ms ns → Same (object ms) (object ns)

  pub data SameItems : Items → Items → Type 0 where
    no_more : SameItems no_items no_items
    each :
        {v w : Json} {vs ws : Items}
        → Same v w
        → SameItems vs ws
        → SameItems (item v vs) (item w ws)

  pub data SameMembers : Members → Members → Type 0 where
    ends : SameMembers no_members no_members
    keep :
        (k : Bytes) {v w : Json} {ms ns : Members}
        → Same v w
        → SameMembers ms ns
        → SameMembers (member k v ms) (member k w ns)
    swap :
        (j k : Bytes) (v w : Json) (ms : Members)
        → j ≢ k
        → SameMembers (member j v (member k w ms)) (member k w (member j v ms))
    and_then : {ms ns os : Members} → SameMembers ms ns → SameMembers ns os → SameMembers ms os

mutual
  unfolding canonical canonical_items canonical_members

  Same-canonical : {v w : Json} → Same v w → canonical v ≡ canonical w
  Same-canonical (itself v) = refl
  Same-canonical (via p q) = Same-canonical p ∙ Same-canonical q
  Same-canonical (in_array p) = ap (λ vs. array vs) (Same-canonical_items p)
  Same-canonical (in_object p) = ap (λ ms. object ms) (Same-canonical_members p)

  Same-canonical_items : {vs ws : Items} → SameItems vs ws → canonical_items vs ≡ canonical_items ws
  Same-canonical_items no_more = refl
  Same-canonical_items (each p q) = cc (Same-canonical p, Same-canonical_items q)

  Same-canonical_members :
      {ms ns : Members} → SameMembers ms ns → canonical_members ms ≡ canonical_members ns
  Same-canonical_members ends = refl
  Same-canonical_members (keep k p q) = cc (Same-canonical p, Same-canonical_members q)
  Same-canonical_members (swap j k v w ms n) =
      insert_member_comm j k (canonical v) (canonical w) (canonical_members ms) n
  Same-canonical_members (and_then p q) = Same-canonical_members p ∙ Same-canonical_members q

mutual
  Same-back : {v w : Json} → Same v w → Same w v
  Same-back (itself v) = itself v
  Same-back (via p q) = via (Same-back q) (Same-back p)
  Same-back (in_array p) = in_array (items_back p)
  Same-back (in_object p) = in_object (members_back p)

  items_back : {vs ws : Items} → SameItems vs ws → SameItems ws vs
  items_back no_more = no_more
  items_back (each p q) = each (Same-back p) (items_back q)

  members_back : {ms ns : Members} → SameMembers ms ns → SameMembers ns ms
  members_back ends = ends
  members_back (keep k p q) = keep k (Same-back p) (members_back q)
  members_back (swap j k v w ms n) = swap k j w v ms (λ e. n (sym e))
  members_back (and_then p q) = and_then (members_back q) (members_back p)

members_same : (ms : Members) → SameMembers ms ms
members_same no_members = ends
members_same (member k v ms) = keep k (itself v) (members_same ms)

insert_member-SameMembers :
    (j : Bytes) (v : Json) (ms : Members) → SameMembers (member j v ms) (insert_member j v ms)
unfolding insert_member
insert_member-SameMembers j v no_members = members_same _
insert_member-SameMembers j v (member k w ms) = elim (Bool-cases (less k j)) [
  | inl e ↦ rw e (
      and_then (swap j k v w ms (less-ne k j e))
        (keep k (itself w) (insert_member-SameMembers j v ms)))
  | inr e ↦ rw e (members_same _)
]

mutual
  unfolding canonical canonical_items canonical_members

  canonical-Same : (v : Json) → Same v (canonical v)
  canonical-Same null = itself null
  canonical-Same (boolean b) = itself (boolean b)
  canonical-Same (number n) = itself (number n)
  canonical-Same (text s) = itself (text s)
  canonical-Same (array vs) = in_array (canonical_items-SameItems vs)
  canonical-Same (object ms) = in_object (canonical_members-SameMembers ms)

  canonical_items-SameItems : (vs : Items) → SameItems vs (canonical_items vs)
  canonical_items-SameItems no_items = no_more
  canonical_items-SameItems (item v vs) = each (canonical-Same v) (canonical_items-SameItems vs)

  canonical_members-SameMembers : (ms : Members) → SameMembers ms (canonical_members ms)
  canonical_members-SameMembers no_members = ends
  canonical_members-SameMembers (member k v ms) =
      and_then (keep k (canonical-Same v) (canonical_members-SameMembers ms))
        (insert_member-SameMembers k (canonical v) (canonical_members ms))

-- Two bodies have one canonical form exactly when they are the same value up to the order of the
-- members of their objects, at any depth.
pub canonical_iff : (v w : Json) → (canonical v ≡ canonical w) ↔ Same v w
canonical_iff v w = (
  (λ e. via (subst (Same v) e (canonical-Same v)) (Same-back (canonical-Same w))),
  Same-canonical,
)
