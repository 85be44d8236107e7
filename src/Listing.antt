-- ===== src/Listing.antt =====
-- ui/backend/internal/ldapclient/page.go: the keyset listing's order, bounded selection and assembly
-- of a page. Texts are byte strings; `to_lower` is Go's `strings.ToLower`. Of the heap the code
-- uses only its root, a largest kept candidate: the kept candidates are listed in ascending order,
-- equal positions in the order of their arrival.
pub mod Order
pub mod Sorting
pub mod Selection
pub mod Distinct
pub mod Past
pub mod Traversal
pub mod Assembly
pub mod Filters
mod Tests
use Prim.Native.Nat.{compare, Ordering, lt, eq, gt}
use ldapium.Prelude.{
  ℕ, suc, ◌+◌, Bool, true, false, ◌&&◌, ◌||◌, not, Option, none, some, List, [], ◌∷◌, ◌++◌, map,
  ltb, leb, if◌then◌else◌, length, take, get_elem?,
}
use ldapium.Prelude.Bytes.{Bytes}
use ldapium.Prelude.Eq.{bytes_eq, ◌==◌}
use ldapium.Prelude.Assoc.{lookup}

pub record PagePosition : Type 0 where
  pub key : Bytes
  pub dn : Bytes

pub record Candidate : Type 0 where
  pub pos : PagePosition
  pub uuid : Bytes

-- `strings.Compare`.
unfoldable pub compare_bytes : Bytes → Bytes → Ordering
compare_bytes [] [] = eq
compare_bytes [] (y ∷ ys) = lt
compare_bytes (x ∷ xs) [] = gt
compare_bytes (x ∷ xs) (y ∷ ys) = elim (compare x y) [
  | lt ↦ lt
  | eq ↦ compare_bytes xs ys
  | gt ↦ gt
]

unfoldable pub compare_positions : PagePosition → PagePosition → Ordering
unfolding compare_bytes
compare_positions a b = elim (compare_bytes a.key b.key) [
  | eq ↦ compare_bytes a.dn b.dn
  | lt ↦ lt
  | gt ↦ gt
]

abbrev pub is_less : Ordering → Bool
is_less lt = true
is_less eq = false
is_less gt = false

-- comparePositions(a, b) < 0
abbrev pub before : PagePosition → PagePosition → Bool
before a b = is_less (compare_positions a b)

module _ (to_lower : Bytes → Bytes) where
  unfoldable pub min_lower_from : Bytes → List Bytes → Bytes
  min_lower_from best [] = best
  min_lower_from best (v ∷ vs) =
      min_lower_from (if is_less (compare_bytes (to_lower v) best) then to_lower v else best) vs

  -- The smallest value in lower case, "" if there is none: the sort key of a user or a group.
  unfoldable pub min_lower : List Bytes → Bytes
  unfolding min_lower_from
  min_lower [] = []
  min_lower (v ∷ vs) = min_lower_from (to_lower v) vs

  unfoldable pub position_of : Bytes → Bytes → PagePosition
  position_of key dn = record { key = to_lower key; dn = to_lower dn }

pub record Selector : Type 0 where
  pub limit : ℕ
  pub after : Option PagePosition
  pub kept : List Candidate

unfoldable pub new_selector : ℕ → Option PagePosition → Selector
new_selector limit after = record { limit = limit; after = after; kept = [] }

-- After every candidate that is not greater.
unfoldable pub insert : Candidate → List Candidate → List Candidate
insert c [] = c ∷ []
insert c (d ∷ ds) = if before c.pos d.pos then c ∷ d ∷ ds else d ∷ insert c ds

-- The root, and the rest.
unfoldable pub root : Candidate → List Candidate → Candidate
root d [] = d
root d (e ∷ ds) = root e ds

unfoldable pub rest : Candidate → List Candidate → List Candidate
rest d [] = []
rest d (e ∷ ds) = d ∷ rest e ds

-- comparePositions(c.pos, *s.after) <= 0
abbrev pub is_past : Option PagePosition → PagePosition → Bool
is_past none p = true
is_past (some a) p = before a p

unfoldable pub displace : Candidate → List Candidate → List Candidate
displace c [] = []
displace c (d ∷ ds) = if before c.pos (root d ds).pos then insert c (rest d ds) else d ∷ ds

unfoldable pub offer : Candidate → Selector → Selector
unfolding displace
offer c s =
    if not (is_past s.after c.pos)
    then s
    else if ltb (length s.kept) (suc s.limit)
    then record s { kept = insert c s.kept }
    else record s { kept = displace c s.kept }

unfoldable pub offer_all : List Candidate → Selector → Selector
unfolding offer
offer_all [] s = s
offer_all (c ∷ cs) s = offer_all cs (offer c s)

-- The selected candidates, and whether there are more.
unfoldable pub result : Selector → List Candidate × Bool
result s = if ltb s.limit (length s.kept) then (take s.limit s.kept, true) else (s.kept, false)

pub record Entry : Type 0 where
  pub entry_dn : Bytes
  pub values : List Bytes

-- The last position that was selected, emitted or not.
unfoldable pub last_position : List Candidate → Option PagePosition
last_position [] = none
last_position (c ∷ cs) = some (root c cs).pos

abbrev pub same_position : PagePosition → PagePosition → Bool
same_position a b = (a.key == b.key) && (a.dn == b.dn)

module _ (to_lower : Bytes → Bytes) (key_of : Entry → Bytes) where
  -- The loop of `assemblePage`.
  unfoldable pub emit : List Candidate → List (Bytes × Entry) → List Entry
  emit [] fetched = []
  emit (c ∷ cs) fetched =
      let more = emit cs fetched in
      elim (lookup c.uuid fetched) [
        | none ↦ more
        | some e ↦
            if same_position (position_of to_lower (key_of e) e.entry_dn) c.pos
            then e ∷ more
            else more
      ]

  unfoldable pub assemble_page :
      List Candidate → List (Bytes × Entry) → List Entry × Option PagePosition
  unfolding emit last_position
  assemble_page selected fetched = (emit selected fetched, last_position selected)
