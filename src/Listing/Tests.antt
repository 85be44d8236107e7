-- ===== src/Listing/Tests.antt =====
-- Runs of the listing and the witnesses of its theorems
-- (ui/backend/internal/ldapclient/page.go).
use ldapium.Prelude.{ℕ, ◌≡◌, ◌≢◌, refl, ap, arith, true, none, some, List, [], ◌∷◌, map}
use ldapium.Prelude.Bytes.{Bytes}
use ldapium.Prelude.Assoc.{lookup}
use ldapium.Prelude.{length, retain, Bool}
use ldapium.Listing.{
  last_position, PagePosition, Candidate, Entry, new_selector, offer_all, result, assemble_page,
  min_lower, compare_positions, compare_bytes, insert, root, rest, position_of,
}
use ldapium.Listing.Sorting.{sort, past}
use ldapium.Listing.Selection.{selection_lem, head}
use ldapium.Listing.Distinct.{IsDistinct, IsAscending}
use ldapium.Listing.Traversal.{traverse, traverse_lem}
use ldapium.Prelude.{all}
use ldapium.Prelude.Bytes.{codes}
use ldapium.Listing.Filters.{
  depth_after, is_no_paren, user_page_filter, group_page_filter, uuid_filter, filters_are_closed,
}
use ldapium.Listing.Assembly.{Follows, IsIncreasing, position, assemble_page-Follows}

abbrev at : ℕ → PagePosition
at n = record { key = n ∷ []; dn = n ∷ 9 ∷ [] }

abbrev candidate : ℕ → Candidate
candidate n = record { pos = at n; uuid = n ∷ [] }

abbrev scan : List Candidate
scan = candidate 4 ∷ candidate 2 ∷ candidate 5 ∷ candidate 3 ∷ candidate 1 ∷ []

abbrev same : Bytes → Bytes
same b = b

two_of_five :
    result (offer_all scan (new_selector 2 (some (at 1)))) ≡ (candidate 2 ∷ candidate 3 ∷ [], true)
unfolding offer_all result new_selector compare_positions insert root rest
two_of_five = refl

smallest : min_lower same ((3 ∷ []) ∷ (1 ∷ 7 ∷ []) ∷ (2 ∷ []) ∷ []) ≡ 1 ∷ 7 ∷ []
unfolding min_lower compare_bytes
smallest = refl

selection_lem_example :
    result (offer_all scan (new_selector 2 (some (at 1)))) ≡ head 2 (sort (past (some (at 1)) scan))
selection_lem_example = selection_lem 2 (some (at 1)) scan

abbrev few : List Candidate
few = candidate 4 ∷ candidate 2 ∷ candidate 3 ∷ []

at-apart : (n m : ℕ) → n ≢ m → at n ≢ at m
at-apart n m h e = ground (arith, h, ap (λ (p : PagePosition). p.key) e)

few-IsDistinct : IsDistinct few
few-IsDistinct = (
  (at-apart 4 2 (omega arith), (at-apart 4 3 (omega arith), tt)),
  ((at-apart 2 3 (omega arith), tt), (tt, tt)),
)

three_pages : traverse 3 1 few none ≡ candidate 2 ∷ candidate 3 ∷ candidate 4 ∷ []
unfolding traverse offer_all result new_selector compare_positions insert root rest last_position
three_pages = refl

traverse_lem_example :
    IsAscending (traverse 3 2 few none)
    × ((p : Candidate → Bool) → length (retain p (traverse 3 2 few none)) ≡ length (retain p few))
traverse_lem_example = traverse_lem 1 few few-IsDistinct

abbrev entry : ℕ → ℕ → Entry
entry n m = record { entry_dn = n ∷ 9 ∷ []; values = (m ∷ []) ∷ [] }

abbrev key_of : Entry → Bytes
key_of e = min_lower same e.values

-- The second entry is gone, the third has another key.
abbrev fetched : List (Bytes × Entry)
fetched = (1 ∷ [], entry 1 1) ∷ (3 ∷ [], entry 3 8) ∷ (4 ∷ [], entry 4 4) ∷ []

abbrev selected : List Candidate
selected = candidate 1 ∷ candidate 2 ∷ candidate 3 ∷ candidate 4 ∷ []

one_page : assemble_page same key_of selected fetched ≡ (entry 1 1 ∷ entry 4 4 ∷ [], some (at 4))
unfolding assemble_page min_lower lookup root position_of
one_page = refl

selected-IsAscending : IsAscending selected
unfolding compare_positions
selected-IsAscending = ((refl, (refl, (refl, tt))), ((refl, (refl, tt)), ((refl, tt), (tt, tt))))

assemble_page-Follows_example :
    Follows same key_of fetched selected (assemble_page same key_of selected fetched).0
    × IsIncreasing same key_of
        (map (position same key_of) (assemble_page same key_of selected fetched).0)
assemble_page-Follows_example =
    assemble_page-Follows same key_of selected fetched selected-IsAscending

-- Every byte is left out: no parenthesis is in what is left.
abbrev nothing_left : Bytes → Bytes
nothing_left q = []

no_parens : (q : Bytes) → all is_no_paren (nothing_left q) ≡ true
unfolding all
no_parens q = refl

filters_are_closed_example :
    (depth_after (user_page_filter nothing_left (codes ")(uid=*")) 0 ≡ some 0)
    × (depth_after (group_page_filter nothing_left (codes ")(uid=*")) 0 ≡ some 0)
    × (depth_after (uuid_filter nothing_left (codes "1" ∷ codes ")" ∷ [])) 0 ≡ some 0)
filters_are_closed_example =
    filters_are_closed nothing_left no_parens (codes ")(uid=*") (codes "1" ∷ codes ")" ∷ [])
