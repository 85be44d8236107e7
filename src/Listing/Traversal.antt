-- ===== src/Listing/Traversal.antt =====
-- Following the last selected position page by page
-- (ui/backend/internal/ldapclient/page.go, ui/backend/internal/domain/page.go).
use ldapium.Prelude.{
  ℕ, zero, suc, ◌≤◌, ◌<◌, ◌≡◌, sym, ap, ◌∙◌, subst, Bool, Option, none, List, [], ◌++◌, arith, ltb,
  if◌then◌else◌, length, take, length-drop, take-append-drop, retain, Bool-cases, inl, inr,
}
use ldapium.Listing.{PagePosition, Candidate, new_selector, offer_all, result, last_position}
use ldapium.Listing.Distinct.{
  IsAscending, IsDistinct, sort_from-IsAscending, length-sort_from, tally-sort_from, past-none,
  apart_nil,
}
use ldapium.Listing.Sorting.{take_all, sort, past}
use ldapium.Listing.Selection.{head, selection_lem}
use ldapium.Listing.Past.{past-sort_from, past-last}

-- What a caller sees that asks for page after page, each time after the last position it was
-- given, until a page says there are no more. `fuel` is a number of pages.
unfoldable pub traverse : ℕ → ℕ → List Candidate → Option PagePosition → List Candidate
traverse zero limit cs after = []
traverse (suc fuel) limit cs after =
    let page = result (offer_all cs (new_selector limit after)) in
    let others = traverse fuel limit cs (last_position page.0) in
    if page.1 then page.0 ++ others else page.0

-- Dropping what is not past the cursor commutes with the insertion.
past-sort :
    (after : Option PagePosition) (cs : List Candidate)
    → sort (past after cs) ≡ past after (sort cs)
unfolding sort retain
past-sort after cs = sym (past-sort_from after cs [])

abbrev next_page : ℕ → ℕ → List Candidate → List Candidate × Bool → List Candidate
next_page fuel limit cs page =
    if page.1 then page.0 ++ traverse fuel limit cs (last_position page.0) else page.0

traverse_step :
    (fuel limit : ℕ) (cs : List Candidate) (after : Option PagePosition)
    → traverse (suc fuel) limit cs after
      ≡ next_page fuel limit cs (head limit (past after (sort cs)))
unfolding traverse
traverse_step fuel limit cs after =
    ap (next_page fuel limit cs)
      (selection_lem limit after cs ∙ ap (head limit) (past-sort after cs))

traverse_next :
    (fuel n : ℕ) (cs : List Candidate) (after : Option PagePosition)
    → IsAscending (sort cs)
    → n < length (past after (sort cs))
    → length (past after (sort cs)) ≤ suc fuel
    → length (past (last_position (take (suc n) (past after (sort cs)))) (sort cs)) ≤ fuel
traverse_next fuel n cs after s h f =
    subst (λ (l : List Candidate). length l ≤ fuel) (sym (past-last n after (sort cs) s h))
      (omega (arith, f, length-drop (suc n) (past after (sort cs))))

-- From any cursor on, the pages one after another hold every later candidate once, in order, if
-- there are as many pages as candidates.
traverse_from :
    (fuel limit : ℕ) (cs : List Candidate) (after : Option PagePosition)
    → IsAscending (sort cs)
    → length (past after (sort cs)) ≤ fuel
    → traverse fuel (suc limit) cs after ≡ past after (sort cs)
unfolding head traverse retain
traverse_from zero limit cs after s h = take_all 0 (past after (sort cs)) h
traverse_from (suc fuel) limit cs after s h =
    elim (Bool-cases (ltb (suc limit) (length (past after (sort cs))))) [
      | inl e ↦
          traverse_step fuel (suc limit) cs after
          ∙ rw e (
              ap (λ (l : List Candidate). take (suc limit) (past after (sort cs)) ++ l)
                (traverse_from fuel limit cs
                    (last_position (take (suc limit) (past after (sort cs)))) s
                    (traverse_next fuel limit cs after s (ground (arith, e)) h)
                  ∙ past-last limit after (sort cs) s (ground (arith, e)))
              ∙ take-append-drop (suc limit) (past after (sort cs)))
      | inr e ↦
          traverse_step fuel (suc limit) cs after
          ∙ rw e (take_all (suc limit) (past after (sort cs)) (ground (arith, e)))
    ]

traverse-sort :
    (limit : ℕ) (cs : List Candidate)
    → IsAscending (sort cs)
    → traverse (length cs) (suc limit) cs none ≡ sort cs
unfolding sort
traverse-sort limit cs s =
    subst (λ (l : List Candidate). traverse (length cs) (suc limit) cs none ≡ l)
      (past-none (sort cs))
      (traverse_from (length cs) limit cs none s (
        subst (λ (l : List Candidate). length l ≤ length cs) (sym (past-none (sort cs)))
          (omega (arith, length-sort_from cs []))))

tally-sort :
    (p : Candidate → Bool) (cs : List Candidate)
    → length (retain p (sort cs)) ≡ length (retain p cs)
unfolding sort retain
tally-sort p cs = omega (arith, tally-sort_from p cs [])

sort-IsAscending : (cs : List Candidate) → IsDistinct cs → IsAscending (sort cs)
unfolding sort
sort-IsAscending cs n = sort_from-IsAscending cs [] n (apart_nil cs) tt

-- Asking for page after page from the start, of any size from one on, until there are no more gives
-- the candidates in strictly ascending order of positions, and of the candidates with any property
-- as many as the scan has, when the scan's positions are distinct: as many pages as there are
-- candidates are enough.
pub traverse_lem :
    (limit : ℕ) (cs : List Candidate)
    → IsDistinct cs
    → IsAscending (traverse (length cs) (suc limit) cs none)
      × ((p : Candidate → Bool)
          → length (retain p (traverse (length cs) (suc limit) cs none)) ≡ length (retain p cs))
traverse_lem limit cs n =
    let same = sym (traverse-sort limit cs (sort-IsAscending cs n)) in
    (
      subst IsAscending same (sort-IsAscending cs n),
      (λ p. ap (λ (l : List Candidate). length (retain p l)) (sym same) ∙ tally-sort p cs),
    )
