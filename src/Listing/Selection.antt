-- ===== src/Listing/Selection.antt =====
-- The bounded selection is the head of the sorted candidates after the cursor
-- (ui/backend/internal/ldapclient/page.go).
use ldapium.Prelude.{
  ℕ, zero, suc, ◌<◌, ◌≡◌, refl, sym, ap, ◌∙◌, subst, Bool, true, false, Option, List, [], ◌∷◌,
  arith, ltb, length, take, length-take, retain, Bool-cases, inl, inr,
}
use ldapium.Listing.{
  PagePosition, Candidate, Selector, insert, is_past, displace, new_selector, offer, offer_all,
  result,
}
use ldapium.Listing.Sorting.{
  sort_from, sort, past, IsSorted, insert-IsSorted, take-insert, displace_lem, take_all,
  length-insert, take-IsSorted,
}

-- The kept candidates stay the first of the sorted ones.
keep_few :
    (c : Candidate) (n : ℕ) (sorted : List Candidate)
    → length (take n sorted) < n
    → insert c (take n sorted) ≡ take n (insert c sorted)
keep_few c n sorted h =
    subst (λ (l : List Candidate). insert c l ≡ take n (insert c sorted))
      (sym (take_all n sorted (omega (arith, h, length-take n sorted))))
      (sym (
        take_all n (insert c sorted)
          (omega (arith, h, length-take n sorted, length-insert c sorted))))

displace_full :
    (c : Candidate) (n : ℕ) (kept : List Candidate)
    → IsSorted kept
    → length kept ≡ suc n
    → displace c kept ≡ take (suc n) (insert c kept)
displace_full c n [] s h = ground (arith, h)
displace_full c n (d ∷ ds) s h =
    subst (λ (k : ℕ). displace c (d ∷ ds) ≡ take k (insert c (d ∷ ds))) h (displace_lem c d ds s)

keep_full :
    (c : Candidate) (n : ℕ) (sorted : List Candidate)
    → IsSorted sorted
    → length (take (suc n) sorted) ≡ suc n
    → displace c (take (suc n) sorted) ≡ take (suc n) (insert c sorted)
keep_full c n sorted s h =
    displace_full c n (take (suc n) sorted) (take-IsSorted (suc n) sorted s) h
    ∙ take-insert (suc n) c sorted

abbrev selector : ℕ → Option PagePosition → List Candidate → Selector
selector limit after kept = record { limit = limit; after = after; kept = kept }

keep_one :
    (c : Candidate) (limit : ℕ) (after : Option PagePosition) (sorted : List Candidate)
    → IsSorted sorted
    → is_past after c.pos ≡ true
    → offer c (selector limit after (take (suc limit) sorted))
      ≡ selector limit after (take (suc limit) (insert c sorted))
unfolding offer
keep_one c limit after sorted s h =
    elim (Bool-cases (ltb (length (take (suc limit) sorted)) (suc limit))) [
      | inl e ↦
          rw (h, e) (ap (selector limit after) (keep_few c (suc limit) sorted (ground (arith, e))))
      | inr e ↦
          rw (h, e)
            (ap (selector limit after)
              (keep_full c limit sorted s (ground (arith, e, length-take (suc limit) sorted))))
    ]

drop_one :
    (c : Candidate) (limit : ℕ) (after : Option PagePosition) (kept : List Candidate)
    → is_past after c.pos ≡ false
    → offer c (selector limit after kept) ≡ selector limit after kept
unfolding offer
drop_one c limit after kept h = rw h refl

pub past_keep :
    (c : Candidate) (after : Option PagePosition) (cs : List Candidate)
    → is_past after c.pos ≡ true
    → past after (c ∷ cs) ≡ c ∷ past after cs
unfolding retain
past_keep c after cs h = rw h refl

pub past_drop :
    (c : Candidate) (after : Option PagePosition) (cs : List Candidate)
    → is_past after c.pos ≡ false
    → past after (c ∷ cs) ≡ past after cs
unfolding retain
past_drop c after cs h = rw h refl

offer_all_lem :
    (cs : List Candidate) (limit : ℕ) (after : Option PagePosition) (sorted : List Candidate)
    → IsSorted sorted
    → offer_all cs (selector limit after (take (suc limit) sorted))
      ≡ selector limit after (take (suc limit) (sort_from sorted (past after cs)))
unfolding offer_all sort_from retain
offer_all_lem [] limit after sorted s = refl
offer_all_lem (c ∷ cs) limit after sorted s = elim (Bool-cases (is_past after c.pos)) [
  | inl e ↦
      ap (offer_all cs) (keep_one c limit after sorted s e)
      ∙ offer_all_lem cs limit after (insert c sorted) (insert-IsSorted c sorted s)
      ∙ ap (λ (l : List Candidate). selector limit after (take (suc limit) (sort_from sorted l)))
          (sym (past_keep c after cs e))
  | inr e ↦
      ap (offer_all cs) (drop_one c limit after (take (suc limit) sorted) e)
      ∙ offer_all_lem cs limit after sorted s
      ∙ ap (λ (l : List Candidate). selector limit after (take (suc limit) (sort_from sorted l)))
          (sym (past_drop c after cs e))
]

-- The first `limit` candidates, and whether there are more, of a sorted list.
unfoldable pub head : ℕ → List Candidate → List Candidate × Bool
head limit sorted = (take limit sorted, ltb limit (length sorted))

take-suc : (n : ℕ) (ds : List Candidate) → take n (take (suc n) ds) ≡ take n ds
take-suc zero ds = refl
take-suc (suc n) [] = refl
take-suc (suc n) (d ∷ ds) = ap (λ (l : List Candidate). d ∷ l) (take-suc n ds)

result_test :
    (limit : ℕ) (sorted : List Candidate)
    → ltb limit (length (take (suc limit) sorted)) ≡ ltb limit (length sorted)
result_test limit sorted = ground (arith, length-take (suc limit) sorted)

result_lem :
    (limit : ℕ) (after : Option PagePosition) (sorted : List Candidate)
    → result (selector limit after (take (suc limit) sorted)) ≡ head limit sorted
unfolding result head
result_lem limit after sorted = elim (Bool-cases (ltb limit (length sorted))) [
  | inl e ↦
      rw (result_test limit sorted, e)
        (ap (λ (l : List Candidate). (l, true)) (take-suc limit sorted))
  | inr e ↦
      rw (result_test limit sorted, e)
        (ap (λ (l : List Candidate). (l, false))
          (take_all (suc limit) sorted (ground (arith, e))
            ∙ sym (take_all limit sorted (ground (arith, e)))))
]

-- `offer` on every candidate of a scan, then `result`, gives the first `limit` of the sorted
-- candidates that are past the cursor, in order, and says exactly whether there are more.
pub selection_lem :
    (limit : ℕ) (after : Option PagePosition) (cs : List Candidate)
    → result (offer_all cs (new_selector limit after)) ≡ head limit (sort (past after cs))
unfolding new_selector sort
selection_lem limit after cs =
    ap result (offer_all_lem cs limit after [] tt)
    ∙ result_lem limit after (sort_from [] (past after cs))
