-- ===== src/Listing/Past.antt =====
-- The candidates past a position (ui/backend/internal/ldapclient/page.go).
use ldapium.Prelude.{
  ℕ, zero, suc, ◌<◌, ◌≡◌, refl, sym, ap, ◌∙◌, true, false, Option, none, some, List, [], ◌∷◌, arith,
  length, take, drop, retain, Bool-cases, inl, inr, All,
}
use ldapium.Listing.{PagePosition, Candidate, before, insert, root, is_past, last_position}
use ldapium.Listing.Order.{before_trans, before_irrefl}
use ldapium.Listing.Distinct.{IsAscending}
use ldapium.Listing.Sorting.{before_asym, sort_from, past}
use ldapium.Listing.Selection.{past_keep, past_drop}

past-further :
    (after : Option PagePosition) (p : PagePosition) (d : Candidate)
    → is_past after p ≡ true
    → before p d.pos ≡ true
    → is_past after d.pos ≡ true
past-further none p d h q = refl
past-further (some a) p d h q = before_trans a p d.pos h q

past-insert_keep :
    (after : Option PagePosition) (c : Candidate) (ds : List Candidate)
    → is_past after c.pos ≡ true
    → past after (insert c ds) ≡ insert c (past after ds)
unfolding insert retain
past-insert_keep after c [] h = rw h refl
past-insert_keep after c (d ∷ ds) h =
    ground (arith, h, past-further after c.pos d, past-insert_keep after c ds h)

past-insert_drop :
    (after : Option PagePosition) (c : Candidate) (ds : List Candidate)
    → is_past after c.pos ≡ false
    → past after (insert c ds) ≡ past after ds
unfolding insert retain
past-insert_drop after c [] h = rw h refl
past-insert_drop after c (d ∷ ds) h = ground (arith, h, past-insert_drop after c ds h)

pub past-sort_from :
    (after : Option PagePosition) (cs ds : List Candidate)
    → past after (sort_from ds cs) ≡ sort_from (past after ds) (past after cs)
unfolding sort_from retain
past-sort_from after [] ds = refl
past-sort_from after (c ∷ cs) ds = elim (Bool-cases (is_past after c.pos)) [
  | inl e ↦
      past-sort_from after cs (insert c ds)
      ∙ ap (λ (l : List Candidate). sort_from l (past after cs)) (past-insert_keep after c ds e)
      ∙ ap (sort_from (past after ds)) (sym (past_keep c after cs e))
  | inr e ↦
      past-sort_from after cs (insert c ds)
      ∙ ap (λ (l : List Candidate). sort_from l (past after cs)) (past-insert_drop after c ds e)
      ∙ ap (sort_from (past after ds)) (sym (past_drop c after cs e))
]

root_after :
    (p : PagePosition) (d : Candidate) (ds : List Candidate)
    → before p d.pos ≡ true
    → All (λ (e : Candidate). before p e.pos ≡ true) ds
    → (n : ℕ) → before p (root d (take n ds)).pos ≡ true
unfolding root
root_after p d ds h a zero = h
root_after p d [] h a (suc n) = h
root_after p d (e ∷ ds) h a (suc n) = root_after p e ds a.0 a.1 n

retain-All :
    (p : PagePosition) (ds : List Candidate)
    → All (λ (e : Candidate). before p e.pos ≡ true) ds
    → past (some p) ds ≡ ds
unfolding retain
retain-All p [] a = refl
retain-All p (d ∷ ds) a = rw (a.0) (ap (λ (l : List Candidate). d ∷ l) (retain-All p ds a.1))

-- Past the last position of a page are the candidates that follow the page.
past-root :
    (n : ℕ) (d : Candidate) (ds : List Candidate)
    → IsAscending (d ∷ ds)
    → past (some (root d (take n ds)).pos) (d ∷ ds) ≡ drop n ds
unfolding root retain
past-root zero d ds s = rw (before_irrefl d.pos) (retain-All d.pos ds s.0)
past-root (suc n) d [] s = rw (before_irrefl d.pos) refl
past-root (suc n) d (e ∷ ds) s =
    rw (before_asym d.pos (root e (take n ds)).pos (root_after d.pos e ds (s.0).0 (s.0).1 n))
      (past-root n e ds s.1)

-- The next page's candidates, from this page's.
past-past :
    (after : Option PagePosition) (p : PagePosition) (ds : List Candidate)
    → is_past after p ≡ true
    → past (some p) (past after ds) ≡ past (some p) ds
unfolding retain
past-past after p [] h = refl
past-past after p (d ∷ ds) h = ground (arith, h, past-past after p ds h, past-further after p d)

abbrev AllPast : Option PagePosition → List Candidate → Type 0
AllPast after ds = All (λ (e : Candidate). is_past after e.pos ≡ true) ds

past-AllPast : (after : Option PagePosition) (ds : List Candidate) → AllPast after (past after ds)
unfolding retain
past-AllPast after [] = tt
past-AllPast after (d ∷ ds) = elim (Bool-cases (is_past after d.pos)) [
  | inl e ↦ rw e (e, past-AllPast after ds)
  | inr e ↦ rw e (past-AllPast after ds)
]

All-past :
    (p : PagePosition) (after : Option PagePosition) (ds : List Candidate)
    → All (λ (e : Candidate). before p e.pos ≡ true) ds
    → All (λ (e : Candidate). before p e.pos ≡ true) (past after ds)
unfolding retain
All-past p after [] a = tt
All-past p after (d ∷ ds) a = elim (Bool-cases (is_past after d.pos)) [
  | inl e ↦ rw e (a.0, All-past p after ds a.1)
  | inr e ↦ rw e (All-past p after ds a.1)
]

past-IsAscending :
    (after : Option PagePosition) (ds : List Candidate)
    → IsAscending ds
    → IsAscending (past after ds)
unfolding retain
past-IsAscending after [] s = tt
past-IsAscending after (d ∷ ds) s = elim (Bool-cases (is_past after d.pos)) [
  | inl e ↦ rw e (All-past d.pos after ds s.0, past-IsAscending after ds s.1)
  | inr e ↦ rw e (past-IsAscending after ds s.1)
]

root_past :
    (after : Option PagePosition) (d : Candidate) (ds : List Candidate)
    → AllPast after (d ∷ ds)
    → (n : ℕ) → is_past after (root d (take n ds)).pos ≡ true
unfolding root
root_past after d ds a zero = a.0
root_past after d [] a (suc n) = a.0
root_past after d (e ∷ ds) a (suc n) = root_past after e ds a.1 n

past-last_of :
    (n : ℕ) (after : Option PagePosition) (page ds : List Candidate)
    → IsAscending page
    → AllPast after page
    → page ≡ past after ds
    → n < length page
    → past (last_position (take (suc n) page)) ds ≡ drop (suc n) page
unfolding last_position
past-last_of n after [] ds s a e h = ground (arith, h)
past-last_of n after (d ∷ page) ds s a e h =
    sym (past-past after (root d (take n page)).pos ds (root_past after d page a n))
    ∙ ap (past (some (root d (take n page)).pos)) (sym e)
    ∙ past-root n d page s

pub past-last :
    (n : ℕ) (after : Option PagePosition) (ds : List Candidate)
    → IsAscending ds
    → n < length (past after ds)
    → past (last_position (take (suc n) (past after ds))) ds ≡ drop (suc n) (past after ds)
past-last n after ds s h =
    past-last_of n after (past after ds) ds (past-IsAscending after ds s) (past-AllPast after ds)
      refl h
