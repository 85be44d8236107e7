-- ===== src/Listing/Distinct.antt =====
-- Sorting candidates with distinct positions
-- (ui/backend/internal/ldapclient/page.go).
use ldapium.Prelude.{
  ◌+◌, ◌≡◌, ◌≢◌, refl, sym, ap, Bool, true, false, to_ℕ, none, List, [], ◌∷◌, arith, length, retain,
  Bool-cases, inl, inr, All,
}
use ldapium.Listing.{PagePosition, Candidate, before, insert}
use ldapium.Listing.Order.{before_trans, before_total}
use ldapium.Listing.Sorting.{sort_from, past, length-insert}

-- Strictly ascending: no two candidates have the same position.
abbrev pub IsAscending : List Candidate → Type 0
IsAscending [] = Unit
IsAscending (d ∷ ds) = All (λ (e : Candidate). before d.pos e.pos ≡ true) ds × IsAscending ds

-- No candidate of the list has the position.
abbrev pub IsApart : PagePosition → List Candidate → Type 0
IsApart p = All (λ (e : Candidate). p ≢ e.pos)

-- The positions of a scan are distinct, as the DNs of a directory are.
abbrev pub IsDistinct : List Candidate → Type 0
IsDistinct [] = Unit
IsDistinct (d ∷ ds) = IsApart d.pos ds × IsDistinct ds

abbrev pub AllApart : List Candidate → List Candidate → Type 0
AllApart ds = All (λ (c : Candidate). IsApart c.pos ds)

insert-IsApart :
    (p : PagePosition) (c : Candidate) (ds : List Candidate)
    → p ≢ c.pos
    → IsApart p ds
    → IsApart p (insert c ds)
unfolding insert
insert-IsApart p c [] n a = (n, tt)
insert-IsApart p c (d ∷ ds) n a = elim (Bool-cases (before c.pos d.pos)) [
  | inl e ↦ rw e (n, a)
  | inr e ↦ rw e (a.0, insert-IsApart p c ds n a.1)
]

insert-After :
    (p : PagePosition) (c : Candidate) (ds : List Candidate)
    → before p c.pos ≡ true
    → All (λ (e : Candidate). before p e.pos ≡ true) ds
    → All (λ (e : Candidate). before p e.pos ≡ true) (insert c ds)
unfolding insert
insert-After p c [] h a = (h, tt)
insert-After p c (d ∷ ds) h a = elim (Bool-cases (before c.pos d.pos)) [
  | inl e ↦ rw e (h, a)
  | inr e ↦ rw e (a.0, insert-After p c ds h a.1)
]

after_first :
    (p q : PagePosition) (ds : List Candidate)
    → before p q ≡ true
    → All (λ (e : Candidate). before q e.pos ≡ true) ds
    → All (λ (e : Candidate). before p e.pos ≡ true) ds
after_first p q [] h a = tt
after_first p q (d ∷ ds) h a = (before_trans p q d.pos h a.0, after_first p q ds h a.1)

before_apart : (p q : PagePosition) → p ≢ q → before p q ≡ false → before q p ≡ true
before_apart p q n h = elim (Bool-cases (before q p)) [
  | inl e ↦ e
  | inr e ↦ elim (n (before_total p q h e)) [ ]
]

insert-IsAscending :
    (c : Candidate) (ds : List Candidate)
    → IsApart c.pos ds
    → IsAscending ds
    → IsAscending (insert c ds)
unfolding insert
insert-IsAscending c [] a s = (tt, tt)
insert-IsAscending c (d ∷ ds) a s = elim (Bool-cases (before c.pos d.pos)) [
  | inl e ↦ rw e ((e, after_first c.pos d.pos ds e s.0), s)
  | inr e ↦ rw e (
    insert-After d.pos c ds (before_apart c.pos d.pos a.0 e) s.0,
    insert-IsAscending c ds a.1 s.1,
  )
]

insert-AllApart :
    (c : Candidate) (ds cs : List Candidate)
    → IsApart c.pos cs
    → AllApart ds cs
    → AllApart (insert c ds) cs
insert-AllApart c ds [] n a = tt
insert-AllApart c ds (e ∷ cs) n a =
    (insert-IsApart e.pos c ds (λ p. n.0 (sym p)) a.0, insert-AllApart c ds cs n.1 a.1)

pub sort_from-IsAscending :
    (cs ds : List Candidate)
    → IsDistinct cs
    → AllApart ds cs
    → IsAscending ds
    → IsAscending (sort_from ds cs)
unfolding sort_from
sort_from-IsAscending [] ds n a s = s
sort_from-IsAscending (c ∷ cs) ds n a s =
    sort_from-IsAscending cs (insert c ds) n.1 (insert-AllApart c ds cs n.0 a.1)
      (insert-IsAscending c ds a.0 s)

pub length-sort_from : (cs ds : List Candidate) → length (sort_from ds cs) ≡ length ds + length cs
unfolding sort_from
length-sort_from [] ds = omega arith
length-sort_from (c ∷ cs) ds = omega (arith, length-sort_from cs (insert c ds), length-insert c ds)

tally-insert :
    (p : Candidate → Bool) (c : Candidate) (ds : List Candidate)
    → length (retain p (insert c ds)) ≡ to_ℕ (p c) + length (retain p ds)
unfolding insert retain
tally-insert p c [] = ground arith
tally-insert p c (d ∷ ds) = ground (arith, tally-insert p c ds)

-- Sorting loses and repeats nothing.
pub tally-sort_from :
    (p : Candidate → Bool) (cs ds : List Candidate)
    → length (retain p (sort_from ds cs)) ≡ length (retain p ds) + length (retain p cs)
unfolding sort_from retain
tally-sort_from p [] ds = omega arith
tally-sort_from p (c ∷ cs) ds =
    ground (arith, tally-sort_from p cs (insert c ds), tally-insert p c ds)

pub apart_nil : (cs : List Candidate) → AllApart [] cs
apart_nil [] = tt
apart_nil (c ∷ cs) = (tt, apart_nil cs)

pub past-none : (cs : List Candidate) → past none cs ≡ cs
unfolding retain
past-none [] = refl
past-none (c ∷ cs) = ap (λ (l : List Candidate). c ∷ l) (past-none cs)
