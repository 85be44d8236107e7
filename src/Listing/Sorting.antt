-- ===== src/Listing/Sorting.antt =====
-- Sorted candidates, and what a displaced root leaves (ui/backend/internal/ldapclient/page.go).
use ldapium.Prelude.{
  ℕ, zero, suc, ◌≤◌, ◌≡◌, refl, sym, ap, subst, true, false, Option, List, [], ◌∷◌, arith, length,
  take, retain, Bool-cases, inl, inr,
}
use ldapium.Listing.{PagePosition, Candidate, before, insert, root, rest, is_past, displace}
use ldapium.Listing.Order.{before_trans, before_irrefl, before_total}

-- The specification: sort everything that is past the cursor.
unfoldable pub sort_from : List Candidate → List Candidate → List Candidate
sort_from sorted [] = sorted
sort_from sorted (c ∷ cs) = sort_from (insert c sorted) cs

unfoldable pub sort : List Candidate → List Candidate
unfolding sort_from
sort cs = sort_from [] cs

abbrev pub past : Option PagePosition → List Candidate → List Candidate
past after = retain (λ c. is_past after c.pos)

-- Nothing in the list is before the candidate; the list is in ascending order.
abbrev pub NoneBefore : Candidate → List Candidate → Type 0
NoneBefore d [] = Unit
NoneBefore d (e ∷ es) = (before e.pos d.pos ≡ false) × NoneBefore d es

abbrev pub IsSorted : List Candidate → Type 0
IsSorted [] = Unit
IsSorted (d ∷ ds) = NoneBefore d ds × IsSorted ds

NoneBefore-insert :
    (d c : Candidate) (ds : List Candidate)
    → before c.pos d.pos ≡ false
    → NoneBefore d ds
    → NoneBefore d (insert c ds)
unfolding insert
NoneBefore-insert d c [] h n = (h, tt)
NoneBefore-insert d c (e ∷ es) h n = ground (arith, h, n, NoneBefore-insert d c es h n.1)

NoneBefore-trans :
    (c d : Candidate) (ds : List Candidate)
    → before c.pos d.pos ≡ true
    → NoneBefore d ds
    → NoneBefore c ds
NoneBefore-trans c d [] h n = tt
NoneBefore-trans c d (e ∷ es) h n =
    (ground (arith, before_trans e.pos c.pos d.pos, h, n.0), NoneBefore-trans c d es h n.1)

pub before_asym : (a b : PagePosition) → before a b ≡ true → before b a ≡ false
before_asym a b h = ground (arith, before_trans a b a, before_irrefl a, h)

pub insert-IsSorted : (c : Candidate) (ds : List Candidate) → IsSorted ds → IsSorted (insert c ds)
unfolding insert
insert-IsSorted c [] s = (tt, tt)
insert-IsSorted c (d ∷ ds) s = elim (Bool-cases (before c.pos d.pos)) [
  | inl e ↦ rw e ((before_asym c.pos d.pos e, NoneBefore-trans c d ds e s.0), s)
  | inr e ↦ rw e (NoneBefore-insert d c ds e s.0, insert-IsSorted c ds s.1)
]

take-cons-take :
    (n : ℕ) (d : Candidate) (ds : List Candidate) → take n (d ∷ take n ds) ≡ take n (d ∷ ds)
take-cons-take zero d ds = refl
take-cons-take (suc zero) d ds = refl
take-cons-take (suc (suc n)) d [] = refl
take-cons-take (suc (suc n)) d (e ∷ ds) =
    ap (λ (l : List Candidate). d ∷ l) (take-cons-take (suc n) e ds)

-- Only the first entries matter for the first entries of an insertion.
pub take-insert :
    (n : ℕ) (c : Candidate) (ds : List Candidate)
    → take n (insert c (take n ds)) ≡ take n (insert c ds)
unfolding insert
take-insert zero c ds = refl
take-insert (suc n) c [] = refl
take-insert (suc n) c (d ∷ ds) = elim (Bool-cases (before c.pos d.pos)) [
  | inl e ↦ rw e (ap (λ (l : List Candidate). c ∷ l) (take-cons-take n d ds))
  | inr e ↦ rw e (ap (λ (l : List Candidate). d ∷ l) (take-insert n c ds))
]

rest_lem : (d : Candidate) (ds : List Candidate) → rest d ds ≡ take (length ds) (d ∷ ds)
unfolding rest
rest_lem d [] = refl
rest_lem d (e ∷ ds) = ap (λ (l : List Candidate). d ∷ l) (rest_lem e ds)

insert-rest :
    (c d : Candidate) (ds : List Candidate)
    → before c.pos (root d ds).pos ≡ true
    → insert c (rest d ds) ≡ take (length (d ∷ ds)) (insert c (d ∷ ds))
unfolding insert rest root
insert-rest c d [] h = rw h refl
insert-rest c d (e ∷ ds) h = elim (Bool-cases (before c.pos d.pos)) [
  | inl f ↦ rw f (ap (λ (l : List Candidate). c ∷ d ∷ l) (rest_lem e ds))
  | inr f ↦ rw f (ap (λ (l : List Candidate). d ∷ l) (insert-rest c e ds h))
]

root_last :
    (d e : Candidate) (ds : List Candidate)
    → before e.pos d.pos ≡ false
    → NoneBefore d ds
    → before (root e ds).pos d.pos ≡ false
unfolding root
root_last d e [] h n = h
root_last d e (f ∷ ds) h n = root_last d f ds n.0 n.1

-- What is not before the last entry is before none.
not_before :
    (c d : Candidate) (ds : List Candidate)
    → NoneBefore d ds
    → before c.pos (root d ds).pos ≡ false
    → before c.pos d.pos ≡ false
not_before c d ds n h = elim (Bool-cases (before (root d ds).pos c.pos)) [
  | inl e ↦
      ground (
        arith,
        root_last d d ds (before_irrefl d.pos) n,
        before_trans (root d ds).pos c.pos d.pos,
        e,
      )
  | inr e ↦
      subst (λ (p : PagePosition). before p d.pos ≡ false)
        (sym (before_total c.pos (root d ds).pos h e)) (root_last d d ds (before_irrefl d.pos) n)
]

insert_last :
    (c d : Candidate) (ds : List Candidate)
    → IsSorted (d ∷ ds)
    → before c.pos (root d ds).pos ≡ false
    → take (length (d ∷ ds)) (insert c (d ∷ ds)) ≡ d ∷ ds
unfolding insert root
insert_last c d [] s h = rw h refl
insert_last c d (e ∷ ds) s h =
    rw (not_before c d (e ∷ ds) s.0 h)
      (ap (λ (l : List Candidate). d ∷ l) (insert_last c e ds s.1 h))

pub displace_lem :
    (c d : Candidate) (ds : List Candidate)
    → IsSorted (d ∷ ds)
    → displace c (d ∷ ds) ≡ take (length (d ∷ ds)) (insert c (d ∷ ds))
unfolding displace
displace_lem c d ds s = elim (Bool-cases (before c.pos (root d ds).pos)) [
  | inl e ↦ rw e (insert-rest c d ds e)
  | inr e ↦ rw e (sym (insert_last c d ds s e))
]

pub take_all : (n : ℕ) (ds : List Candidate) → length ds ≤ n → take n ds ≡ ds
take_all zero [] h = refl
take_all zero (d ∷ ds) h = ground (arith, h)
take_all (suc n) [] h = refl
take_all (suc n) (d ∷ ds) h = ap (λ (l : List Candidate). d ∷ l) (take_all n ds (omega (arith, h)))

pub length-insert : (c : Candidate) (ds : List Candidate) → length (insert c ds) ≡ suc (length ds)
unfolding insert
length-insert c [] = refl
length-insert c (d ∷ ds) = ground (arith, length-insert c ds)

NoneBefore-take :
    (n : ℕ) (d : Candidate) (ds : List Candidate) → NoneBefore d ds → NoneBefore d (take n ds)
NoneBefore-take zero d ds h = tt
NoneBefore-take (suc n) d [] h = tt
NoneBefore-take (suc n) d (e ∷ ds) h = (h.0, NoneBefore-take n d ds h.1)

pub take-IsSorted : (n : ℕ) (ds : List Candidate) → IsSorted ds → IsSorted (take n ds)
take-IsSorted zero ds h = tt
take-IsSorted (suc n) [] h = tt
take-IsSorted (suc n) (d ∷ ds) h = (NoneBefore-take n d ds h.0, take-IsSorted n ds h.1)
