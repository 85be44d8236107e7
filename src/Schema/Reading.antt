-- ===== src/Schema/Reading.antt =====
-- A printed class, and how its lists are read (ui/backend/internal/schema).
use ldapium.Prelude.{◌<◌, ◌≡◌, refl, ap, ◌∙◌, false, List, [], ◌∷◌, map, length, arith, All}
use ldapium.Prelude.Bytes.{Bytes, codes}
use ldapium.Prelude.Eq.{bytes_eq, nat_eq, ◌==◌}
use ldapium.Schema.{ok, then_do, oids_in_list, qdescrs_in_list}
use ldapium.Schema.Words.{IsInQuote}
use ldapium.Schema.Writing.{Piece, bare, in_quotes, closing, separator, text_of, IsWritable}

abbrev pub bare_of : Bytes → Piece
bare_of [] = in_quotes []
bare_of (c ∷ w) = bare c w

-- Lists in parentheses, before what follows: with `$` between the values, and without.
unfoldable pub others_before : List Bytes → List Piece → List Piece
others_before [] ps = closing ∷ ps
others_before (o ∷ os) ps = separator ∷ bare_of o ∷ others_before os ps

unfoldable pub oids_before : List Bytes → List Piece → List Piece
unfolding others_before
oids_before [] ps = closing ∷ ps
oids_before (o ∷ os) ps = bare_of o ∷ others_before os ps

unfoldable pub names_before : List Bytes → List Piece → List Piece
names_before [] ps = closing ∷ ps
names_before (q ∷ qs) ps = in_quotes q ∷ names_before qs ps

abbrev pub IsOid : Bytes → Type 0
IsOid o = IsWritable (bare_of o)

-- A name without quotes that is not a closing parenthesis, which would end the list.
abbrev pub IsName : Bytes → Type 0
IsName q = All IsInQuote q × ((q == codes ")") ≡ false)

oid_text : (o : Bytes) → text_of (bare_of o) ≡ o
oid_text [] = refl
oid_text (c ∷ w) = refl

oid_read :
    (o : Bytes) (ts : List Bytes)
    → IsOid o
    → oids_in_list (text_of (bare_of o) ∷ ts) ≡ then_do (oids_in_list ts) (λ r. ok (o ∷ r.0, r.1))
unfolding oids_in_list
oid_read [] ts a = refl
oid_read (c ∷ w) ts a = rw (not_closing, not_separator) refl
  where
    not_closing : (c ∷ w == codes ")") ≡ false
    not_closing = ground (arith, a.1)

    not_separator : (c ∷ w == codes "$") ≡ false
    not_separator = ground (arith, a.1)

others_read :
    (os : List Bytes) (ps : List Piece)
    → All IsOid os
    → oids_in_list (map text_of (others_before os ps)) ≡ ok (os, map text_of ps)
unfolding oids_in_list others_before then_do
others_read [] ps a = refl
others_read (o ∷ os) ps a =
    oid_read o (map text_of (others_before os ps)) a.0
    ∙ ap (λ r. then_do r (λ x. ok (o ∷ x.0, x.1))) (others_read os ps a.1)

pub oids_read :
    (os : List Bytes) (ps : List Piece)
    → All IsOid os
    → oids_in_list (map text_of (oids_before os ps)) ≡ ok (os, map text_of ps)
unfolding oids_in_list oids_before then_do
oids_read [] ps a = refl
oids_read (o ∷ os) ps a =
    oid_read o (map text_of (others_before os ps)) a.0
    ∙ ap (λ r. then_do r (λ x. ok (o ∷ x.0, x.1))) (others_read os ps a.1)

pub names_read :
    (qs : List Bytes) (ps : List Piece)
    → All IsName qs
    → qdescrs_in_list (map text_of (names_before qs ps)) ≡ ok (qs, map text_of ps)
unfolding qdescrs_in_list names_before then_do
names_read [] ps a = refl
names_read (q ∷ qs) ps a = rw ((a.0).1, names_read qs ps a.1) refl

-- Writability of the printed lists.
others-IsWritable :
    (os : List Bytes) (ps : List Piece)
    → All IsOid os
    → All IsWritable ps
    → All IsWritable (others_before os ps)
unfolding others_before
others-IsWritable [] ps a h = (tt, h)
others-IsWritable (o ∷ os) ps a h = (tt, (a.0, others-IsWritable os ps a.1 h))

pub oids-IsWritable :
    (os : List Bytes) (ps : List Piece)
    → All IsOid os
    → All IsWritable ps
    → All IsWritable (oids_before os ps)
unfolding oids_before
oids-IsWritable [] ps a h = (tt, h)
oids-IsWritable (o ∷ os) ps a h = (a.0, others-IsWritable os ps a.1 h)

pub names-IsWritable :
    (qs : List Bytes) (ps : List Piece)
    → All IsName qs
    → All IsWritable ps
    → All IsWritable (names_before qs ps)
unfolding names_before
names-IsWritable [] ps a h = (tt, h)
names-IsWritable (q ∷ qs) ps a h = ((a.0).0, names-IsWritable qs ps a.1 h)

pub names-length :
    (qs : List Bytes) (ps : List Piece)
    → length (map text_of ps) < length (map text_of (names_before qs ps))
unfolding names_before
names-length [] ps = omega arith
names-length (q ∷ qs) ps = omega (arith, names-length qs ps)

others-length :
    (os : List Bytes) (ps : List Piece)
    → length (map text_of ps) < length (map text_of (others_before os ps))
unfolding others_before
others-length [] ps = omega arith
others-length (o ∷ os) ps = omega (arith, others-length os ps)

pub oids-length :
    (os : List Bytes) (ps : List Piece)
    → length (map text_of ps) < length (map text_of (oids_before os ps))
unfolding oids_before
oids-length [] ps = omega arith
oids-length (o ∷ os) ps = omega (arith, others-length os ps)
