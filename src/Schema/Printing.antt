-- ===== src/Schema/Printing.antt =====
-- A printed class is parsed back (ui/backend/internal/schema/objectclass.go).
use ldapium.Prelude.{
  ℕ, suc, ◌-◌, ◌≤◌, ◌≡◌, refl, sym, ap, ◌∙◌, subst, List, [], ◌∷◌, map, length, arith, All,
}
use ldapium.Prelude.Bytes.{Bytes, codes}
use ldapium.Prelude.Eq.{bytes_eq, nat_eq}
use ldapium.Schema.{
  ok, then_do, read_oids, read_qdescrs, ObjectClass, ClassKind, structural, auxiliary, abstract,
  new_class, first_name, clause, parse_clauses, parse_body, parse_object_class, expect,
}
use ldapium.Schema.Writing.{
  Piece, bare, opening, closing, text_of, IsWritable, write, tokenize-write,
}
use ldapium.Schema.Reading.{
  bare_of, oids_before, names_before, IsOid, IsName, oids_read, names_read, oids-IsWritable,
  names-IsWritable, names-length, oids-length,
}

abbrev kind_word : ClassKind → Piece
kind_word structural = bare b'S' (codes "TRUCTURAL")
kind_word auxiliary = bare b'A' (codes "UXILIARY")
kind_word abstract = bare b'A' (codes "BSTRACT")

-- The clauses after each other, the last first.
abbrev may_clause : ObjectClass → List Piece
may_clause oc = bare b'M' (codes "AY") ∷ opening ∷ oids_before oc.may (closing ∷ [])

abbrev must_clause : ObjectClass → List Piece
must_clause oc = bare b'M' (codes "UST") ∷ opening ∷ oids_before oc.must (may_clause oc)

abbrev sup_clause : ObjectClass → List Piece
sup_clause oc =
    bare b'S' (codes "UP") ∷ opening ∷ oids_before oc.sup (kind_word oc.kind ∷ must_clause oc)

abbrev names_clause : ObjectClass → List Piece
names_clause oc = bare b'N' (codes "AME") ∷ opening ∷ names_before oc.names (sup_clause oc)

-- ( OID NAME ( 'a' 'b' ) SUP ( c $ d ) KIND MUST ( e ) MAY ( f ) )
abbrev pub print_class : ObjectClass → List Piece
print_class oc = opening ∷ bare_of oc.oid ∷ names_clause oc

-- The texts can be written, and the name is the first of the names.
pub record IsPrintable (oc : ObjectClass) : Type 0 where
  pub oid_is : IsOid oc.oid
  pub names_are : All IsName oc.names
  pub sup_is : All IsOid oc.sup
  pub must_is : All IsOid oc.must
  pub may_is : All IsOid oc.may
  pub name_is : oc.name ≡ first_name oc.names []

keyword_n : IsWritable (bare b'N' (codes "AME"))
keyword_n = (refl, refl, (refl, (refl, (refl, tt))))

keyword_s : IsWritable (bare b'S' (codes "UP"))
keyword_s = (refl, refl, (refl, (refl, tt)))

keyword_m : IsWritable (bare b'M' (codes "UST"))
keyword_m = (refl, refl, (refl, (refl, (refl, tt))))

keyword_a : IsWritable (bare b'M' (codes "AY"))
keyword_a = (refl, refl, (refl, (refl, tt)))

kind_is : (k : ClassKind) → IsWritable (kind_word k)
kind_is structural =
    (refl, refl, (refl, (refl, (refl, (refl, (refl, (refl, (refl, (refl, (refl, tt))))))))))
kind_is auxiliary = (refl, refl, (refl, (refl, (refl, (refl, (refl, (refl, (refl, (refl, tt)))))))))
kind_is abstract = (refl, refl, (refl, (refl, (refl, (refl, (refl, (refl, (refl, tt))))))))

read_names :
    (n : ℕ) (oc : ObjectClass) (qs : List Bytes) (ps : List Piece)
    → All IsName qs
    → parse_clauses (suc n) oc (codes "NAME" ∷ codes "(" ∷ map text_of (names_before qs ps))
      ≡ parse_clauses n (record oc { names = qs }) (map text_of ps)
unfolding parse_clauses clause read_qdescrs then_do
read_names n oc qs ps a = rw (names_read qs ps a) refl

read_sup :
    (n : ℕ) (oc : ObjectClass) (os : List Bytes) (ps : List Piece)
    → All IsOid os
    → parse_clauses (suc n) oc (codes "SUP" ∷ codes "(" ∷ map text_of (oids_before os ps))
      ≡ parse_clauses n (record oc { sup = os }) (map text_of ps)
unfolding parse_clauses clause read_oids then_do
read_sup n oc os ps a = rw (oids_read os ps a) refl

read_must :
    (n : ℕ) (oc : ObjectClass) (os : List Bytes) (ps : List Piece)
    → All IsOid os
    → parse_clauses (suc n) oc (codes "MUST" ∷ codes "(" ∷ map text_of (oids_before os ps))
      ≡ parse_clauses n (record oc { must = os }) (map text_of ps)
unfolding parse_clauses clause read_oids then_do
read_must n oc os ps a = rw (oids_read os ps a) refl

read_may :
    (n : ℕ) (oc : ObjectClass) (os : List Bytes) (ps : List Piece)
    → All IsOid os
    → parse_clauses (suc n) oc (codes "MAY" ∷ codes "(" ∷ map text_of (oids_before os ps))
      ≡ parse_clauses n (record oc { may = os }) (map text_of ps)
unfolding parse_clauses clause read_oids then_do
read_may n oc os ps a = rw (oids_read os ps a) refl

read_kind :
    (n : ℕ) (oc : ObjectClass) (k : ClassKind) (ts : List Bytes)
    → parse_clauses (suc n) oc (text_of (kind_word k) ∷ ts)
      ≡ parse_clauses n (record oc { kind = k }) ts
unfolding parse_clauses clause then_do
read_kind n oc structural ts = refl
read_kind n oc auxiliary ts = refl
read_kind n oc abstract ts = refl

read_end :
    (n : ℕ) (oc : ObjectClass)
    → parse_clauses (suc n) oc (codes ")" ∷ [])
      ≡ ok (record oc { name = first_name oc.names oc.name })
unfolding parse_clauses clause then_do
read_end n oc = refl

-- The class after each clause.
abbrev with_names : ObjectClass → ObjectClass
with_names oc = record (new_class oc.oid) { names = oc.names }

abbrev with_sup : ObjectClass → ObjectClass
with_sup oc = record (with_names oc) { sup = oc.sup }

abbrev with_kind : ObjectClass → ObjectClass
with_kind oc = record (with_sup oc) { kind = oc.kind }

abbrev with_must : ObjectClass → ObjectClass
with_must oc = record (with_kind oc) { must = oc.must }

abbrev with_may : ObjectClass → ObjectClass
with_may oc = record (with_must oc) { may = oc.may }

read_clauses :
    (m : ℕ) (oc : ObjectClass)
    → IsPrintable oc
    → parse_clauses
        (suc (suc (suc (suc (suc (suc m))))))
        (new_class oc.oid)
        (map text_of (names_clause oc))
      ≡ ok oc
read_clauses m oc p =
    read_names (suc (suc (suc (suc (suc m))))) (new_class oc.oid) oc.names (sup_clause oc)
      p.names_are
    ∙ read_sup (suc (suc (suc (suc m)))) (with_names oc) oc.sup (kind_word oc.kind ∷ must_clause oc)
        p.sup_is
    ∙ read_kind (suc (suc (suc m))) (with_sup oc) oc.kind (map text_of (must_clause oc))
    ∙ read_must (suc (suc m)) (with_kind oc) oc.must (may_clause oc) p.must_is
    ∙ read_may (suc m) (with_must oc) oc.may (closing ∷ []) p.may_is
    ∙ read_end m (with_may oc)
    ∙ ap (λ (n : Bytes). ok (record oc { name = n })) (sym p.name_is)

six_clauses : (oc : ObjectClass) → 6 ≤ length (map text_of (names_clause oc))
six_clauses oc = omega (
  arith,
  names-length oc.names (sup_clause oc),
  oids-length oc.sup (kind_word oc.kind ∷ must_clause oc),
  oids-length oc.must (may_clause oc),
)

read_body :
    (oc : ObjectClass)
    → IsPrintable oc
    → parse_clauses
        (length (map text_of (names_clause oc)))
        (new_class oc.oid)
        (map text_of (names_clause oc))
      ≡ ok oc
read_body oc p =
    let n = length (map text_of (names_clause oc)) in
    let e : suc (suc (suc (suc (suc (suc (n - 6)))))) ≡ n = omega (arith, six_clauses oc) in
    subst (λ (k : ℕ). parse_clauses k (new_class oc.oid) (map text_of (names_clause oc)) ≡ ok oc) e
      (read_clauses (n - 6) oc p)

print_class-IsWritable : (oc : ObjectClass) → IsPrintable oc → All IsWritable (print_class oc)
print_class-IsWritable oc p =
    let may : All IsWritable (may_clause oc) =
      (keyword_a, (tt, oids-IsWritable oc.may (closing ∷ []) p.may_is (tt, tt))) in
    let must : All IsWritable (must_clause oc) =
      (keyword_m, (tt, oids-IsWritable oc.must (may_clause oc) p.must_is may)) in
    let sup : All IsWritable (sup_clause oc) = (
      keyword_s,
      (
        tt,
        oids-IsWritable oc.sup (kind_word oc.kind ∷ must_clause oc) p.sup_is
            (kind_is oc.kind, must),
      ),
    ) in
    (tt, (p.oid_is, (keyword_n, (tt, names-IsWritable oc.names (sup_clause oc) p.names_are sup))))

oid_text : (o : Bytes) → text_of (bare_of o) ≡ o
oid_text [] = refl
oid_text (c ∷ w) = refl

parse_printed :
    (oc : ObjectClass)
    → IsPrintable oc
    → parse_body (map text_of (bare_of oc.oid ∷ names_clause oc)) ≡ ok oc
unfolding parse_body
parse_printed oc p =
    ap
      (λ (o : Bytes).
        parse_clauses (length (map text_of (names_clause oc))) (new_class o)
          (map text_of (names_clause oc)))
      (oid_text oc.oid)
    ∙ read_body oc p

expected_opening :
    (ts : List Bytes) → then_do (expect (codes "(") (codes "(" ∷ ts)) parse_body ≡ parse_body ts
unfolding expect then_do
expected_opening ts = refl

-- A class is printed with all its clauses and parsed back to itself, whatever its names and lists:
-- when its first name is its name, its lists and its identifier are bare words, and no name has a
-- quote or is a closing parenthesis.
pub parse_object_class-print_class :
    (oc : ObjectClass) → IsPrintable oc → parse_object_class (write (print_class oc)) ≡ ok oc
unfolding parse_object_class then_do
parse_object_class-print_class oc p =
    ap (λ r. then_do r (λ tokens. then_do (expect (codes "(") tokens) parse_body))
      (tokenize-write (print_class oc) (print_class-IsWritable oc p))
    ∙ expected_opening (map text_of (bare_of oc.oid ∷ names_clause oc))
    ∙ parse_printed oc p
