-- ===== src/Schema/Tests.antt =====
-- Runs of the schema reader and the witnesses of its theorems (ui/backend/internal/schema).
use ldapium.Prelude.{◌≡◌, refl, List, [], ◌∷◌, map, All}
use ldapium.Prelude.Bytes.{codes}
use ldapium.Prelude.Eq.{bytes_eq, nat_eq}
use ldapium.Schema.{
  ok, error, unterminated_quote, unrecognized, ObjectClass, structural, auxiliary, tokenize, word,
  quoted, parse_object_class,
}
use ldapium.Schema.Lexing.{Lexes, tokenize-Lexes}
use ldapium.Schema.Writing.{
  Piece, bare, in_quotes, opening, closing, separator, text_of, IsWritable, write, tokenize-write,
}
use ldapium.Schema.Printing.{IsPrintable, print_class, parse_object_class-print_class}

abbrev person : ObjectClass
person = record {
  oid = codes "2.5.6.6";
  names = codes "person" ∷ [];
  name = codes "person";
  sup = codes "top" ∷ [];
  must = codes "sn" ∷ codes "cn" ∷ [];
  may = [];
  kind = structural;
}

short_definition :
    parse_object_class (codes "(2.5.6.6 NAME 'person' SUP top MUST(sn$cn) X-ORIGIN ('RFC 2256'))")
    ≡ ok person
unfolding parse_object_class tokenize word quoted
short_definition = refl

left_open : tokenize (codes "( 'x )") ≡ error (unterminated_quote 2)
unfolding tokenize word quoted
left_open = refl

not_in_the_grammar :
    parse_object_class (codes "( 1 SYNTAX 2 )") ≡ error (unrecognized (codes "SYNTAX"))
unfolding parse_object_class tokenize word quoted
not_in_the_grammar = refl

tokenize-Lexes_example : Lexes 0 (codes "( 'a b' )") (tokenize (codes "( 'a b' )"))
tokenize-Lexes_example = tokenize-Lexes (codes "( 'a b' )")

abbrev pieces : List Piece
pieces = opening ∷ bare b'S' (codes "UP") ∷ in_quotes (codes "a $") ∷ separator ∷ closing ∷ []

pieces-IsWritable : All IsWritable pieces
pieces-IsWritable =
    (tt, ((refl, refl, (refl, (refl, tt))), ((refl, (refl, (refl, tt))), (tt, (tt, tt)))))

tokenize-write_example : tokenize (write pieces) ≡ ok (map text_of pieces)
tokenize-write_example = tokenize-write pieces pieces-IsWritable

abbrev small : ObjectClass
small = record {
  oid = codes "1.2";
  names = codes "a b" ∷ [];
  name = codes "a b";
  sup = codes "t" ∷ [];
  must = [];
  may = codes "x" ∷ codes "y" ∷ [];
  kind = auxiliary;
}

small-IsPrintable : IsPrintable small
small-IsPrintable = record {
  oid_is = (refl, refl, (refl, (refl, tt)));
  names_are = (((refl, (refl, (refl, tt))), refl), tt);
  sup_is = ((refl, refl, tt), tt);
  must_is = tt;
  may_is = ((refl, refl, tt), ((refl, refl, tt), tt));
  name_is = refl;
}

parse_object_class-print_class_example : parse_object_class (write (print_class small)) ≡ ok small
parse_object_class-print_class_example = parse_object_class-print_class small small-IsPrintable
