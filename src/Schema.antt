-- ===== src/Schema.antt =====
-- ui/backend/internal/schema: the tokenizer of RFC 4512 definitions (tokenize.go) and
-- ParseObjectClass (objectclass.go). Texts are bytes. A cursor is the list of the tokens that are
-- left. The outer loops take fuel, the length of what they read.
pub mod Words
pub mod Tokens
pub mod Lexing
pub mod Writing
pub mod Reading
pub mod Printing
pub mod Effective
mod Tests
use ldapium.Prelude.{
  ℕ, zero, suc, ◌+◌, Bool, true, false, ◌&&◌, ◌||◌, not, Option, none, some, List, [], ◌∷◌, ◌++◌,
  String, if◌then◌else◌, length, take,
}
use ldapium.Prelude.Bytes.{Bytes, codes}
use ldapium.Prelude.Eq.{bytes_eq, nat_eq, ◌==◌}

-- The code's errors.
pub data SchemaError : Type 0 where
  unterminated_quote : ℕ → SchemaError
  expected : Bytes → Option Bytes → SchemaError
  missing_value : SchemaError
  unterminated_list : SchemaError
  missing_oid : SchemaError
  missing_paren : SchemaError
  unrecognized : Bytes → SchemaError

pub data Result {ℓ} (A : Type ℓ) : Type ℓ where
  ok : A → Result A
  error : SchemaError → Result A

-- What follows a result that is not an error.
unfoldable pub then_do {ℓ κ} : {A : Type ℓ} {B : Type κ} → Result A → (A → Result B) → Result B
then_do (ok a) f = f a
then_do (error e) f = error e

abbrev pub is_space : ℕ → Bool
is_space c = (c == b' ') || (c == 9) || (c == 10) || (c == 13)

abbrev pub is_punctuation : ℕ → Bool
is_punctuation c = (c == b'(') || (c == b')') || (c == b'$')

abbrev pub apostrophe : ℕ
apostrophe = 39

-- The inner loop of a bare word: the word, and what is left.
unfoldable pub word : Bytes → Bytes × Bytes
word [] = ([], [])
word (c ∷ s) =
    let more = word s in
    if is_space c || is_punctuation c then ([], c ∷ s) else (c ∷ more.0, more.1)

-- The inner loop of a quoted string: its text, and what is left after the closing quote.
unfoldable pub quoted : Bytes → Option (Bytes × Bytes)
quoted [] = none
quoted (c ∷ s) =
    let more = quoted s in
    if c == apostrophe
    then some ([], s)
    else elim more [ none ↦ none | some (t, r) ↦ some (c ∷ t, r) ]

abbrev pub with_token : Bytes → Result (List Bytes) → Result (List Bytes)
with_token t (ok ts) = ok (t ∷ ts)
with_token t (error e) = error e

-- From byte i on.
unfoldable pub tokenize_from : ℕ → ℕ → Bytes → Result (List Bytes)
tokenize_from zero i s = ok []
tokenize_from (suc n) i [] = ok []
tokenize_from (suc n) i (c ∷ s) = elim (is_space c) [
  | true ↦ tokenize_from n (suc i) s
  | false ↦ elim (is_punctuation c) [
    | true ↦ with_token (c ∷ []) (tokenize_from n (suc i) s)
    | false ↦ elim (c == apostrophe) [
      | true ↦ elim (quoted s) [
        | none ↦ error (unterminated_quote i)
        | some (t, r) ↦ with_token t (tokenize_from n (i + length t + 2) r)
      ]
      | false ↦
          with_token (word (c ∷ s)).0
            (tokenize_from n (i + length (word (c ∷ s)).0) (word (c ∷ s)).1)
    ]
  ]
]

unfoldable pub tokenize : Bytes → Result (List Bytes)
unfolding tokenize_from
tokenize s = tokenize_from (length s) 0 s

unfoldable pub expect : Bytes → List Bytes → Result (List Bytes)
expect want [] = error (expected want none)
expect want (t ∷ ts) = if t == want then ok ts else error (expected want (some t))

-- The loop of `readOids` inside the parentheses.
unfoldable pub oids_in_list : List Bytes → Result (List Bytes × List Bytes)
oids_in_list [] = error unterminated_list
oids_in_list (v ∷ ts) =
    let more = oids_in_list ts in
    if v == codes ")"
    then ok ([], ts)
    else if v == codes "$"
    then more
    else then_do more (λ r. ok (v ∷ r.0, r.1))

unfoldable pub read_oids : List Bytes → Result (List Bytes × List Bytes)
unfolding oids_in_list
read_oids [] = error missing_value
read_oids (t ∷ ts) = if not (t == codes "(") then ok (t ∷ [], ts) else oids_in_list ts

-- The loop of `readQDescrs`: without a separator.
unfoldable pub qdescrs_in_list : List Bytes → Result (List Bytes × List Bytes)
qdescrs_in_list [] = error unterminated_list
qdescrs_in_list (v ∷ ts) =
    let more = qdescrs_in_list ts in
    if v == codes ")" then ok ([], ts) else then_do more (λ r. ok (v ∷ r.0, r.1))

unfoldable pub read_qdescrs : List Bytes → Result (List Bytes × List Bytes)
unfolding qdescrs_in_list
read_qdescrs [] = error missing_value
read_qdescrs (t ∷ ts) = if not (t == codes "(") then ok (t ∷ [], ts) else qdescrs_in_list ts

pub data ClassKind : Type 0 where
  structural auxiliary abstract : ClassKind

pub record ObjectClass : Type 0 where
  pub oid : Bytes
  pub names : List Bytes
  pub name : Bytes
  pub sup : List Bytes
  pub must : List Bytes
  pub may : List Bytes
  pub kind : ClassKind

abbrev pub new_class : Bytes → ObjectClass
new_class o = record {
  oid = o;
  names = [];
  name = [];
  sup = [];
  must = [];
  may = [];
  kind = structural;
}

abbrev pub first_name : List Bytes → Bytes → Bytes
first_name [] old = old
first_name (n ∷ ns) old = n

-- DESC: one value, whatever it is.
unfoldable pub skip_value : List Bytes → Result (List Bytes)
skip_value [] = error missing_value
skip_value (t ∷ ts) = ok ts

abbrev pub is_extension : Bytes → Bool
is_extension t = take 2 t == codes "X-"

pub data Step : Type 0 where
  finished : ObjectClass → Step
  goes_on : ObjectClass → List Bytes → Step

-- One turn of the loop of `ParseObjectClass`, after its token was read.
unfoldable pub clause : Bytes → ObjectClass → List Bytes → Result Step
unfolding then_do read_qdescrs read_oids skip_value
clause t oc ts =
    if t == codes ")"
    then ok (finished (record oc { name = first_name oc.names oc.name }))
    else if t == codes "NAME"
    then then_do (read_qdescrs ts) (λ r. ok (goes_on (record oc { names = r.0 }) r.1))
    else if t == codes "DESC"
    then then_do (skip_value ts) (λ r. ok (goes_on oc r))
    else if t == codes "OBSOLETE"
    then ok (goes_on oc ts)
    else if t == codes "SUP"
    then then_do (read_oids ts) (λ r. ok (goes_on (record oc { sup = r.0 }) r.1))
    else if t == codes "STRUCTURAL"
    then ok (goes_on (record oc { kind = structural }) ts)
    else if t == codes "AUXILIARY"
    then ok (goes_on (record oc { kind = auxiliary }) ts)
    else if t == codes "ABSTRACT"
    then ok (goes_on (record oc { kind = abstract }) ts)
    else if t == codes "MUST"
    then then_do (read_oids ts) (λ r. ok (goes_on (record oc { must = r.0 }) r.1))
    else if t == codes "MAY"
    then then_do (read_oids ts) (λ r. ok (goes_on (record oc { may = r.0 }) r.1))
    else if is_extension t
    then then_do (read_qdescrs ts) (λ r. ok (goes_on oc r.1))
    else error (unrecognized t)

unfoldable pub parse_clauses : ℕ → ObjectClass → List Bytes → Result ObjectClass
unfolding clause
parse_clauses zero oc ts = error missing_paren
parse_clauses (suc n) oc [] = error missing_paren
parse_clauses (suc n) oc (t ∷ ts) =
    then_do (clause t oc ts)
      (λ (step : Step). elim step [ finished c ↦ ok c | goes_on c rest ↦ parse_clauses n c rest ])

unfoldable pub parse_body : List Bytes → Result ObjectClass
unfolding parse_clauses
parse_body [] = error missing_oid
parse_body (o ∷ ts) = parse_clauses (length ts) (new_class o) ts

unfoldable pub parse_object_class : Bytes → Result ObjectClass
unfolding tokenize parse_body expect
parse_object_class def =
    then_do (tokenize def) (λ tokens. then_do (expect (codes "(") tokens) parse_body)
