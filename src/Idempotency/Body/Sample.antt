-- ===== src/Idempotency/Body/Sample.antt =====
-- An encoding for the tests: values as programs of a stack machine, which rebuilds them.
use ldapium.Prelude.{ℕ, zero, suc, ◌≡◌, refl, sym, ap, ◌∙◌, true, false, List, [], ◌∷◌, ◌++◌}
use ldapium.Prelude.Bytes.{Bytes}
use ldapium.Prelude.Eq.{bytes_eq, ◌==◌}
use ldapium.Idempotency.Body.{
  Json, null, boolean, number, text, array, object, Items, no_items, item, Members, no_members,
  member, Encoding,
}
use ldapium.Idempotency.Body.Strict.{IsFaithful}

data Part : Type 0 where
  of_text : Bytes → Part
  of_value : Json → Part
  of_items : Items → Part
  of_members : Members → Part

abbrev Stack : Type 0
Stack = List Part

with_byte : ℕ → Stack → Stack
with_byte c (of_text s ∷ st) = of_text (c ∷ s) ∷ st
with_byte c st = st

number_of : Stack → Stack
number_of (of_text s ∷ st) = of_value (number s) ∷ st
number_of st = st

text_of : Stack → Stack
text_of (of_text s ∷ st) = of_value (text s) ∷ st
text_of st = st

array_of : Stack → Stack
array_of (of_items vs ∷ st) = of_value (array vs) ∷ st
array_of st = st

object_of : Stack → Stack
object_of (of_members ms ∷ st) = of_value (object ms) ∷ st
object_of st = st

item_of : Stack → Stack
item_of (of_value v ∷ of_items vs ∷ st) = of_items (item v vs) ∷ st
item_of st = st

member_of : Stack → Stack
member_of (of_value v ∷ of_text k ∷ of_members ms ∷ st) = of_members (member k v ms) ∷ st
member_of st = st

later_act : ℕ → Stack → Stack
unfolding array_of object_of item_of member_of with_byte
later_act zero st = array_of st
later_act (suc zero) st = object_of st
later_act (suc (suc zero)) st = item_of st
later_act (suc (suc (suc zero))) st = member_of st
later_act (suc (suc (suc (suc c)))) st = with_byte c st

act : ℕ → Stack → Stack
unfolding number_of text_of later_act
act zero st = of_value null ∷ st
act (suc zero) st = of_value (boolean true) ∷ st
act (suc (suc zero)) st = of_value (boolean false) ∷ st
act (suc (suc (suc zero))) st = of_text [] ∷ st
act (suc (suc (suc (suc zero)))) st = of_items no_items ∷ st
act (suc (suc (suc (suc (suc zero))))) st = of_members no_members ∷ st
act (suc (suc (suc (suc (suc (suc zero)))))) st = number_of st
act (suc (suc (suc (suc (suc (suc (suc zero))))))) st = text_of st
act (suc (suc (suc (suc (suc (suc (suc (suc n)))))))) st = later_act n st

rebuild : Bytes → Stack → Stack
unfolding act
rebuild [] st = st
rebuild (c ∷ cs) st = rebuild cs (act c st)

byte : ℕ → ℕ
byte c = suc (suc (suc (suc (suc (suc (suc (suc (suc (suc (suc (suc c)))))))))))

spell : Bytes → Bytes
unfolding byte
spell [] = 3 ∷ []
spell (c ∷ s) = spell s ++ byte c ∷ []

unfoldable mutual
  unfolding spell

  pub program : Json → Bytes
  program null = 0 ∷ []
  program (boolean true) = 1 ∷ []
  program (boolean false) = 2 ∷ []
  program (number s) = spell s ++ 6 ∷ []
  program (text s) = spell s ++ 7 ∷ []
  program (array vs) = program_items vs ++ 8 ∷ []
  program (object ms) = program_members ms ++ 9 ∷ []

  pub program_items : Items → Bytes
  program_items no_items = 4 ∷ []
  program_items (item v vs) = program_items vs ++ (program v ++ 10 ∷ [])

  pub program_members : Members → Bytes
  program_members no_members = 5 ∷ []
  program_members (member k v ms) = program_members ms ++ (spell k ++ (program v ++ 11 ∷ []))

rebuild-append : (xs ys : Bytes) (st : Stack) → rebuild (xs ++ ys) st ≡ rebuild ys (rebuild xs st)
unfolding rebuild
rebuild-append [] ys st = refl
rebuild-append (x ∷ xs) ys st = rebuild-append xs ys (act x st)

rebuild-spell : (s : Bytes) (st : Stack) → rebuild (spell s) st ≡ of_text s ∷ st
unfolding spell rebuild
rebuild-spell [] st = refl
rebuild-spell (c ∷ s) st =
    rebuild-append (spell s) (byte c ∷ []) st ∙ ap (rebuild (byte c ∷ [])) (rebuild-spell s st)

mutual
  unfolding program program_items program_members rebuild

  rebuild-program : (v : Json) (st : Stack) → rebuild (program v) st ≡ of_value v ∷ st
  rebuild-program null st = refl
  rebuild-program (boolean true) st = refl
  rebuild-program (boolean false) st = refl
  rebuild-program (number s) st =
      rebuild-append (spell s) (6 ∷ []) st ∙ ap (rebuild (6 ∷ [])) (rebuild-spell s st)
  rebuild-program (text s) st =
      rebuild-append (spell s) (7 ∷ []) st ∙ ap (rebuild (7 ∷ [])) (rebuild-spell s st)
  rebuild-program (array vs) st =
      rebuild-append (program_items vs) (8 ∷ []) st
      ∙ ap (rebuild (8 ∷ [])) (rebuild-program_items vs st)
  rebuild-program (object ms) st =
      rebuild-append (program_members ms) (9 ∷ []) st
      ∙ ap (rebuild (9 ∷ [])) (rebuild-program_members ms st)

  rebuild-program_items :
      (vs : Items) (st : Stack) → rebuild (program_items vs) st ≡ of_items vs ∷ st
  rebuild-program_items no_items st = refl
  rebuild-program_items (item v vs) st =
      rebuild-append (program_items vs) (program v ++ 10 ∷ []) st
      ∙ ap (rebuild (program v ++ 10 ∷ [])) (rebuild-program_items vs st)
      ∙ rebuild-append (program v) (10 ∷ []) _
      ∙ ap (rebuild (10 ∷ [])) (rebuild-program v (of_items vs ∷ st))

  rebuild-program_members :
      (ms : Members) (st : Stack) → rebuild (program_members ms) st ≡ of_members ms ∷ st
  rebuild-program_members no_members st = refl
  rebuild-program_members (member k v ms) st =
      rebuild-append (program_members ms) (spell k ++ (program v ++ 11 ∷ [])) st
      ∙ ap (rebuild (spell k ++ (program v ++ 11 ∷ []))) (rebuild-program_members ms st)
      ∙ rebuild-append (spell k) (program v ++ 11 ∷ []) _
      ∙ ap (rebuild (program v ++ 11 ∷ [])) (rebuild-spell k (of_members ms ∷ st))
      ∙ rebuild-append (program v) (11 ∷ []) _
      ∙ ap (rebuild (11 ∷ [])) (rebuild-program v (of_text k ∷ of_members ms ∷ st))

-- Names are compared byte by byte.
abbrev pub sample : Encoding
sample = record { equal_fold = λ a b. a == b; marshal = program }

pub sample-IsFaithful : IsFaithful sample
unfolding rebuild
sample-IsFaithful = record {
  distinct = λ v w e.
      let both : of_value v ∷ [] ≡ of_value w ∷ [] =
        sym (rebuild-program v []) ∙ ap (λ (p : Bytes). rebuild p []) e ∙ rebuild-program w [] in
      cc both;
  not_empty = λ v e.
      let none_left : [] ≡ of_value v ∷ [] =
        sym (ap (λ (p : Bytes). rebuild p []) e) ∙ rebuild-program v [] in
      cc none_left;
}
