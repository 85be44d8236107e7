-- ===== src/Idempotency/Body/Order.antt =====
-- Inserting members of an object in the order of their names
-- (ui/backend/internal/httpapi/idempotency.go).
use Prim.Native.Nat.{lt, eq, gt, Ordering}
use ldapium.Prelude.{
  ◌≡◌, ◌≢◌, refl, ap, ◌⊎◌, inl, inr, Bool, true, false, arith, Bool-cases, if◌then◌else◌,
}
use ldapium.Prelude.Bytes.{Bytes}
use ldapium.Prelude.Eq.{bytes_eq, ◌==◌}
use ldapium.Listing.{compare_bytes, is_less}
use ldapium.Listing.Order.{
  compare_bytes_refl, compare_bytes-eq, compare_bytes_flip, compare_bytes_trans,
}
use ldapium.Idempotency.Body.{Json, Members, no_members, member, insert_member}

abbrev pub less : Bytes → Bytes → Bool
less a b = is_less (compare_bytes a b)

Ordering-cases : (o : Ordering) → (o ≡ lt) ⊎ ((o ≡ eq) ⊎ (o ≡ gt))
Ordering-cases lt = inl refl
Ordering-cases eq = inr (inl refl)
Ordering-cases gt = inr (inr refl)

bytes_eq-or : (a b : Bytes) → (a ≡ b) ⊎ (a ≢ b)
bytes_eq-or a b = elim (Bool-cases (a == b)) [
  | inl e ↦ inl ((bytes_eq.decides a b).0 e)
  | inr e ↦ inr (λ f. ground (arith, e, (bytes_eq.decides a b).1 f))
]

-- Of two different names one is the less.
less_one : (a b : Bytes) → a ≢ b → less b a ≡ (if less a b then false else true)
less_one a b n = elim (Ordering-cases (compare_bytes a b)) [
  | inl e ↦ elim (Ordering-cases (compare_bytes b a)) [
    | inl f ↦
        let absurd : ⊥ = ground (arith, compare_bytes_trans a b a e f, compare_bytes_refl a) in
        elim absurd [ ]
    | inr (inl f) ↦ rw (e, f) refl
    | inr (inr f) ↦ rw (e, f) refl
  ]
  | inr (inl e) ↦ elim (n (compare_bytes-eq a b e)) [ ]
  | inr (inr e) ↦ rw (e, compare_bytes_flip a b e) refl
]

is_less-lt : (o : Ordering) → is_less o ≡ true → o ≡ lt
is_less-lt lt h = refl
is_less-lt eq h = cc
is_less-lt gt h = cc

less_trans : (a b c : Bytes) → less a b ≡ true → less b c ≡ true → less a c ≡ true
less_trans a b c p q = rw (compare_bytes_trans a b c (is_less-lt _ p) (is_less-lt _ q)) refl

pub less-ne : (a b : Bytes) → less a b ≡ true → b ≢ a
less-ne a b h e =
    ground (arith, ap (λ (x : Bytes). less a x) e, ap is_less (compare_bytes_refl a), h)

-- What is not above b is below c, if b is.
not_above : (a b c : Bytes) → less b a ≡ false → less b c ≡ true → less a c ≡ true
not_above a b c p q = elim (Bool-cases (less a b)) [
  | inl e ↦ less_trans a b c e q
  | inr e ↦ elim (bytes_eq-or a b) [
    | inl same ↦ rw same q
    | inr other ↦ ground (arith, less_one a b other, e, p)
  ]
]

-- Members of different names may be inserted in either order.
pub insert_member_comm :
    (j k : Bytes) (v w : Json) (ms : Members)
    → j ≢ k
    → insert_member j v (insert_member k w ms) ≡ insert_member k w (insert_member j v ms)
unfolding insert_member
insert_member_comm j k v w no_members n = ground (arith, less_one j k n)
insert_member_comm j k v w (member m x ms) n =
    ground
      (arith, less_one j k n, not_above k m j, not_above j m k, insert_member_comm j k v w ms n)
