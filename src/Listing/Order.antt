-- ===== src/Listing/Order.antt =====
-- The order of positions is total (ui/backend/internal/ldapclient/page.go).
use Prim.Native.Nat.{lt, eq, gt}
use ldapium.Prelude.{◌≡◌, refl, true, false, [], ◌∷◌, arith}
use ldapium.Prelude.Bytes.{Bytes}
use ldapium.Listing.{PagePosition, compare_bytes, compare_positions, before}

pub compare_bytes_refl : (xs : Bytes) → compare_bytes xs xs ≡ eq
unfolding compare_bytes
compare_bytes_refl [] = refl
compare_bytes_refl (x ∷ xs) = ground (arith, compare_bytes_refl xs)

pub compare_bytes-eq : (xs ys : Bytes) → compare_bytes xs ys ≡ eq → xs ≡ ys
unfolding compare_bytes
compare_bytes-eq [] [] h = refl
compare_bytes-eq [] (y ∷ ys) h = cc
compare_bytes-eq (x ∷ xs) [] h = cc
compare_bytes-eq (x ∷ xs) (y ∷ ys) h = ground (arith, compare_bytes-eq xs ys)

pub compare_bytes_flip : (xs ys : Bytes) → compare_bytes xs ys ≡ gt → compare_bytes ys xs ≡ lt
unfolding compare_bytes
compare_bytes_flip [] [] h = cc
compare_bytes_flip [] (y ∷ ys) h = cc
compare_bytes_flip (x ∷ xs) [] h = refl
compare_bytes_flip (x ∷ xs) (y ∷ ys) h = ground (arith, compare_bytes_flip xs ys)

pub compare_bytes_trans :
    (xs ys zs : Bytes)
    → compare_bytes xs ys ≡ lt
    → compare_bytes ys zs ≡ lt
    → compare_bytes xs zs ≡ lt
unfolding compare_bytes
compare_bytes_trans [] [] zs p q = cc
compare_bytes_trans [] (y ∷ ys) [] p q = cc
compare_bytes_trans [] (y ∷ ys) (z ∷ zs) p q = refl
compare_bytes_trans (x ∷ xs) [] zs p q = cc
compare_bytes_trans (x ∷ xs) (y ∷ ys) [] p q = cc
compare_bytes_trans (x ∷ xs) (y ∷ ys) (z ∷ zs) p q = ground (arith, compare_bytes_trans xs ys zs)

pub before_irrefl : (a : PagePosition) → before a a ≡ false
unfolding compare_positions
before_irrefl a = ground (arith, compare_bytes_refl a.key, compare_bytes_refl a.dn)

pub before_trans :
    (a b c : PagePosition) → before a b ≡ true → before b c ≡ true → before a c ≡ true
unfolding compare_positions
before_trans a b c p q = ground (
  arith,
  compare_bytes-eq a.key b.key,
  compare_bytes-eq b.key c.key,
  compare_bytes_refl a.key,
  compare_bytes_trans a.key b.key c.key,
  compare_bytes_trans a.dn b.dn c.dn,
)

-- Two positions neither of which is before the other are the same.
pub before_total : (a b : PagePosition) → before a b ≡ false → before b a ≡ false → a ≡ b
unfolding compare_positions
before_total a b p q = ground (
  arith,
  compare_bytes-eq a.key b.key,
  compare_bytes-eq a.dn b.dn,
  compare_bytes_flip a.key b.key,
  compare_bytes_flip b.key a.key,
  compare_bytes_flip a.dn b.dn,
  compare_bytes_flip b.dn a.dn,
  compare_bytes_refl a.key,
)
