-- ===== src/Prelude/Eq.antt =====
-- The keys of Go's maps: types with an equality test, byte strings first.
use mathlib.Core.List.{List, [], ◌∷◌}
use mathlib.Core.Bool.{Bool, true, false, ◌&&◌}
use mathlib.Core.Path.{◌≡◌, refl}
use mathlib.Core.Logic.{◌↔◌}
use native.Mathlib.Omega.{arith}
use Prim.Native.Nat.{ℕ}
use Prim.Native.String.{String}
use ldapium.Prelude.Tests.{◌==◌ as same_number, ==_iff}
use text.Mathlib.Text.{◌==◌ as same_text}
use text.Mathlib.TextEquality.{eq_iff as same_text_iff}

abbrev pub bytes_beq : List ℕ → List ℕ → Bool
bytes_beq [] [] = true
bytes_beq [] (y ∷ ys) = false
bytes_beq (x ∷ xs) [] = false
bytes_beq (x ∷ xs) (y ∷ ys) = same_number x y && bytes_beq xs ys

pub bytes_beq_iff : (xs ys : List ℕ) → (bytes_beq xs ys ≡ true) ↔ (xs ≡ ys)
bytes_beq_iff [] [] = ((λ _. refl), (λ _. refl))
bytes_beq_iff [] (y ∷ ys) = ((λ h. cc), (λ h. cc))
bytes_beq_iff (x ∷ xs) [] = ((λ h. cc), (λ h. cc))
bytes_beq_iff (x ∷ xs) (y ∷ ys) =
    ((λ h. ground (arith, bytes_beq_iff xs ys)), (λ h. ground (arith, bytes_beq_iff xs ys)))

-- `test` decides equality.
pub record Eq {ℓ} (K : Type ℓ) : Type ℓ where
  pub test : K → K → Bool
  pub decides : (k j : K) → (test k j ≡ true) ↔ (k ≡ j)

instance abbrev pub bytes_eq : Eq (List ℕ)
bytes_eq = record { test = bytes_beq; decides = bytes_beq_iff }

module _ {ℓ} {K : Type ℓ} ⦃e : Eq K⦄ where
  infix 50 ◌==◌
  abbrev pub ◌==◌ : K → K → Bool
  k == j = e.test k j

  pub beq_refl : (k : K) → (k == k) ≡ true
  beq_refl k = (e.decides k k).1 refl

instance abbrev pub text_eq : Eq String
text_eq = record { test = same_text; decides = same_text_iff }

instance abbrev pub nat_eq : Eq ℕ
nat_eq = record { test = same_number; decides = ==_iff }
