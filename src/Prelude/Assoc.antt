-- ===== src/Prelude/Assoc.antt =====
-- Go's `map[K]V` as an association list: a write replaces in place or appends, so a key occurs once
-- (`IsMap`). The program never depends on the order in which a map is ranged over.
use Prim.Native.Nat.{ℕ, suc, ◌+◌, ◌≤◌}
use mathlib.Core.Path.{◌≡◌, refl}
use mathlib.Core.Bool.{Bool, not}
use mathlib.Core.Option.{Option, none, some}
use mathlib.Core.List.{List, [], ◌∷◌}
use native.Mathlib.Omega.{arith}
use ldapium.Prelude.Tests.{if◌then◌else◌, to_ℕ}
use ldapium.Prelude.Lists.{length}
use ldapium.Prelude.Eq.{Eq, ◌==◌}

module _ {ℓ κ} {K : Type ℓ} {V : Type κ} where
  -- How many values pass a test.
  unfoldable pub count : (V → Bool) → List (K × V) → ℕ
  count p [] = 0
  count p ((k, v) ∷ m) = to_ℕ (p v) + count p m

  -- The entries that a loop with `delete` leaves.
  unfoldable pub keep : (K → V → Bool) → List (K × V) → List (K × V)
  keep p [] = []
  keep p ((k, v) ∷ m) = let rest = keep p m in if p k v then (k, v) ∷ rest else rest

module _ {ℓ κ} {K : Type ℓ} {V : Type κ} ⦃e : Eq K⦄ where
  unfoldable pub lookup : K → List (K × V) → Option V
  lookup k [] = none
  lookup k ((j, v) ∷ m) = if j == k then some v else lookup k m

  unfoldable pub put : K → V → List (K × V) → List (K × V)
  put k v [] = (k, v) ∷ []
  put k v ((j, w) ∷ m) = if j == k then (k, v) ∷ m else (j, w) ∷ put k v m

  unfoldable pub delete : K → List (K × V) → List (K × V)
  delete k [] = []
  delete k ((j, v) ∷ m) = let rest = delete k m in if j == k then rest else (j, v) ∷ rest

  abbrev pub IsMap : List (K × V) → Type κ
  IsMap [] = Unit
  IsMap ((k, v) ∷ m) = (lookup k m ≡ none) × IsMap m

  pub lookup-put :
      (k j : K) (v : V) (m : List (K × V))
      → lookup j (put k v m) ≡ (if k == j then some v else lookup j m)
  unfolding lookup put
  lookup-put k j v [] = refl
  lookup-put k j v ((i, w) ∷ m) =
      ground (arith, e.decides k j, e.decides i k, e.decides i j, lookup-put k j v m)

  pub lookup-delete :
      (k j : K) (m : List (K × V)) → lookup j (delete k m) ≡ (if k == j then none else lookup j m)
  unfolding lookup delete
  lookup-delete k j [] = ground arith
  lookup-delete k j ((i, w) ∷ m) =
      ground (arith, e.decides k j, e.decides i k, e.decides i j, lookup-delete k j m)

  pub put-IsMap : (k : K) (v : V) (m : List (K × V)) → IsMap m → IsMap (put k v m)
  unfolding put lookup
  put-IsMap k v [] h = (refl, tt)
  put-IsMap k v ((j, w) ∷ m) h =
      ground (arith, e.decides j k, e.decides k j, lookup-put k j v m, put-IsMap k v m h.1)

  pub delete-IsMap : (k : K) (m : List (K × V)) → IsMap m → IsMap (delete k m)
  unfolding delete
  delete-IsMap k [] h = tt
  delete-IsMap k ((j, w) ∷ m) h = ground (arith, lookup-delete k j m, delete-IsMap k m h.1)

  lookup-keep-none :
      (p : K → V → Bool) (j : K) (m : List (K × V)) → lookup j m ≡ none → lookup j (keep p m) ≡ none
  unfolding lookup keep
  lookup-keep-none p j [] h = refl
  lookup-keep-none p j ((i, w) ∷ m) h = ground (arith, lookup-keep-none p j m)

  pub keep-IsMap : (p : K → V → Bool) (m : List (K × V)) → IsMap m → IsMap (keep p m)
  unfolding keep
  keep-IsMap p [] h = tt
  keep-IsMap p ((j, w) ∷ m) h = ground (arith, lookup-keep-none p j m h.0, keep-IsMap p m h.1)

  -- What a loop with `delete` leaves at a key.
  abbrev pub kept : (K → V → Bool) → K → Option V → Option V
  kept p j none = none
  kept p j (some v) = if p j v then some v else none

  pub lookup-keep :
      (p : K → V → Bool) (j : K) (m : List (K × V))
      → IsMap m
      → lookup j (keep p m) ≡ kept p j (lookup j m)
  unfolding lookup keep
  lookup-keep p j [] h = refl
  lookup-keep p j ((i, w) ∷ m) h =
      ground (arith, e.decides i j, lookup-keep p j m h.1, lookup-keep-none p i m h.0)

  pub count-put_new :
      (p : V → Bool) (k : K) (v : V) (m : List (K × V))
      → lookup k m ≡ none
      → count p (put k v m) ≡ count p m + to_ℕ (p v)
  unfolding lookup put count
  count-put_new p k v [] h = ground arith
  count-put_new p k v ((j, w) ∷ m) h = ground (arith, count-put_new p k v m)

  pub count-put_old :
      (p : V → Bool) (k : K) (v w : V) (m : List (K × V))
      → lookup k m ≡ some w
      → count p (put k v m) + to_ℕ (p w) ≡ count p m + to_ℕ (p v)
  unfolding lookup put count
  count-put_old p k v w [] h = cc
  count-put_old p k v w ((j, u) ∷ m) h = ground (arith, count-put_old p k v w m)

  pub delete-none : (k : K) (m : List (K × V)) → lookup k m ≡ none → delete k m ≡ m
  unfolding lookup delete
  delete-none k [] h = refl
  delete-none k ((j, u) ∷ m) h = ground (arith, delete-none k m)

  pub count-delete :
      (p : V → Bool) (k : K) (w : V) (m : List (K × V))
      → IsMap m
      → lookup k m ≡ some w
      → count p (delete k m) + to_ℕ (p w) ≡ count p m
  unfolding lookup delete count
  count-delete p k w [] d h = cc
  count-delete p k w ((j, u) ∷ m) d h =
      ground (arith, e.decides j k, count-delete p k w m d.1, delete-none k m)

  pub length-put_new :
      (k : K) (v : V) (m : List (K × V)) → lookup k m ≡ none → length (put k v m) ≡ suc (length m)
  unfolding lookup put
  length-put_new k v [] h = refl
  length-put_new k v ((j, w) ∷ m) h = ground (arith, length-put_new k v m)

  pub length-put_old :
      (k : K) (v w : V) (m : List (K × V)) → lookup k m ≡ some w → length (put k v m) ≡ length m
  unfolding lookup put
  length-put_old k v w [] h = cc
  length-put_old k v w ((j, u) ∷ m) h = ground (arith, length-put_old k v w m)

  pub length-delete_le : (k : K) (m : List (K × V)) → length (delete k m) ≤ length m
  unfolding delete
  length-delete_le k [] = omega arith
  length-delete_le k ((j, u) ∷ m) = ground (arith, length-delete_le k m)

  pub length-delete :
      (k : K) (w : V) (m : List (K × V))
      → IsMap m
      → lookup k m ≡ some w
      → suc (length (delete k m)) ≡ length m
  unfolding lookup delete
  length-delete k w [] d h = cc
  length-delete k w ((j, u) ∷ m) d h =
      ground (arith, e.decides j k, length-delete k w m d.1, delete-none k m)

  pub count-delete_le : (p : V → Bool) (k : K) (m : List (K × V)) → count p (delete k m) ≤ count p m
  unfolding delete count
  count-delete_le p k [] = omega arith
  count-delete_le p k ((j, u) ∷ m) = ground (arith, count-delete_le p k m)

module _ {ℓ κ} {K : Type ℓ} {V : Type κ} where
  -- A loop with `delete` splits the map.
  pub count-keep :
      (p : V → Bool) (q : K → V → Bool) (m : List (K × V))
      → count p (keep q m) + count p (keep (λ k v. not (q k v)) m) ≡ count p m
  unfolding count keep
  count-keep p q [] = omega arith
  count-keep p q ((k, v) ∷ m) = ground (arith, count-keep p q m)
