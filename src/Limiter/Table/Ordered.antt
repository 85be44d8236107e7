-- ===== src/Limiter/Table/Ordered.antt =====
-- The order of the heap of evictable entries
-- (ui/backend/internal/httpapi/login_limiter.go).
use ldapium.Prelude.{
  ℕ, ◌≤◌, ◌<◌, ◌≡◌, refl, ◌⊎◌, inl, inr, true, false, List, [], ◌∷◌, arith, length, Bool-cases,
  subst, All, ltb, if-both,
}
use ldapium.Prelude.Bytes.{Bytes}
use ldapium.Prelude.Eq.{bytes_eq, ◌==◌, bytes_beq_iff}
use ldapium.Prelude.Assoc.{put, lookup-put, lookup-delete}
use ldapium.Limiter.Table.Entries.{member-without}
use ldapium.Limiter.Table.{Limiter, member, without, fails_at, last, less, place, refile, remove}

-- `a` does not come after `b`: it has fewer failures, or as many and no later a last one.
abbrev pub NoFuller : List ℕ → List ℕ → Type 0
NoFuller a b = (length a < length b) ⊎ ((length a ≡ length b) × (last a ≤ last b))

NoFuller-trans : (a b c : List ℕ) → NoFuller a b → NoFuller b c → NoFuller a c
NoFuller-trans a b c (inl p) (inl q) = inl (omega arith)
NoFuller-trans a b c (inl p) (inr q) = inl (omega arith)
NoFuller-trans a b c (inr p) (inl q) = inl (omega arith)
NoFuller-trans a b c (inr p) (inr q) = inr (omega arith, omega arith)

pub NoFuller-refl : (a : List ℕ) → NoFuller a a
NoFuller-refl a = inr (refl, omega arith)

less-NoFuller : (a b : List ℕ) → less a b ≡ true → NoFuller a b
less-NoFuller a b h = ground arith

not_less-NoFuller : (a b : List ℕ) → less a b ≡ false → NoFuller b a
not_less-NoFuller a b h = ground arith

-- No key comes after one that is behind it, by the failures `f` of each.
abbrev pub IsOrdered : (Bytes → List ℕ) → List Bytes → Type 0
IsOrdered f [] = Unit
IsOrdered f (k ∷ ks) = All (λ j. NoFuller (f k) (f j)) ks × IsOrdered f ks

-- The heap of the table is in order.
abbrev pub Ordered : Limiter → Type 0
Ordered l = IsOrdered (λ j. fails_at j l) l.evictable

pub All-member :
    (P : Bytes → Type 0) (i : Bytes) (ks : List Bytes) → All P ks → member i ks ≡ true → P i
unfolding member
All-member P i [] a m = cc
All-member P i (k ∷ ks) a m = elim (Bool-cases (k == i)) [
  | inl e ↦ subst P ((bytes_beq_iff k i).0 e) a.0
  | inr e ↦ All-member P i ks a.1 (ground (arith, e, m))
]

All-without : (P : Bytes → Type 0) (k : Bytes) (ks : List Bytes) → All P ks → All P (without k ks)
unfolding without
All-without P k [] a = tt
All-without P k (j ∷ js) a =
    if-both (All P) (j == k) _ _ (λ _. All-without P k js a.1) (λ _. (a.0, All-without P k js a.1))

IsOrdered-without :
    (f : Bytes → List ℕ) (k : Bytes) (ks : List Bytes) → IsOrdered f ks → IsOrdered f (without k ks)
unfolding without
IsOrdered-without f k [] o = tt
IsOrdered-without f k (j ∷ js) o =
    if-both (IsOrdered f) (j == k) _ _ (λ _. IsOrdered-without f k js o.1)
      (λ _. (All-without (λ i. NoFuller (f j) (f i)) k js o.0, IsOrdered-without f k js o.1))

member-later : (j k : Bytes) (ks : List Bytes) → member j ks ≡ true → member j (k ∷ ks) ≡ true
unfolding member
member-later j k ks m = ground (arith, m)

All-change :
    (P Q : Bytes → Type 0) (ks : List Bytes)
    → ((j : Bytes) → member j ks ≡ true → P j → Q j)
    → All P ks
    → All Q ks
unfolding member
All-change P Q [] h a = tt
All-change P Q (k ∷ ks) h a = (
  h k (ground (arith, bytes_beq_iff k k)) a.0,
  All-change P Q ks (λ j m p. h j (member-later j k ks m) p) a.1,
)

-- The order is about the failures of the keys in the heap only.
IsOrdered-same :
    (f g : Bytes → List ℕ) (ks : List Bytes)
    → ((j : Bytes) → member j ks ≡ true → f j ≡ g j)
    → IsOrdered f ks
    → IsOrdered g ks
unfolding member
IsOrdered-same f g [] h o = tt
IsOrdered-same f g (k ∷ ks) h o =
    let at : f k ≡ g k = h k (ground (arith, bytes_beq_iff k k)) in
    let later : (j : Bytes) → member j ks ≡ true → f j ≡ g j = λ j m. h j (member-later j k ks m) in
    (
      All-change (λ j. NoFuller (f k) (f j)) (λ j. NoFuller (g k) (g j)) ks
          (λ j m p.
            subst (λ (x : List ℕ). NoFuller x (g j)) at
              (subst (λ (x : List ℕ). NoFuller (f k) x) (later j m) p))
          o.0,
      IsOrdered-same f g ks later o.1,
    )

module _ (l : Limiter) (k : Bytes) where
  All-place :
      (P : Bytes → Type 0) (fails : List ℕ) (ks : List Bytes)
      → P k
      → All P ks
      → All P (place l fails k ks)
  unfolding place
  All-place P fails [] p a = (p, tt)
  All-place P fails (j ∷ js) p a =
      if-both (All P) (less (fails_at j l) fails) _ _ (λ _. (a.0, All-place P fails js p a.1))
        (λ _. (p, a))

  IsOrdered-place :
      (ks : List Bytes)
      → let f : Bytes → List ℕ = λ j. fails_at j l in
        IsOrdered f ks → IsOrdered f (place l (fails_at k l) k ks)
  unfolding place
  IsOrdered-place [] o = (tt, tt)
  IsOrdered-place (j ∷ js) o =
      let f : Bytes → List ℕ = λ i. fails_at i l in
      if-both (IsOrdered f) (less (f j) (f k)) _ _
        (λ e. (
          All-place (λ i. NoFuller (f j) (f i)) (f k) js (less-NoFuller (f j) (f k) e) o.0,
          IsOrdered-place js o.1,
        ))
        (λ e.
          let front = not_less-NoFuller (f j) (f k) e in
          (
            (
              front,
              All-change (λ i. NoFuller (f j) (f i)) (λ i. NoFuller (f k) (f i)) js
                  (λ i m p. NoFuller-trans (f k) (f j) (f i) front p) o.0,
            ),
            o,
          ))

without-absent : (k : Bytes) (ks : List Bytes) → member k ks ≡ false → without k ks ≡ ks
unfolding member without
without-absent k [] h = refl
without-absent k (j ∷ js) h = ground (arith, h, without-absent k js)

-- A heap that is in order but for one key is in order after that key was filed.
refile-Ordered :
    (k : Bytes) (fails : List ℕ) (l : Limiter)
    → fails_at k l ≡ fails
    → IsOrdered (λ j. fails_at j l) (without k l.evictable)
    → Ordered (refile k fails l)
unfolding refile
refile-Ordered k fails l at o =
    let f : Bytes → List ℕ = λ j. fails_at j l in
    let put_in : IsOrdered f (place l fails k (without k l.evictable)) =
      subst (λ (x : List ℕ). IsOrdered f (place l x k (without k l.evictable))) at
        (IsOrdered-place l k (without k l.evictable) o) in
    if-both Ordered (ltb (length fails) l.limit) _ _
      (λ _.
        if-both (IsOrdered f) (member k l.evictable) _ _ (λ _. put_in)
          (λ e.
            subst (λ (ks : List Bytes). IsOrdered f (place l fails k ks))
              (without-absent k l.evictable e) put_in))
      (λ _. o)

-- A key that is gone from the heap may change.
changed-IsOrdered :
    (k : Bytes) (l m : Limiter)
    → ((j : Bytes) → (k == j) ≡ false → fails_at j l ≡ fails_at j m)
    → Ordered l
    → IsOrdered (λ j. fails_at j m) (without k l.evictable)
changed-IsOrdered k l m same o =
    IsOrdered-same (λ j. fails_at j l) (λ j. fails_at j m) (without k l.evictable)
      (λ j h. same j (ground (arith, member-without k j l.evictable, h)))
      (IsOrdered-without (λ j. fails_at j l) k l.evictable o)

pub remove-Ordered : (k : Bytes) (l : Limiter) → Ordered l → Ordered (remove k l)
unfolding remove
remove-Ordered k l o =
    changed-IsOrdered k l (remove k l) (λ j n. ground (arith, n, lookup-delete k j l.failures)) o

-- An entry is written with failures and filed.
pub written-Ordered :
    (k : Bytes) (fails : List ℕ) (seen : List Bytes) (l : Limiter)
    → Ordered l
    → Ordered (
        refile k fails
          (record l { failures = put k (record { fails = fails }) l.failures; seen = seen }))
written-Ordered k fails seen l o =
    let l' : Limiter = record l {
      failures = put k (record { fails = fails }) l.failures;
      seen = seen;
    } in
    refile-Ordered k fails l'
      (ground (arith, lookup-put k k (record { fails = fails }) l.failures, bytes_beq_iff k k))
      (changed-IsOrdered k l l'
        (λ j n. ground (arith, n, lookup-put k j (record { fails = fails }) l.failures)) o)
