-- ===== src/Limiter/Table/Entries.antt =====
-- What each operation on one entry leaves at a key (ui/backend/internal/httpapi/login_limiter.go).
use ldapium.Prelude.{
  ℕ, ◌≡◌, Bool, true, false, Option, none, some, List, [], ◌∷◌, arith, ltb, if◌then◌else◌, length,
}
use ldapium.Prelude.Bytes.{Bytes}
use ldapium.Prelude.Eq.{bytes_eq, ◌==◌, bytes_beq_iff}
use ldapium.Prelude.Assoc.{lookup, put, lookup-put, lookup-delete}
use ldapium.Limiter.Table.{Entry, Limiter, member, without, remove, place, refile, prune_to}

pub member-without :
    (k j : Bytes) (ks : List Bytes)
    → member j (without k ks) ≡ (if k == j then false else member j ks)
unfolding member without
member-without k j [] = ground arith
member-without k j (i ∷ ks) =
    ground (arith, bytes_beq_iff i k, bytes_beq_iff i j, bytes_beq_iff k j, member-without k j ks)

-- A heap with one key more.
pub member-place :
    (l : Limiter) (fails : List ℕ) (k j : Bytes) (ks : List Bytes)
    → member j (place l fails k ks) ≡ (if k == j then true else member j ks)
unfolding member place
member-place l fails k j [] = ground arith
member-place l fails k j (i ∷ ks) = ground (arith, member-place l fails k j ks)

-- An entry's list of failures as the table holds it: none is held if it is empty.
abbrev pub entry_of : List ℕ → Option Entry
entry_of [] = none
entry_of (t ∷ ts) = some (record { fails = t ∷ ts })

-- Whether an entry with these failures belongs in the heap.
abbrev pub is_evictable : ℕ → Option Entry → Bool
is_evictable limit none = false
is_evictable limit (some e) = ltb (length e.fails) limit

module _ (k j : Bytes) (l : Limiter) where
  pub lookup-remove :
      lookup j (remove k l).failures ≡ (if k == j then none else lookup j l.failures)
  unfolding remove
  lookup-remove = lookup-delete k j l.failures

  pub member-remove :
      member j (remove k l).evictable ≡ (if k == j then false else member j l.evictable)
  unfolding remove
  member-remove = member-without k j l.evictable

  pub member-refile :
      (fails : List ℕ)
      → member j (refile k fails l).evictable
        ≡ (if k == j then ltb (length fails) l.limit else member j l.evictable)
  unfolding refile
  member-refile fails = ground (
    arith,
    member-place l fails k j l.evictable,
    member-place l fails k j (without k l.evictable),
    member-without k j l.evictable,
    bytes_beq_iff k j,
  )

  pub lookup-prune_to :
      (fails : List ℕ)
      → lookup j (prune_to k fails l).failures
        ≡ (if k == j then entry_of fails else lookup j l.failures)
  unfolding prune_to refile
  lookup-prune_to [] = lookup-remove
  lookup-prune_to (t ∷ ts) = ground (arith, lookup-put k j (record { fails = t ∷ ts }) l.failures)

module _ (k j : Bytes) (l : Limiter) where
  pub member-prune_to :
      (fails : List ℕ)
      → member j (prune_to k fails l).evictable
        ≡ (if k == j then is_evictable l.limit (entry_of fails) else member j l.evictable)
  unfolding prune_to
  member-prune_to [] = member-remove k j l
  member-prune_to (t ∷ ts) =
      member-refile k j (record l { failures = put k (record { fails = t ∷ ts }) l.failures })
        (t ∷ ts)
