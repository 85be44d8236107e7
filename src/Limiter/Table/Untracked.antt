-- ===== src/Limiter/Table/Untracked.antt =====
-- No operation of the table creates an entry (ui/backend/internal/httpapi/login_limiter.go).
use ldapium.Prelude.{
  ℕ, ◌≡◌, subst, Bool, true, false, none, some, List, [], ◌∷◌, arith, Bool-cases, inl, inr,
}
use ldapium.Prelude.Bytes.{Bytes}
use ldapium.Prelude.Eq.{bytes_eq, ◌==◌, bytes_beq_iff}
use ldapium.Prelude.Assoc.{lookup, IsMap, delete-IsMap}
use ldapium.Limiter.Table.{
  Entry, Limiter, drop_old, remove, prune_to, prune, sweep_from, sweep, drop_expired_from,
  drop_expired, evict_least, reclassify, make_room,
}
use ldapium.Limiter.Table.Entries.{lookup-remove, lookup-prune_to}
use ldapium.Limiter.Table.Invariant.{Remains, Remains-head, Remains-tail}

prune_to_untracked :
    (k j : Bytes) (fails : List ℕ) (e : Entry) (l : Limiter)
    → lookup k l.failures ≡ some e
    → lookup j l.failures ≡ none
    → lookup j (prune_to k fails l).failures ≡ none
prune_to_untracked k j fails e l at h = elim (Bool-cases (k == j)) [
  | inl same ↦
      let clash : lookup j l.failures ≡ some e =
        subst (λ (i : Bytes). lookup i l.failures ≡ some e) ((bytes_beq_iff k j).0 same) at in
      cc (clash, h)
  | inr other ↦ ground (arith, lookup-prune_to k j l fails, h, other)
]

remove_untracked :
    (k j : Bytes) (l : Limiter) → lookup j l.failures ≡ none → lookup j (remove k l).failures ≡ none
remove_untracked k j l h = ground (arith, lookup-remove k j l, h)

sweep_from_untracked :
    (now : ℕ) (j : Bytes) (m : List (Bytes × Entry)) (l : Limiter)
    → IsMap m
    → Remains m l
    → lookup j l.failures ≡ none
    → lookup j (sweep_from now m l).failures ≡ none
unfolding sweep_from prune
sweep_from_untracked now j [] l d r h = h
sweep_from_untracked now j ((k, e) ∷ m) l d r h =
    let fails = drop_old l.window now e.fails in
    sweep_from_untracked now j m (prune_to k fails l) d.1 (Remains-tail k e m fails l d r)
      (prune_to_untracked k j fails e l (Remains-head k e m l r) h)

pub sweep_untracked :
    (now : ℕ) (j : Bytes) (l : Limiter)
    → IsMap l.failures
    → lookup j l.failures ≡ none
    → lookup j (sweep now l).failures ≡ none
unfolding sweep
sweep_untracked now j l d h =
    sweep_from_untracked now j l.failures (record l { next_unblock = none }) d (λ k e p. p) h

drop_expired_from_untracked :
    (now : ℕ) (j : Bytes) (ks : List Bytes) (l : Limiter)
    → lookup j l.failures ≡ none
    → lookup j (drop_expired_from now ks l).failures ≡ none
unfolding drop_expired_from
drop_expired_from_untracked now j [] l h = h
drop_expired_from_untracked now j (k ∷ ks) l h =
    ground (arith, h, drop_expired_from_untracked now j ks (remove k l) (remove_untracked k j l h))

evict_least_untracked :
    (evict : Bool) (j : Bytes) (ks : List Bytes) (l : Limiter)
    → lookup j l.failures ≡ none
    → lookup j (evict_least evict ks l).0.failures ≡ none
unfolding evict_least
evict_least_untracked evict j [] l h = h
evict_least_untracked true j (k ∷ ks) l h = remove_untracked k j l h
evict_least_untracked false j (k ∷ ks) l h = h

drop_expired_from-IsMap :
    (now : ℕ) (ks : List Bytes) (l : Limiter)
    → IsMap l.failures
    → IsMap (drop_expired_from now ks l).failures
unfolding drop_expired_from remove
drop_expired_from-IsMap now [] l d = d
drop_expired_from-IsMap now (k ∷ ks) l d =
    ground (arith, d, drop_expired_from-IsMap now ks (remove k l) (delete-IsMap k l.failures d))

reclassify_untracked :
    (now : ℕ) (j : Bytes) (l : Limiter)
    → IsMap l.failures
    → lookup j l.failures ≡ none
    → lookup j (reclassify now l).failures ≡ none
unfolding reclassify
reclassify_untracked now j l d h = ground (arith, h, sweep_untracked now j l d h)

-- A source that is not in the table is not put there by making room.
pub make_room_untracked :
    (now : ℕ) (evict : Bool) (j : Bytes) (l : Limiter)
    → IsMap l.failures
    → lookup j l.failures ≡ none
    → lookup j (make_room now evict l).0.failures ≡ none
unfolding make_room drop_expired
make_room_untracked now evict j l d h =
    let dropped = drop_expired_from_untracked now j l.seen l h in
    let map = drop_expired_from-IsMap now l.seen l d in
    let swept = reclassify_untracked now j (drop_expired_from now l.seen l) map dropped in
    ground (
      arith,
      h,
      dropped,
      swept,
      evict_least_untracked evict j (reclassify now (drop_expired now l)).evictable
          (reclassify now (drop_expired now l)) swept,
    )
