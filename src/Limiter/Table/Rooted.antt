-- ===== src/Limiter/Table/Rooted.antt =====
-- Every operation on the table keeps the heap in order
-- (ui/backend/internal/httpapi/login_limiter.go).
use ldapium.Prelude.{ℕ, Bool, true, false, none, List, [], ◌∷◌, if-both, if◌then◌else◌}
use ldapium.Prelude.Bytes.{Bytes}
use ldapium.Limiter.Table.{
  Entry, Limiter, fails_at, remove, prune_to, prune, drop_old, has_room, after, is_old, last, ltb,
  sweep_from, sweep, maybe_sweep, drop_expired_from, drop_expired, reclassify, evict_least,
  make_room,
}
use ldapium.Limiter.Table.Ordered.{Ordered, remove-Ordered, written-Ordered}

pub prune_to-Ordered :
    (k : Bytes) (fails : List ℕ) (l : Limiter) → Ordered l → Ordered (prune_to k fails l)
unfolding prune_to
prune_to-Ordered k [] l o = remove-Ordered k l o
prune_to-Ordered k (t ∷ ts) l o = written-Ordered k (t ∷ ts) l.seen l o

pub prune-Ordered :
    (now : ℕ) (k : Bytes) (e : Entry) (l : Limiter) → Ordered l → Ordered (prune now k e l)
unfolding prune
prune-Ordered now k e l o = prune_to-Ordered k (drop_old l.window now e.fails) l o

sweep_from-Ordered :
    (now : ℕ) (m : List (Bytes × Entry)) (l : Limiter) → Ordered l → Ordered (sweep_from now m l)
unfolding sweep_from
sweep_from-Ordered now [] l o = o
sweep_from-Ordered now ((k, e) ∷ m) l o =
    sweep_from-Ordered now m (prune now k e l) (prune-Ordered now k e l o)

sweep-Ordered : (now : ℕ) (l : Limiter) → Ordered l → Ordered (sweep now l)
unfolding sweep
sweep-Ordered now l o = sweep_from-Ordered now l.failures (record l { next_unblock = none }) o

pub maybe_sweep-Ordered : (now : ℕ) (l : Limiter) → Ordered l → Ordered (maybe_sweep now l)
unfolding maybe_sweep
maybe_sweep-Ordered now l o =
    if-both Ordered (ltb now l.next_sweep) _ _ (λ _. o) (λ _. sweep-Ordered now l o)

drop_expired_from-Ordered :
    (now : ℕ) (ks : List Bytes) (l : Limiter) → Ordered l → Ordered (drop_expired_from now ks l)
unfolding drop_expired_from
drop_expired_from-Ordered now [] l o = o
drop_expired_from-Ordered now (k ∷ ks) l o =
    if-both Ordered (is_old l.window now (last (fails_at k l))) _ _
      (λ _. drop_expired_from-Ordered now ks (remove k l) (remove-Ordered k l o)) (λ _. o)

pub drop_expired-Ordered : (now : ℕ) (l : Limiter) → Ordered l → Ordered (drop_expired now l)
unfolding drop_expired
drop_expired-Ordered now l o = drop_expired_from-Ordered now l.seen l o

pub reclassify-Ordered : (now : ℕ) (l : Limiter) → Ordered l → Ordered (reclassify now l)
unfolding reclassify
reclassify-Ordered now l o = at_heap l.evictable
  where
    at_heap :
        (ks : List Bytes)
        → Ordered
            (elim ks [ [] ↦ if after now l.next_unblock then sweep now l else l | j ∷ js ↦ l ])
    at_heap [] =
        if-both Ordered (after now l.next_unblock) _ _ (λ _. sweep-Ordered now l o) (λ _. o)
    at_heap (j ∷ js) = o

evict_least-Ordered :
    (evict : Bool) (ks : List Bytes) (l : Limiter) → Ordered l → Ordered (evict_least evict ks l).0
unfolding evict_least
evict_least-Ordered evict [] l o = o
evict_least-Ordered true (k ∷ ks) l o = remove-Ordered k l o
evict_least-Ordered false (k ∷ ks) l o = o

pub make_room-Ordered :
    (now : ℕ) (evict : Bool) (l : Limiter) → Ordered l → Ordered (make_room now evict l).0
unfolding make_room
make_room-Ordered now evict l o =
    let P : Limiter × Bool → Type 0 = λ r. Ordered r.0 in
    let dropped = drop_expired now l in
    let swept = reclassify now dropped in
    let o1 = drop_expired-Ordered now l o in
    let o2 = reclassify-Ordered now dropped o1 in
    if-both P (has_room l) _ _ (λ _. o)
      (λ _.
        if-both P (has_room dropped) _ _ (λ _. o1)
          (λ _.
            if-both P (has_room swept) _ _ (λ _. o2)
              (λ _. evict_least-Ordered evict swept.evictable swept o2)))
