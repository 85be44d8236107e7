-- ===== src/Limiter/Login/Victim.antt =====
-- Which entry an eviction takes (ui/backend/internal/httpapi/login_limiter.go).
use ldapium.Prelude.{
  ℕ, ◌≡◌, refl, subst, sym, inl, inr, Bool, true, false, List, [], ◌∷◌, ◌++◌, if-both, Option-cases,
  leb,
}
use ldapium.Prelude.Bytes.{Bytes}
use ldapium.Prelude.Eq.{bytes_eq}
use ldapium.Prelude.Assoc.{lookup}
use ldapium.Limiter.Table.{
  Limiter, new_bounded, member, fails_at, remove, prune, has_room, without, maybe_sweep,
  drop_expired, reclassify, evict_least, make_room,
}
use ldapium.Limiter.Table.Invariant.{member-root}
use ldapium.Limiter.Table.Ordered.{
  Ordered, IsOrdered, NoFuller, NoFuller-refl, All-member, written-Ordered,
}
use ldapium.Limiter.Table.Rooted.{
  prune-Ordered, maybe_sweep-Ordered, drop_expired-Ordered, reclassify-Ordered, make_room-Ordered,
}
use ldapium.Limiter.Login.{
  Netip, limiter_key, recent, allow_known, allow_new, allow_at, admit_new, admit_known, admit_at,
  append_failure, record_new, record_known, record_at, allow, admit, failure_count, record_failure,
  Call, allows, records, counts, admits, step, run,
}

append_failure-Ordered :
    (now : ℕ) (k : Bytes) (fails : List ℕ) (l : Limiter)
    → Ordered l
    → Ordered (append_failure now k fails l)
unfolding append_failure
append_failure-Ordered now k fails l o =
    written-Ordered k (fails ++ now ∷ []) (without k l.seen ++ k ∷ []) l o

record_new-Ordered : (now : ℕ) (k : Bytes) (l : Limiter) → Ordered l → Ordered (record_new now k l)
unfolding record_new
record_new-Ordered now k l o =
    let o' = make_room-Ordered now true l o in
    if-both Ordered (make_room now true l).1 _ _
      (λ _. append_failure-Ordered now k [] (make_room now true l).0 o') (λ _. o')

record_known-Ordered :
    (now : ℕ) (k : Bytes) (fails : List ℕ) (l : Limiter)
    → Ordered l
    → Ordered (record_known now k fails l)
unfolding record_known
record_known-Ordered now k [] l o = record_new-Ordered now k l o
record_known-Ordered now k (t ∷ ts) l o = append_failure-Ordered now k (t ∷ ts) l o

record_at-Ordered : (now : ℕ) (k : Bytes) (l : Limiter) → Ordered l → Ordered (record_at now k l)
unfolding record_at
record_at-Ordered now k l o = elim (Option-cases (lookup k l.failures)) [
  | inl e ↦ rw (e, record_at) (record_new-Ordered now k l o)
  | inr (x, e) ↦
      rw (e, record_at)
        (record_known-Ordered now k (recent now l x) (prune now k x l) (prune-Ordered now k x l o))
]

allow_at-Ordered : (now : ℕ) (k : Bytes) (l : Limiter) → Ordered l → Ordered (allow_at now k l).0
unfolding allow_at allow_new allow_known
allow_at-Ordered now k l o = elim (Option-cases (lookup k l.failures)) [
  | inl e ↦ rw (e, allow_at) (make_room-Ordered now false l o)
  | inr (x, e) ↦ rw (e, allow_at) (prune-Ordered now k x l o)
]

admit_known-Ordered :
    (now reserved : ℕ) (fails : List ℕ) (l : Limiter)
    → Ordered l
    → Ordered (admit_known now reserved fails l).0
unfolding admit_known admit_new
admit_known-Ordered now reserved [] l o = make_room-Ordered now false l o
admit_known-Ordered now reserved (t ∷ ts) l o = o

admit_at-Ordered :
    (now : ℕ) (k : Bytes) (reserved : ℕ) (l : Limiter)
    → Ordered l
    → Ordered (admit_at now k reserved l).0
unfolding admit_at admit_new
admit_at-Ordered now k reserved l o = elim (Option-cases (lookup k l.failures)) [
  | inl e ↦ rw (e, admit_at) (make_room-Ordered now false l o)
  | inr (x, e) ↦
      rw (e, admit_at)
        (admit_known-Ordered now reserved (recent now l x) (prune now k x l)
          (prune-Ordered now k x l o))
]

module _ (n : Netip) where
  failure_count-Ordered :
      (now : ℕ) (ip : Bytes) (l : Limiter) → Ordered l → Ordered (failure_count n now ip l).0
  unfolding failure_count
  failure_count-Ordered now ip l o = elim (Option-cases (lookup (limiter_key n ip) l.failures)) [
    | inl e ↦ rw (e, failure_count) o
    | inr (x, e) ↦ rw (e, failure_count) (prune-Ordered now (limiter_key n ip) x l o)
  ]

  step-Ordered : (now : ℕ) (c : Call) (l : Limiter) → Ordered l → Ordered (step n now c l)
  unfolding step allow admit record_failure
  step-Ordered now (allows ip) l o =
      if-both (λ (r : Limiter × (Bool × ℕ)). Ordered r.0) (leb l.limit 0) _ _ (λ _. o)
        (λ _.
          allow_at-Ordered now (limiter_key n ip) (maybe_sweep now l) (maybe_sweep-Ordered now l o))
  step-Ordered now (records ip) l o =
      if-both Ordered (leb l.limit 0) _ _ (λ _. o)
        (λ _.
          record_at-Ordered now (limiter_key n ip) (maybe_sweep now l)
            (maybe_sweep-Ordered now l o))
  step-Ordered now (counts ip) l o = failure_count-Ordered now ip l o
  step-Ordered now (admits ip reserved) l o =
      if-both (λ (r : Limiter × (Bool × ℕ)). Ordered r.0) (leb l.limit 0) _ _ (λ _. o)
        (λ _.
          admit_at-Ordered now (limiter_key n ip) reserved (maybe_sweep now l)
            (maybe_sweep-Ordered now l o))

  run-Ordered : (cs : List (ℕ × Call)) (l : Limiter) → Ordered l → Ordered (run n cs l)
  unfolding run
  run-Ordered [] l o = o
  run-Ordered ((now, c) ∷ cs) l o = run-Ordered cs (step n now c l) (step-Ordered now c l o)

-- An entry of the heap such that none there has fewer failures, or as many and an older last one.
pub record IsVictim (l : Limiter) (v : Bytes) : Type 0 where
  pub is_there : member v l.evictable ≡ true
  pub fewest : (i : Bytes) → member i l.evictable ≡ true → NoFuller (fails_at v l) (fails_at i l)

-- The answers of `makeRoom` that also frees the slot.
pub data Room (l dropped swept : Limiter) : Limiter × Bool → Type 0 where
  had_room : has_room l ≡ true → Room l dropped swept (l, true)
  expired : has_room dropped ≡ true → Room l dropped swept (dropped, true)
  reclassified : has_room swept ≡ true → Room l dropped swept (swept, true)
  none_evictable : swept.evictable ≡ [] → Room l dropped swept (swept, false)
  evicts : (v : Bytes) → IsVictim swept v → Room l dropped swept (remove v swept, true)

root-IsVictim :
    (k : Bytes) (ks : List Bytes) (l : Limiter) → l.evictable ≡ k ∷ ks → Ordered l → IsVictim l k
root-IsVictim k ks l e o =
    let f : Bytes → List ℕ = λ i. fails_at i l in
    let ordered = subst (λ (is : List Bytes). IsOrdered f is) e o in
    record {
      is_there = subst (λ (is : List Bytes). member k is ≡ true) (sym e) (member-root k ks);
      fewest = λ i m.
          All-member (λ j. NoFuller (f k) (f j)) i (k ∷ ks) (NoFuller-refl (f k), ordered.0)
            (subst (λ (is : List Bytes). member i is ≡ true) e m);
    }

make_room-Room :
    (now : ℕ) (l : Limiter)
    → Ordered l
    → let dropped = drop_expired now l in
      Room l dropped (reclassify now dropped) (make_room now true l)
unfolding make_room evict_least
make_room-Room now l o =
    let dropped = drop_expired now l in
    let swept = reclassify now dropped in
    let o2 = reclassify-Ordered now dropped (drop_expired-Ordered now l o) in
    let P = Room l dropped swept in
    if-both P (has_room l) _ _ had_room (λ _. if-both P (has_room dropped) _ _ expired (λ _.
      if-both P (has_room swept) _ _ reclassified (λ _. at_heap swept o2 swept.evictable refl)))
  where
    at_heap :
        (m : Limiter) (o : Ordered m) (ks : List Bytes)
        → m.evictable ≡ ks
        → Room l (drop_expired now l) m (evict_least true ks m)
    at_heap m o [] e = none_evictable e
    at_heap m o (k ∷ ks) e = evicts k (root-IsVictim k ks m e o)

-- From a new limiter, after any calls at any times and the sweep that may be due, `makeRoom` with
-- `evict` gives one of: room, as the table is; room, with the wholly expired sources at the front of
-- `seen` gone; room, after a full sweep; no room, if no source is evictable then; or one source gone,
-- of the evictable ones one with the fewest failures, and of these one whose last failure is the
-- oldest.
pub evicts_fewest :
    (n : Netip) (limit window max now : ℕ) (cs : List (ℕ × Call))
    → let l = maybe_sweep now (run n cs (new_bounded limit window max)) in
      let dropped = drop_expired now l in
      Room l dropped (reclassify now dropped) (make_room now true l)
unfolding new_bounded
evicts_fewest n limit window max now cs =
    make_room-Room now (maybe_sweep now (run n cs (new_bounded limit window max))) (
      maybe_sweep-Ordered now (run n cs (new_bounded limit window max))
        (run-Ordered n cs (new_bounded limit window max) tt))
