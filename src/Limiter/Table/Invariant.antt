-- ===== src/Limiter/Table/Invariant.antt =====
-- The table is bounded, and the heap holds exactly the entries below the limit
-- (ui/backend/internal/httpapi/login_limiter.go).
use ldapium.Prelude.{
  ℕ, ◌≤◌, ◌<◌, ◌≡◌, refl, sym, subst, Bool, true, false, Option, none, some, List, [], ◌∷◌, arith,
  ltb, length,
}
use ldapium.Prelude.Bytes.{Bytes}
use ldapium.Prelude.Eq.{bytes_eq, bytes_beq_iff}
use ldapium.Prelude.Assoc.{
  lookup, IsMap, put-IsMap, delete-IsMap, length-delete_le, length-put_old, length-delete,
}
use ldapium.Limiter.Table.{
  Entry, Limiter, drop_old, member, remove, refile, prune_to, prune, sweep_from, sweep, maybe_sweep,
  drop_expired_from, drop_expired, evict_least, reclassify, make_room,
}
use ldapium.Limiter.Table.Entries.{lookup-remove, member-remove, lookup-prune_to, member-prune_to}

-- What stands at a key agrees with its place in the heap; an entry has a failure.
abbrev pub Filed : ℕ → Option Entry → Bool → Type 0
Filed limit none b = b ≡ false
Filed limit (some e) b = (0 < length e.fails) × (b ≡ ltb (length e.fails) limit)

pub record Inv (limit window max : ℕ) (l : Limiter) : Type 0 where
  pub limit_is : l.limit ≡ limit
  pub window_is : l.window ≡ window
  pub max_is : l.max_entries ≡ max
  pub map : IsMap l.failures
  pub filed : (k : Bytes) → Filed limit (lookup k l.failures) (member k l.evictable)
  pub bounded : length l.failures ≤ max

-- What is still to be visited is still in the table.
abbrev pub Remains : List (Bytes × Entry) → Limiter → Type 0
Remains m l = (k : Bytes) (e : Entry) → lookup k m ≡ some e → lookup k l.failures ≡ some e

pub Remains-head :
    (k : Bytes) (e : Entry) (m : List (Bytes × Entry)) (l : Limiter)
    → Remains ((k, e) ∷ m) l
    → lookup k l.failures ≡ some e
unfolding lookup
Remains-head k e m l r = r k e (ground (arith, bytes_beq_iff k k))

pub Remains-tail :
    (k : Bytes) (e : Entry) (m : List (Bytes × Entry)) (fails : List ℕ) (l : Limiter)
    → IsMap ((k, e) ∷ m)
    → Remains ((k, e) ∷ m) l
    → Remains m (prune_to k fails l)
unfolding lookup
Remains-tail k e m fails l d r j x h =
    ground (arith, bytes_beq_iff k j, lookup-prune_to k j l fails, r j x)

module _ (limit window max : ℕ) where
  pub remove-Inv :
      (k : Bytes) (l : Limiter) → Inv limit window max l → Inv limit window max (remove k l)
  unfolding remove
  remove-Inv k l v = record {
    limit_is = v.limit_is;
    window_is = v.window_is;
    max_is = v.max_is;
    map = delete-IsMap k l.failures v.map;
    filed = λ j. ground (arith, lookup-remove k j l, member-remove k j l, v.filed j);
    bounded = omega (arith, length-delete_le k l.failures, v.bounded);
  }

  pub prune_to-Inv :
      (k : Bytes) (fails : List ℕ) (e : Entry) (l : Limiter)
      → Inv limit window max l
      → lookup k l.failures ≡ some e
      → Inv limit window max (prune_to k fails l)
  unfolding prune_to
  prune_to-Inv k [] e l v h = remove-Inv k l v
  prune_to-Inv k (t ∷ ts) e l v h = record {
    limit_is = unfold refile in ground (arith, v.limit_is);
    window_is = unfold refile in ground (arith, v.window_is);
    max_is = unfold refile in ground (arith, v.max_is);
    map = unfold refile in ground (arith, put-IsMap k (record { fails = t ∷ ts }) l.failures v.map);
    filed = λ j. ground (
      arith,
      lookup-prune_to k j l (t ∷ ts),
      member-prune_to k j l (t ∷ ts),
      v.filed j,
      v.limit_is,
    );
    bounded =
        unfold refile in
        ground (arith, length-put_old k (record { fails = t ∷ ts }) e l.failures h, v.bounded);
  }

  sweep_from-Inv :
      (now : ℕ) (m : List (Bytes × Entry)) (l : Limiter)
      → IsMap m
      → Remains m l
      → Inv limit window max l
      → Inv limit window max (sweep_from now m l)
  unfolding sweep_from prune
  sweep_from-Inv now [] l d r v = v
  sweep_from-Inv now ((k, e) ∷ m) l d r v =
      let fails = drop_old l.window now e.fails in
      sweep_from-Inv now m (prune_to k fails l) d.1 (Remains-tail k e m fails l d r)
        (prune_to-Inv k fails e l v (Remains-head k e m l r))

  pub sweep-Inv :
      (now : ℕ) (l : Limiter) → Inv limit window max l → Inv limit window max (sweep now l)
  unfolding sweep
  sweep-Inv now l v =
      sweep_from-Inv now l.failures (record l { next_unblock = none }) v.map (λ k e h. h)
        (record {
          limit_is = v.limit_is;
          window_is = v.window_is;
          max_is = v.max_is;
          map = v.map;
          filed = v.filed;
          bounded = v.bounded;
        })

  pub maybe_sweep-Inv :
      (now : ℕ) (l : Limiter) → Inv limit window max l → Inv limit window max (maybe_sweep now l)
  unfolding maybe_sweep
  maybe_sweep-Inv now l v = ground (arith, v, sweep-Inv now l v)

  drop_expired_from-Inv :
      (now : ℕ) (ks : List Bytes) (l : Limiter)
      → Inv limit window max l
      → Inv limit window max (drop_expired_from now ks l)
  unfolding drop_expired_from
  drop_expired_from-Inv now [] l v = v
  drop_expired_from-Inv now (k ∷ ks) l v =
      ground (arith, v, drop_expired_from-Inv now ks (remove k l) (remove-Inv k l v))

  pub drop_expired-Inv :
      (now : ℕ) (l : Limiter) → Inv limit window max l → Inv limit window max (drop_expired now l)
  unfolding drop_expired
  drop_expired-Inv now l v = drop_expired_from-Inv now l.seen l v

  pub reclassify-Inv :
      (now : ℕ) (l : Limiter) → Inv limit window max l → Inv limit window max (reclassify now l)
  unfolding reclassify
  reclassify-Inv now l v = ground (arith, v, sweep-Inv now l v)

-- The root of the heap is one of its entries.
pub member-root : (k : Bytes) (ks : List Bytes) → member k (k ∷ ks) ≡ true
unfolding member
member-root k ks = ground (arith, bytes_beq_iff k k)

module _ (limit window max : ℕ) where
  evict_least-Inv :
      (evict : Bool) (ks : List Bytes) (l : Limiter)
      → Inv limit window max l
      → Inv limit window max (evict_least evict ks l).0
  unfolding evict_least
  evict_least-Inv evict [] l v = v
  evict_least-Inv true (k ∷ ks) l v = remove-Inv limit window max k l v
  evict_least-Inv false (k ∷ ks) l v = v

  -- What is in the heap is in the table.
  evictable_tracked :
      (k : Bytes) (l : Limiter)
      → Inv limit window max l
      → member k l.evictable ≡ true
      → (e : Entry) × (lookup k l.failures ≡ some e)
  evictable_tracked k l v m = found (lookup k l.failures) (v.filed k)
    where
      found : (o : Option Entry) → Filed limit o (member k l.evictable) → (e : Entry) × (o ≡ some e)
      found none f = cc
      found (some e) f = (e, refl)

  -- An eviction frees a slot.
  evict_least_frees :
      (ks : List Bytes) (l : Limiter)
      → Inv limit window max l
      → l.evictable ≡ ks
      → (evict_least true ks l).1 ≡ true
      → length (evict_least true ks l).0.failures < max
  unfolding evict_least remove
  evict_least_frees [] l v e h = cc
  evict_least_frees (k ∷ ks) l v e h =
      let (x, at) =
        evictable_tracked k l v
          (subst (λ (js : List Bytes). member k js ≡ true) (sym e) (member-root k ks)) in
      omega (arith, length-delete k x l.failures v.map at, v.bounded)

  pub make_room-Inv :
      (now : ℕ) (evict : Bool) (l : Limiter)
      → Inv limit window max l
      → Inv limit window max (make_room now evict l).0
  unfolding make_room
  make_room-Inv now evict l v =
      let dropped = drop_expired-Inv limit window max now l v in
      let swept = reclassify-Inv limit window max now (drop_expired now l) dropped in
      ground (
        arith,
        v,
        dropped,
        swept,
        evict_least-Inv evict (reclassify now (drop_expired now l)).evictable
            (reclassify now (drop_expired now l)) swept,
      )

  pub make_room_frees :
      (now : ℕ) (l : Limiter)
      → Inv limit window max l
      → (make_room now true l).1 ≡ true
      → length (make_room now true l).0.failures < max
  unfolding make_room
  make_room_frees now l v h =
      let dropped = drop_expired-Inv limit window max now l v in
      let swept = reclassify-Inv limit window max now (drop_expired now l) dropped in
      ground (
        arith,
        v,
        dropped,
        swept,
        evict_least_frees (reclassify now (drop_expired now l)).evictable
            (reclassify now (drop_expired now l)) swept refl,
      )
