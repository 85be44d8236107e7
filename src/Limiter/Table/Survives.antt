-- ===== src/Limiter/Table/Survives.antt =====
-- No operation of the table takes a blocked source's entry away before its time
-- (ui/backend/internal/httpapi/login_limiter.go).
use ldapium.Prelude.{
  ℕ, ◌≤◌, ◌<◌, ◌≡◌, refl, sym, subst, ◌∙◌, Bool, true, false, Option, none, some, List, [], ◌∷◌,
  arith, ltb, if◌then◌else◌, Bool-cases, inl, inr,
}
use ldapium.Prelude.Bytes.{Bytes}
use ldapium.Prelude.Eq.{bytes_eq, ◌==◌, bytes_beq_iff}
use ldapium.Prelude.Assoc.{lookup, IsMap}
use ldapium.Limiter.Table.{
  Entry, Limiter, drop_old, member, remove, refile, prune_to, prune, sweep_from, sweep, maybe_sweep,
  fails_at, is_old, last, drop_expired_from, drop_expired, has_room, evict_least, reclassify,
  make_room, after,
}
use ldapium.Limiter.Table.Entries.{entry_of, lookup-remove, lookup-prune_to}
use ldapium.Limiter.Table.Invariant.{
  Inv, Filed, Remains, Remains-head, Remains-tail, drop_expired-Inv, reclassify-Inv, member-root,
}
use ldapium.Limiter.Table.Blocked.{IsBlocked, IsBlocked-drop_old, IsBlocked-length, IsBlocked-last}

-- The entry at a key is blocked until `until`.
abbrev pub BlockedAt : ℕ → ℕ → ℕ → Bytes → Limiter → Type 0
BlockedAt limit window until j l =
    (e : Entry) × (lookup j l.failures ≡ some e) × IsBlocked limit window until e.fails

abbrev fails_of : Option Entry → List ℕ
fails_of none = []
fails_of (some e) = e.fails

prune_to_window : (k : Bytes) (ts : List ℕ) (l : Limiter) → (prune_to k ts l).window ≡ l.window
unfolding prune_to refile remove
prune_to_window k [] l = refl
prune_to_window k (t ∷ ts) l = ground arith

remove_window : (k : Bytes) (l : Limiter) → (remove k l).window ≡ l.window
unfolding remove
remove_window k l = refl

module _ (limit window max until now : ℕ) (positive : 0 < limit) (early : now ≤ until)
    (j : Bytes) where
  not_old :
      (k : Bytes) (l : Limiter)
      → l.window ≡ window
      → BlockedAt limit window until j l
      → is_old l.window now (last (fails_at k l)) ≡ true
      → (k == j) ≡ false
  not_old k l w (x, here, b) old = elim (Bool-cases (k == j)) [
    | inr other ↦ other
    | inl same ↦
        let at : lookup k l.failures ≡ some x =
          subst (λ (i : Bytes). lookup i l.failures ≡ some x) (sym ((bytes_beq_iff k j).0 same))
            here in
        let young = IsBlocked-last limit window until positive now x.fails early b in
        ground (arith, at, w, young, old)
  ]

  fails-IsBlocked :
      (ts : List ℕ)
      → IsBlocked limit window until ts
      → (e : Entry) × (entry_of ts ≡ some e) × IsBlocked limit window until e.fails
  fails-IsBlocked [] b = absurd (omega (arith, IsBlocked-length limit window until positive [] b))
  fails-IsBlocked (t ∷ ts) b = (record { fails = t ∷ ts }, refl, b)

  pub prune_to_survives :
      (k : Bytes) (e : Entry) (l : Limiter)
      → l.window ≡ window
      → lookup k l.failures ≡ some e
      → BlockedAt limit window until j l
      → BlockedAt limit window until j (prune_to k (drop_old l.window now e.fails) l)
  prune_to_survives k e l w at (x, here, b) = elim (Bool-cases (k == j)) [
    | inr other ↦
        (x, ground (arith, lookup-prune_to k j l (drop_old l.window now e.fails), other, here), b)
    | inl same ↦
        let one : some x ≡ some e =
          sym here
          ∙ subst (λ (i : Bytes). lookup i l.failures ≡ some e) ((bytes_beq_iff k j).0 same) at in
        let b' : IsBlocked limit window until e.fails =
          subst (λ (o : Option Entry). IsBlocked limit window until (fails_of o)) one b in
        let (y, made, still) = fails-IsBlocked (drop_old l.window now e.fails) (
          subst (λ (v : ℕ). IsBlocked limit window until (drop_old v now e.fails)) (sym w)
            (IsBlocked-drop_old limit window until positive now e.fails early b')) in
        (
          y,
          ground (arith, lookup-prune_to k j l (drop_old l.window now e.fails), same, made),
          still,
        )
  ]

  pub remove_survives :
      (k : Bytes) (l : Limiter)
      → (k == j) ≡ false
      → BlockedAt limit window until j l
      → BlockedAt limit window until j (remove k l)
  remove_survives k l other (x, here, b) = (x, ground (arith, lookup-remove k j l, other, here), b)

  sweep_from_survives :
      (m : List (Bytes × Entry)) (l : Limiter)
      → IsMap m
      → Remains m l
      → l.window ≡ window
      → BlockedAt limit window until j l
      → BlockedAt limit window until j (sweep_from now m l)
  unfolding sweep_from prune
  sweep_from_survives [] l d r w b = b
  sweep_from_survives ((k, e) ∷ m) l d r w b =
      let ts = drop_old l.window now e.fails in
      sweep_from_survives m (prune_to k ts l) d.1 (Remains-tail k e m ts l d r)
        (prune_to_window k ts l ∙ w) (prune_to_survives k e l w (Remains-head k e m l r) b)

  pub sweep_survives :
      (l : Limiter)
      → Inv limit window max l
      → BlockedAt limit window until j l
      → BlockedAt limit window until j (sweep now l)
  unfolding sweep
  sweep_survives l v b =
      sweep_from_survives l.failures (record l { next_unblock = none }) v.map (λ k e h. h)
        v.window_is b

  pub maybe_sweep_survives :
      (l : Limiter)
      → Inv limit window max l
      → BlockedAt limit window until j l
      → BlockedAt limit window until j (maybe_sweep now l)
  unfolding maybe_sweep
  maybe_sweep_survives l v b = elim (Bool-cases (ltb now l.next_sweep)) [
    | inl e ↦ rw (e, maybe_sweep) b
    | inr e ↦ rw (e, maybe_sweep) (sweep_survives l v b)
  ]

  drop_expired_from_survives :
      (ks : List Bytes) (l : Limiter)
      → l.window ≡ window
      → BlockedAt limit window until j l
      → BlockedAt limit window until j (drop_expired_from now ks l)
  unfolding drop_expired_from
  drop_expired_from_survives [] l w b = b
  drop_expired_from_survives (k ∷ ks) l w b =
      elim (Bool-cases (is_old l.window now (last (fails_at k l)))) [
        | inr e ↦ rw e b
        | inl e ↦ rw e (
            drop_expired_from_survives ks (remove k l) (remove_window k l ∙ w)
              (remove_survives k l (not_old k l w b e) b))
      ]

  drop_expired_survives :
      (l : Limiter)
      → Inv limit window max l
      → BlockedAt limit window until j l
      → BlockedAt limit window until j (drop_expired now l)
  unfolding drop_expired
  drop_expired_survives l v b = drop_expired_from_survives l.seen l v.window_is b

  reclassify_survives :
      (l : Limiter)
      → Inv limit window max l
      → BlockedAt limit window until j l
      → BlockedAt limit window until j (reclassify now l)
  unfolding reclassify
  reclassify_survives l v b = at_heap l.evictable
    where
      at_heap :
          (ks : List Bytes)
          → BlockedAt limit window until j
              (elim ks [ [] ↦ if after now l.next_unblock then sweep now l else l | i ∷ is ↦ l ])
      at_heap (k ∷ ks) = b
      at_heap [] = elim (Bool-cases (after now l.next_unblock)) [
        | inl e ↦ rw e (sweep_survives l v b)
        | inr e ↦ rw e b
      ]

  blocked_not_evictable :
      (l : Limiter)
      → Inv limit window max l
      → BlockedAt limit window until j l
      → member j l.evictable ≡ false
  blocked_not_evictable l v (x, here, b) =
      let filed : Filed limit (some x) (member j l.evictable) =
        subst (λ (o : Option Entry). Filed limit o (member j l.evictable)) here (v.filed j) in
      ground (arith, filed, IsBlocked-length limit window until positive x.fails b)

  evict_least_survives :
      (evict : Bool) (ks : List Bytes) (l : Limiter)
      → Inv limit window max l
      → l.evictable ≡ ks
      → BlockedAt limit window until j l
      → BlockedAt limit window until j (evict_least evict ks l).0
  unfolding evict_least
  evict_least_survives evict [] l v e b = b
  evict_least_survives false (k ∷ ks) l v e b = b
  evict_least_survives true (k ∷ ks) l v e b =
      let victim = subst (λ (is : List Bytes). member k is ≡ true) (sym e) (member-root k ks) in
      remove_survives k l (apart victim) b
    where
      apart : member k l.evictable ≡ true → (k == j) ≡ false
      apart m = elim (Bool-cases (k == j)) [
        | inr other ↦ other
        | inl same ↦
            let clash =
              subst (λ (i : Bytes). member i l.evictable ≡ true) ((bytes_beq_iff k j).0 same) m in
            cc (clash, blocked_not_evictable l v b)
      ]

  -- Making room, with or without an eviction, keeps a blocked source's entry.
  pub make_room_survives :
      (evict : Bool) (l : Limiter)
      → Inv limit window max l
      → BlockedAt limit window until j l
      → BlockedAt limit window until j (make_room now evict l).0
  unfolding make_room
  make_room_survives evict l v b = choose (has_room l) (has_room dropped) (has_room swept)
    where
      dropped : Limiter
      dropped = drop_expired now l

      swept : Limiter
      swept = reclassify now dropped

      at_dropped : BlockedAt limit window until j dropped
      at_dropped = drop_expired_survives l v b

      dropped-Inv : Inv limit window max dropped
      dropped-Inv = drop_expired-Inv limit window max now l v

      at_swept : BlockedAt limit window until j swept
      at_swept = reclassify_survives dropped dropped-Inv at_dropped

      choose :
          (p q r : Bool)
          → BlockedAt limit window until j
              (if p
                then (l, true)
                else if q
                then (dropped, true)
                else if r
                then (swept, true)
                else evict_least evict swept.evictable swept).0
      choose true q r = b
      choose false true r = at_dropped
      choose false false true = at_swept
      choose false false false =
          evict_least_survives evict swept.evictable swept
            (reclassify-Inv limit window max now dropped dropped-Inv) refl at_swept
