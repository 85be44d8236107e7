-- ===== src/Limiter/Login/Room.antt =====
-- Who is refused: blocked sources until their time, and new ones when every slot is blocked
-- (ui/backend/internal/httpapi/login_limiter.go).
use ldapium.Prelude.{
  ℕ, ◌+◌, ◌≤◌, ◌<◌, ◌≡◌, refl, Bool, true, false, Option, none, some, List, [], ◌∷◌, arith,
  if◌then◌else◌, length, All, subst, ap, sym, Option-cases, inl, inr,
}
use ldapium.Prelude.Bytes.{Bytes}
use ldapium.Prelude.Eq.{bytes_eq}
use ldapium.Prelude.Assoc.{lookup}
use ldapium.Limiter.Table.{Entry, Limiter, drop_old, member, maybe_sweep, make_room}
use ldapium.Limiter.Table.Invariant.{Inv, Filed, drop_expired-Inv, reclassify-Inv, maybe_sweep-Inv}
use ldapium.Limiter.Login.{
  Netip, limiter_key, allow_new, allow_at, allow, admit, failure_count, record_failure, Call,
  allows, records, admits, counts, step, run,
}
use ldapium.Limiter.Table.Blocked.{IsBlocked-length, IsBlocked-drop_old}
use ldapium.Limiter.Table.Survives.{BlockedAt, maybe_sweep_survives}
use ldapium.Limiter.Login.Invariant.{step-Inv}
use ldapium.Limiter.Table.{has_room, evict_least, reclassify, drop_expired}
use ldapium.Limiter.Login.Blocked.{
  prune_survives, record_at_survives, allow_at_survives, admit_at_survives,
}
use ldapium.Limiter.Login.Invariant.{run-Inv}

-- A call that comes no later than `until`, and no earlier than a window before it.
abbrev pub InWindow : ℕ → ℕ → ℕ × Call → Type 0
InWindow window until c = (c.0 ≤ until) × (until ≤ c.0 + window)

module _ (n : Netip) (limit window max until : ℕ) (positive : 0 < limit) (j : Bytes) where
  step_survives :
      (now : ℕ) (c : Call) (l : Limiter)
      → (now ≤ until) × (until ≤ now + window)
      → Inv limit window max l
      → BlockedAt limit window until j l
      → BlockedAt limit window until j (step n now c l)
  unfolding step allow admit record_failure failure_count
  step_survives now c l (early, late) v b = by_call c
    where
      swept : BlockedAt limit window until j (maybe_sweep now l)
      swept = maybe_sweep_survives limit window max until now positive early j l v b

      swept-Inv : Inv limit window max (maybe_sweep now l)
      swept-Inv = maybe_sweep-Inv limit window max now l v

      by_call : (d : Call) → BlockedAt limit window until j (step n now d l)
      by_call (allows ip) = ground (
        arith,
        b,
        allow_at_survives limit window max until now positive early late j (limiter_key n ip)
            (maybe_sweep now l) swept-Inv swept,
      )
      by_call (records ip) = ground (
        arith,
        b,
        record_at_survives limit window max until now positive early late j (limiter_key n ip)
            (maybe_sweep now l) swept-Inv swept,
      )
      by_call (admits ip reserved) = ground (
        arith,
        b,
        admit_at_survives limit window max until now positive early late j (limiter_key n ip)
            reserved (maybe_sweep now l) swept-Inv swept,
      )
      by_call (counts ip) = elim (Option-cases (lookup (limiter_key n ip) l.failures)) [
        | inl h ↦ ground (arith, h, b)
        | inr (e, h) ↦ ground (
          arith,
          h,
          prune_survives limit window max until now positive early late j (limiter_key n ip) e l v h
              b,
        )
      ]

  run_survives :
      (cs : List (ℕ × Call)) (l : Limiter)
      → All (InWindow window until) cs
      → Inv limit window max l
      → BlockedAt limit window until j l
      → BlockedAt limit window until j (run n cs l)
  unfolding run
  run_survives [] l w v b = b
  run_survives ((now, c) ∷ cs) l w v b =
      run_survives cs (step n now c l) w.1 (step-Inv limit window max n now c l v)
        (step_survives now c l w.0 v b)

-- A source whose latest failures, at least `limit` of them, stay inside the window up to `until` is
-- refused at any time up to `until`, whatever any sources did in between: no flood of other
-- sources, eviction or sweep resets it.
pub blocked_stays_blocked :
    (n : Netip) (limit window max until now : ℕ) (ip : Bytes) (cs : List (ℕ × Call)) (l : Limiter)
    → 0 < limit
    → Inv limit window max l
    → BlockedAt limit window until (limiter_key n ip) l
    → All (InWindow window until) cs
    → now ≤ until
    → (allow n now ip (run n cs l)).1.0 ≡ false
unfolding allow allow_at
blocked_stays_blocked n limit window max until now ip cs l positive v b w early =
    let key = limiter_key n ip in
    let l' = run n cs l in
    let v' = run-Inv limit window max n cs l v in
    let b' = run_survives n limit window max until positive key cs l w v b in
    let (e, at, still) =
      maybe_sweep_survives limit window max until now positive early key l' v' b' in
    let vs = maybe_sweep-Inv limit window max now l' v' in
    let left = IsBlocked-drop_old limit window until positive now e.fails early still in
    ground (
      arith,
      at,
      vs.limit_is,
      vs.window_is,
      v'.limit_is,
      IsBlocked-length limit window until positive (drop_old window now e.fails) left,
    )

-- Every tracked source is at or over the limit.
abbrev pub AllBlocked : ℕ → Limiter → Type 0
AllBlocked limit l = (k : Bytes) (e : Entry) → lookup k l.failures ≡ some e → limit ≤ length e.fails

module _ (limit window max : ℕ) where
  empty_heap : (l : Limiter) → Inv limit window max l → l.evictable ≡ [] → AllBlocked limit l
  unfolding member
  empty_heap l v none_left k e h =
      let filed : Filed limit (some e) (member k l.evictable) =
        subst (λ (o : Option Entry). Filed limit o (member k l.evictable)) h (v.filed k) in
      ground (arith, filed, ap (member k) none_left)

  evict_least_refuses :
      (evict : Bool) (ks : List Bytes) (l : Limiter)
      → l.evictable ≡ ks
      → (evict_least evict ks l).1 ≡ false
      → ((evict_least evict ks l).0 ≡ l) × (l.evictable ≡ [])
  unfolding evict_least
  evict_least_refuses evict [] l e h = (refl, e)
  evict_least_refuses evict (k ∷ ks) l e h = cc

  make_room_refuses :
      (now : ℕ) (evict : Bool) (l : Limiter)
      → Inv limit window max l
      → (make_room now evict l).1 ≡ false
      → let l' = (make_room now evict l).0 in (max ≤ length l'.failures) × AllBlocked limit l'
  unfolding make_room
  make_room_refuses now evict l v h = choose (has_room l) (has_room l1) (has_room l2) refl h
    where
      l1 : Limiter
      l1 = drop_expired now l

      l2 : Limiter
      l2 = reclassify now l1

      v2 : Inv limit window max l2
      v2 = reclassify-Inv limit window max now l1 (drop_expired-Inv limit window max now l v)

      refused :
          has_room l2 ≡ false
          → (evict_least evict l2.evictable l2).1 ≡ false
          → let l' = (evict_least evict l2.evictable l2).0 in
            (max ≤ length l'.failures) × AllBlocked limit l'
      refused full e =
          let (same, none_left) = evict_least_refuses evict l2.evictable l2 refl e in
          subst (λ (x : Limiter). (max ≤ length x.failures) × AllBlocked limit x) (sym same)
            (ground (arith, full, v2.max_is), empty_heap l2 v2 none_left)

      choose :
          (p q r : Bool)
          → has_room l2 ≡ r
          → (if p
              then (l, true)
              else if q
              then (l1, true)
              else if r
              then (l2, true)
              else evict_least evict l2.evictable l2).1
            ≡ false
          → let l' =
              (if p
                then (l, true)
                else if q
                then (l1, true)
                else if r
                then (l2, true)
                else evict_least evict l2.evictable l2).0 in
            (max ≤ length l'.failures) × AllBlocked limit l'
      choose true q r e x = cc
      choose false true r e x = cc
      choose false false true e x = cc
      choose false false false e x = refused e x

allow-new :
    (n : Netip) (limit window max now : ℕ) (ip : Bytes) (l : Limiter)
    → 0 < limit
    → Inv limit window max l
    → lookup (limiter_key n ip) (maybe_sweep now l).failures ≡ none
    → allow n now ip l ≡ allow_new now (maybe_sweep now l)
unfolding allow allow_at
allow-new n limit window max now ip l positive v h = ground (arith, v.limit_is, h)

refuse_new :
    (limit window max now : ℕ) (l : Limiter)
    → Inv limit window max l
    → (allow_new now l).1.0 ≡ false
    → let (l', answer) = allow_new now l in
      (max ≤ length l'.failures) × AllBlocked limit l' × (answer.1 ≡ window)
unfolding allow_new
refuse_new limit window max now l v refused =
    let e : (make_room now false l).1 ≡ false = ground arith in
    let (full, blocked) = make_room_refuses limit window max now false l v e in
    (full, blocked, ground (arith, e, v.window_is))

-- A source that is not tracked is refused only if the table then holds `max` sources, every one of
-- them at or over the limit, and it is told to wait for a whole window.
new_source_refused :
    (n : Netip) (limit window max now : ℕ) (ip : Bytes) (l : Limiter)
    → 0 < limit
    → Inv limit window max l
    → lookup (limiter_key n ip) (maybe_sweep now l).failures ≡ none
    → (allow n now ip l).1.0 ≡ false
    → let (l', answer) = allow n now ip l in
      (max ≤ length l'.failures) × AllBlocked limit l' × (answer.1 ≡ window)
new_source_refused n limit window max now ip l positive v h refused =
    let same = allow-new n limit window max now ip l positive v h in
    subst
      (λ (r : Limiter × (Bool × ℕ)).
        (max ≤ length r.0.failures) × AllBlocked limit r.0 × (r.1.1 ≡ window))
      (sym same)
      (refuse_new limit window max now (maybe_sweep now l)
        (maybe_sweep-Inv limit window max now l v)
        (subst (λ (r : Limiter × (Bool × ℕ)). r.1.0 ≡ false) same refused))
