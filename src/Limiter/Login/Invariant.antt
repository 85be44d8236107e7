-- ===== src/Limiter/Login/Invariant.antt =====
-- Whatever is asked of the limiter, its table stays bounded and well filed
-- (ui/backend/internal/httpapi/login_limiter.go).
use ldapium.Prelude.{
  ℕ, ◌≤◌, ◌<◌, ◌≡◌, refl, true, false, none, some, List, [], ◌∷◌, ◌++◌, arith, length,
  length-append, Option-cases, inl, inr,
}
use ldapium.Prelude.Bytes.{Bytes}
use ldapium.Prelude.Eq.{bytes_eq, bytes_beq_iff}
use ldapium.Prelude.Assoc.{lookup, put, put-IsMap, lookup-put, length-put_old, length-put_new}
use ldapium.Limiter.Table.{
  Entry, Limiter, drop_old, member, without, refile, prune_to, prune, maybe_sweep, make_room,
  new_bounded,
}
use ldapium.Limiter.Table.Entries.{member-refile, lookup-prune_to}
use ldapium.Limiter.Table.Invariant.{
  Inv, prune_to-Inv, maybe_sweep-Inv, make_room-Inv, make_room_frees,
}
use ldapium.Limiter.Table.Untracked.{make_room_untracked}
use ldapium.Limiter.Login.{
  Netip, limiter_key, recent, allow_at, allow, admit_known, admit_at, admit, failure_count,
  append_failure, record_new, record_known, record_at, record_failure, Call, allows, records,
  admits, counts, step, run,
}

pub refile_failures :
    (k : Bytes) (fails : List ℕ) (l : Limiter) → (refile k fails l).failures ≡ l.failures
unfolding refile
refile_failures k fails l = ground arith

new_bounded-Inv :
    (limit window max : ℕ) → 0 < max → Inv limit window max (new_bounded limit window max)
unfolding new_bounded lookup member
new_bounded-Inv limit window max h = record {
  limit_is = refl;
  window_is = refl;
  max_is = ground arith;
  map = tt;
  filed = λ k. refl;
  bounded = omega arith;
}

module _ (limit window max : ℕ) where
  pub prune-Inv :
      (now : ℕ) (k : Bytes) (e : Entry) (l : Limiter)
      → Inv limit window max l
      → lookup k l.failures ≡ some e
      → Inv limit window max (prune now k e l)
  unfolding prune
  prune-Inv now k e l v h = prune_to-Inv limit window max k (drop_old l.window now e.fails) e l v h

  append_failure-Inv :
      (now : ℕ) (k : Bytes) (fails : List ℕ) (l : Limiter)
      → Inv limit window max l
      → length (put k (record { fails = fails ++ now ∷ [] }) l.failures) ≤ max
      → Inv limit window max (append_failure now k fails l)
  unfolding append_failure
  append_failure-Inv now k fails l v room =
      let more = fails ++ now ∷ [] in
      let l' : Limiter = record l {
        failures = put k (record { fails = more }) l.failures;
        seen = without k l.seen ++ k ∷ [];
      } in
      record {
        limit_is = unfold refile in ground (arith, v.limit_is);
        window_is = unfold refile in ground (arith, v.window_is);
        max_is = unfold refile in ground (arith, v.max_is);
        map =
            unfold refile in ground (arith, put-IsMap k (record { fails = more }) l.failures v.map);
        filed = λ j. ground (
          arith,
          member-refile k j l' more,
          lookup-put k j (record { fails = more }) l.failures,
          length-append fails (now ∷ []),
          refile_failures k more l',
          v.filed j,
          v.limit_is,
        );
        bounded = unfold refile in ground (arith, room);
      }

  record_new-Inv :
      (now : ℕ) (k : Bytes) (l : Limiter)
      → Inv limit window max l
      → lookup k l.failures ≡ none
      → Inv limit window max (record_new now k l)
  unfolding record_new
  record_new-Inv now k l v h =
      let made = make_room-Inv limit window max now true l v in
      let l' = (make_room now true l).0 in
      ground (
        arith,
        made,
        make_room_frees limit window max now l v,
        append_failure-Inv now k [] l' made,
        length-put_new k (record { fails = [] ++ now ∷ [] }) l'.failures
            (make_room_untracked now true k l v.map h),
      )

  record_known-Inv :
      (now : ℕ) (k : Bytes) (fails : List ℕ) (e : Entry) (l : Limiter)
      → Inv limit window max l
      → lookup k l.failures ≡ some e
      → Inv limit window max (record_known now k fails (prune_to k fails l))
  unfolding record_known
  record_known-Inv now k [] e l v h =
      record_new-Inv now k (prune_to k [] l) (prune_to-Inv limit window max k [] e l v h)
        (ground (arith, lookup-prune_to k k l [], bytes_beq_iff k k))
  record_known-Inv now k (t ∷ ts) e l v h =
      let kept = prune_to-Inv limit window max k (t ∷ ts) e l v h in
      let l' = prune_to k (t ∷ ts) l in
      append_failure-Inv now k (t ∷ ts) l' kept (
        omega (
          arith,
          length-put_old k (record { fails = (t ∷ ts) ++ now ∷ [] }) (record { fails = t ∷ ts })
              l'.failures (ground (arith, lookup-prune_to k k l (t ∷ ts), bytes_beq_iff k k)),
          kept.bounded,
        ))

  record_at-Inv :
      (now : ℕ) (k : Bytes) (l : Limiter)
      → Inv limit window max l
      → Inv limit window max (record_at now k l)
  unfolding record_at prune
  record_at-Inv now k l v = elim (Option-cases (lookup k l.failures)) [
    | inl h ↦ rw (h, record_at) (record_new-Inv now k l v h)
    | inr (e, h) ↦ rw (h, record_at) (record_known-Inv now k (recent now l e) e l v h)
  ]

  allow_at-Inv :
      (now : ℕ) (k : Bytes) (l : Limiter)
      → Inv limit window max l
      → Inv limit window max (allow_at now k l).0
  unfolding allow_at
  allow_at-Inv now k l v = elim (Option-cases (lookup k l.failures)) [
    | inl h ↦ rw (h, allow_at) (make_room-Inv limit window max now false l v)
    | inr (e, h) ↦ rw (h, allow_at) (prune-Inv now k e l v h)
  ]

  admit_at-Inv :
      (now : ℕ) (k : Bytes) (reserved : ℕ) (l : Limiter)
      → Inv limit window max l
      → Inv limit window max (admit_at now k reserved l).0
  unfolding admit_at
  admit_at-Inv now k reserved l v = elim (Option-cases (lookup k l.failures)) [
    | inl h ↦ rw (h, admit_at) (make_room-Inv limit window max now false l v)
    | inr (e, h) ↦ rw (h, admit_at) (known e (recent now l e) (prune-Inv now k e l v h))
  ]
    where
      known :
          (e : Entry) (fails : List ℕ)
          → Inv limit window max (prune now k e l)
          → Inv limit window max (admit_known now reserved fails (prune now k e l)).0
      known e [] w = make_room-Inv limit window max now false (prune now k e l) w
      known e (t ∷ ts) w = w

  module _ (n : Netip) where
    pub step-Inv :
        (now : ℕ) (c : Call) (l : Limiter)
        → Inv limit window max l
        → Inv limit window max (step n now c l)
    unfolding step allow admit record_failure failure_count
    step-Inv now (allows ip) l v = ground (
      arith,
      v,
      allow_at-Inv now (limiter_key n ip) (maybe_sweep now l)
          (maybe_sweep-Inv limit window max now l v),
    )
    step-Inv now (records ip) l v = ground (
      arith,
      v,
      record_at-Inv now (limiter_key n ip) (maybe_sweep now l)
          (maybe_sweep-Inv limit window max now l v),
    )
    step-Inv now (admits ip reserved) l v = ground (
      arith,
      v,
      admit_at-Inv now (limiter_key n ip) reserved (maybe_sweep now l)
          (maybe_sweep-Inv limit window max now l v),
    )
    step-Inv now (counts ip) l v = elim (Option-cases (lookup (limiter_key n ip) l.failures)) [
      | inl h ↦ ground (arith, h, v)
      | inr (e, h) ↦ ground (arith, h, prune-Inv now (limiter_key n ip) e l v h)
    ]

    pub run-Inv :
        (cs : List (ℕ × Call)) (l : Limiter)
        → Inv limit window max l
        → Inv limit window max (run n cs l)
    unfolding run
    run-Inv [] l v = v
    run-Inv ((now, c) ∷ cs) l v = run-Inv cs (step n now c l) (step-Inv now c l v)

-- From an empty table with a positive cap, whatever is asked and recorded and at whatever times, at
-- most `max` sources are tracked, every tracked source has a failure, and the heap holds exactly
-- the tracked sources with fewer than `limit` failures.
pub run-new_bounded :
    (n : Netip) (limit window max : ℕ) (cs : List (ℕ × Call))
    → 0 < max
    → Inv limit window max (run n cs (new_bounded limit window max))
run-new_bounded n limit window max cs h =
    run-Inv limit window max n cs (new_bounded limit window max)
      (new_bounded-Inv limit window max h)
