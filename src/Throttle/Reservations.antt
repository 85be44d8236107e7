-- ===== src/Throttle/Reservations.antt =====
-- The table of reservations is bounded (ui/backend/internal/httpapi/machine_limiter.go).
use ldapium.Prelude.{
  ℕ, suc, ◌+◌, ◌≤◌, ◌<◌, ◌≡◌, refl, sym, subst, Bool, true, false, Bool-cases, Option-cases, inl,
  inr, ◌&&◌, none, some, or_else, is_some, List, [], ◌∷◌, ◌++◌, leb, length, retain, arith,
}
use ldapium.Prelude.Bytes.{Bytes}
use ldapium.Prelude.Eq.{bytes_eq, nat_eq, ◌==◌, beq_refl}
use ldapium.Prelude.Assoc.{
  lookup, put, lookup-put, length-put_old, length-put_new, length-delete_le,
}
use ldapium.Limiter.Login.{Netip, limiter_key}
use ldapium.Throttle.{
  Reservation, Ticket, Throttle, is_live, live_of, live_at, sweep, refused, issue, ask, admit,
  without_id, give_back, release, new_throttle, Call, admits, releases, run,
}

length-put_le :
    (key : Bytes) (rs : List Reservation) (res : List (Bytes × List Reservation))
    → length (put key rs res) ≤ suc (length res)
length-put_le key rs res = elim (Option-cases (lookup key res)) [
  | inl e ↦ omega (arith, length-put_new key rs res e)
  | inr (v, e) ↦ omega (arith, length-put_old key rs v res e)
]

length-put_tracked :
    (key : Bytes) (rs : List Reservation) (res : List (Bytes × List Reservation))
    → is_some (lookup key res) ≡ true
    → length (put key rs res) ≡ length res
length-put_tracked key rs res h = elim (Option-cases (lookup key res)) [
  | inl e ↦ ground (arith, h, e)
  | inr (v, e) ↦ length-put_old key rs v res e
]

live_at-none :
    (now : ℕ) (key : Bytes) (res : List (Bytes × List Reservation))
    → lookup key res ≡ none
    → live_at now key res ≡ (res, 0)
unfolding live_at
live_at-none now key res e = rw (e, live_at) refl

live_at-some :
    (now : ℕ) (key : Bytes) (rs : List Reservation) (res : List (Bytes × List Reservation))
    → lookup key res ≡ some rs
    → live_at now key res ≡ live_of now key rs res
unfolding live_at
live_at-some now key rs res e = rw (e, live_at) refl

-- A lookup does not lengthen the table, and a key with live reservations is in it.
abbrev IsLookedUp :
    Bytes → List (Bytes × List Reservation) → List (Bytes × List Reservation) × ℕ → Type 0
IsLookedUp key res r =
    (length r.0 ≤ length res) × (((r.1 == 0) ≡ false) → is_some (lookup key r.0) ≡ true)

live_of-IsLookedUp :
    (now : ℕ) (key : Bytes) (rs : List Reservation) (res : List (Bytes × List Reservation))
    → lookup key res ≡ some rs
    → IsLookedUp key res (live_of now key rs res)
unfolding live_of
live_of-IsLookedUp now key rs res e = ground (
  arith,
  length-delete_le key res,
  length-put_old key (retain (is_live now) rs) rs res e,
  lookup-put key key (retain (is_live now) rs) res,
  beq_refl key,
)

live_at-IsLookedUp :
    (now : ℕ) (key : Bytes) (res : List (Bytes × List Reservation))
    → IsLookedUp key res (live_at now key res)
live_at-IsLookedUp now key res = elim (Option-cases (lookup key res)) [
  | inl e ↦
      subst (IsLookedUp key res) (sym (live_at-none now key res e))
        (omega arith, (λ h. ground (arith, h)))
  | inr (rs, e) ↦
      subst (IsLookedUp key res) (sym (live_at-some now key rs res e))
        (live_of-IsLookedUp now key rs res e)
]

sweep-length_le :
    (now : ℕ) (res : List (Bytes × List Reservation)) → length (sweep now res) ≤ length res
unfolding sweep
sweep-length_le now [] = omega arith
sweep-length_le now ((key, rs) ∷ res) = ground (arith, sweep-length_le now res)

new_throttle_empty :
    (limit window max_entries ttl : ℕ) (t : Throttle)
    → new_throttle limit window max_entries ttl ≡ some t
    → length t.res ≤ t.max
unfolding new_throttle
new_throttle_empty limit window max_entries ttl t h = ground (arith, h)

module _ (n : Netip) where
  ask_wait :
      (now : ℕ) (ip key : Bytes) (live : ℕ) (t : Throttle) (secs : ℕ)
      → (ask n now ip key live t).1 ≡ refused secs
      → 1 ≤ secs
  unfolding ask issue
  ask_wait now ip key live t secs h = ground (arith, h)

  wait_is_positive :
      (now : ℕ) (ip : Bytes) (t : Throttle) (secs : ℕ)
      → (admit n now ip t).1 ≡ refused secs
      → 1 ≤ secs
  unfolding admit
  wait_is_positive now ip t secs h =
      let key = limiter_key n ip in
      let live = live_at now key t.res in
      ground (
        arith,
        h,
        ask_wait now ip key live.1 (record t { res = sweep now live.0 }) secs,
        ask_wait now ip key live.1 (record t { res = live.0 }) secs,
      )

  ask-bounded :
      (now : ℕ) (ip key : Bytes) (live : ℕ) (t : Throttle)
      → length t.res ≤ t.max
      → ((is_some (lookup key t.res) ≡ false) → length t.res < t.max)
      → length ((ask n now ip key live t).0).res ≤ t.max
  unfolding ask issue
  ask-bounded now ip key live t h r =
      let r' : Reservation = record { id = suc t.last_id; expires = now + t.ttl } in
      let more = or_else [] (lookup key t.res) ++ r' ∷ [] in
      elim (Bool-cases (is_some (lookup key t.res))) [
        | inl e ↦ ground (arith, h, length-put_tracked key more t.res e)
        | inr e ↦ ground (arith, h, r e, length-put_le key more t.res)
      ]

  admit-bounded :
      (now : ℕ) (ip : Bytes) (t : Throttle)
      → length t.res ≤ t.max
      → length ((admit n now ip t).0).res ≤ t.max
  unfolding admit
  admit-bounded now ip t h =
      let key = limiter_key n ip in
      let live = live_at now key t.res in
      let looked = live_at-IsLookedUp now key t.res in
      elim (Bool-cases ((live.1 == 0) && leb t.max (length live.0))) [
        | inl e ↦ elim (Bool-cases (leb t.max (length (sweep now live.0)))) [
          | inl f ↦ rw (e, f) (omega (arith, h, looked.0, sweep-length_le now live.0))
          | inr f ↦
              rw (e, f)
                (ask-bounded now ip key live.1 (record t { res = sweep now live.0 })
                  (ground (arith, f)) (λ g. ground (arith, f)))
        ]
        | inr e ↦ rw e (
            ask-bounded now ip key live.1 (record t { res = live.0 }) (omega (arith, h, looked.0))
              (λ g. ground (arith, e, g, looked.1)))
      ]

  give_back-length_le :
      (k : Ticket) (res : List (Bytes × List Reservation)) → length (give_back n k res) ≤ length res
  unfolding give_back
  give_back-length_le k res = elim (Option-cases (lookup k.key res)) [
    | inl e ↦ rw (e, without_id) (length-delete_le k.key res)
    | inr (rs, e) ↦
        let left = without_id n k.ticket_id rs in
        rw e (elim (Bool-cases (length left == 0)) [
          | inl f ↦ rw f (length-delete_le k.key res)
          | inr f ↦ rw f (omega (arith, length-put_old k.key left rs res e))
        ])
  ]

  release-bounded :
      (now : ℕ) (k : Ticket) (failed : Bool) (t : Throttle)
      → length t.res ≤ t.max
      → length (release n now k failed t).res ≤ (release n now k failed t).max
  unfolding release
  release-bounded now k true t h = omega (arith, h, give_back-length_le k t.res)
  release-bounded now k false t h = omega (arith, h, give_back-length_le k t.res)

  admit-max : (now : ℕ) (ip : Bytes) (t : Throttle) → ((admit n now ip t).0).max ≡ t.max
  unfolding admit ask issue
  admit-max now ip t = ground arith

  run-bounded :
      (cs : List (ℕ × Call n)) (t : Throttle)
      → length t.res ≤ t.max
      → length (run n cs t).res ≤ (run n cs t).max
  unfolding run
  run-bounded [] t h = h
  run-bounded ((now, admits ip) ∷ cs) t h =
      run-bounded cs (admit n now ip t).0
        (omega (arith, admit-bounded now ip t h, admit-max now ip t))
  run-bounded ((now, releases k failed) ∷ cs) t h =
      run-bounded cs (release n now k failed t) (release-bounded now k failed t h)

  -- From a new throttle, after any admissions and releases of any tickets at any times, no more
  -- sources hold reservations than the throttle's cap, whatever the addresses; and a refusal always
  -- names at least one second.
  pub throttle_bounded :
      (limit window max_entries ttl : ℕ) (t : Throttle) (cs : List (ℕ × Call n))
      → new_throttle limit window max_entries ttl ≡ some t
      → (length (run n cs t).res ≤ (run n cs t).max)
        × ((now : ℕ) (ip : Bytes) (secs : ℕ)
            → (admit n now ip (run n cs t)).1 ≡ refused secs
            → 1 ≤ secs)
  throttle_bounded limit window max_entries ttl t cs h = (
    run-bounded cs t (new_throttle_empty limit window max_entries ttl t h),
    (λ now ip secs e. wait_is_positive now ip (run n cs t) secs e),
  )
