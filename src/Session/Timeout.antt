-- ===== src/Session/Timeout.antt =====
-- The idle timeout of a session (ui/backend/internal/session/store.go).
use ldapium.Prelude.{
  ℕ, ◌+◌, ◌≤◌, ◌<◌, ◌≡◌, refl, sym, subst, ap, ◌≢◌, ◌⊎◌, not, Option, none, some, List, [], ◌∷◌,
  arith, Option-cases, Bool-cases, inl, inr, All,
}
use ldapium.Prelude.Bytes.{Bytes}
use ldapium.Prelude.Eq.{◌==◌, bytes_eq, bytes_beq_iff}
use ldapium.Prelude.Assoc.{lookup, IsMap, lookup-put, lookup-delete, lookup-keep}
use ldapium.Session.{
  Session, Store, Call, new_session, creates, gets, deletes, sweeps, create, is_expired, touch, get,
  end_session, sweep, step, run,
}
use ldapium.Session.Connections.{step-IsMap}

-- A session that a `Get` may return: the same user and connection as `sess`, alive until `limit`.
pub record Alive (limit : ℕ) (sess found : Session) : Type 0 where
  pub same_id : found.id ≡ sess.id
  pub same_dn : found.dn ≡ sess.dn
  pub same_bound : found.bound ≡ sess.bound
  pub lives : limit ≤ found.expires_at

abbrev pub Holds : ℕ → Bytes → Session → Store → Type 0
Holds limit id sess s =
    (found : Session) × (lookup id s.sessions ≡ some found) × Alive limit sess found

-- A call that does not end the session: it is no logout of it and does not draw its id; a sweep, and
-- a `Get` of it, read the clock at `limit` or before; and the second reading of such a `Get`, from
-- which it counts the new expiry, is no more than a TTL before `limit`.
abbrev pub Within : ℕ → ℕ → Bytes → Call → Type 0
Within limit ttl id (creates now i dn bound id_token) = i ≢ some id
Within limit ttl id (gets now now' i) = i ≡ id → (now ≤ limit) × (limit ≤ now' + ttl)
Within limit ttl id (deletes i) = i ≢ id
Within limit ttl id (sweeps now) = now ≤ limit

-- `Get` returns the session exactly if there is one that has not expired; its expiry is then moved
-- to a TTL after the second reading of the clock. If it returns nothing, the id is not in the table.
get_lem :
    (now now' : ℕ) (id : Bytes) (s : Store)
    → let (s', found) = get now now' id s in
      ((sess : Session) × (lookup id s.sessions ≡ some sess)
        × (now ≤ sess.expires_at)
        × (found ≡ some (touch now' s sess))
        × (lookup id s'.sessions ≡ some (touch now' s sess))
        × (s'.closed ≡ s.closed))
      ⊎ ((found ≡ none)
          × (lookup id s'.sessions ≡ none)
          × ((sess : Session)
              → lookup id s.sessions ≡ some sess
              → (sess.expires_at < now) × (s'.closed ≡ sess.bound ∷ s.closed)))
unfolding get
get_lem now now' id s = elim (Option-cases (lookup id s.sessions)) [
  | inl e ↦ inr (ground (arith, e), ground (arith, e), λ sess h. cc (e, h))
  | inr (x, e) ↦ elim (Bool-cases (is_expired now x)) [
    | inl old ↦ inr (
      ground (arith, e, old),
      ground (arith, e, old, lookup-delete id id s.sessions, bytes_beq_iff id id),
      λ sess h. ground (arith, e, old, h),
    )
    | inr fresh ↦ inl (
      x,
      e,
      ground arith,
      ground (arith, e, fresh),
      ground (arith, e, fresh, lookup-put id id (touch now' s x) s.sessions, bytes_beq_iff id id),
      ground (arith, e, fresh),
    )
  ]
]

pub step-ttl : (c : Call) (s : Store) → (step c s).ttl ≡ s.ttl
unfolding step create get end_session sweep
step-ttl (creates now none dn bound id_token) s = refl
step-ttl (creates now (some id) dn bound id_token) s = refl
step-ttl (gets now now' id) s = ground arith
step-ttl (deletes id) s = ground arith
step-ttl (sweeps now) s = refl

module _ (limit : ℕ) (id : Bytes) (sess : Session) where
  create-Holds :
      (now : ℕ) (i dn : Bytes) (bound : ℕ) (id_token : Bytes) (s : Store)
      → i ≢ id
      → Holds limit id sess s
      → Holds limit id sess (create now (some i) dn bound id_token s).0
  unfolding create
  create-Holds now i dn bound id_token s ne (found, at, alive) = (
    found,
    ground (
      arith,
      at,
      lookup-put i id (new_session now i dn bound id_token s) s.sessions,
      bytes_beq_iff i id,
      ne,
    ),
    alive,
  )

  get-Holds :
      (now now' : ℕ) (i : Bytes) (s : Store)
      → (i ≡ id → (now ≤ limit) × (limit ≤ now' + s.ttl))
      → Holds limit id sess s
      → Holds limit id sess (get now now' i s).0
  unfolding get
  get-Holds now now' i s of_it (found, at, alive) = elim (Bool-cases (i == id)) [
    | inl same ↦
        let here : lookup i s.sessions ≡ some found =
          subst (λ (k : Bytes). lookup k s.sessions ≡ some found)
            (sym ((bytes_beq_iff i id).0 same)) at in
        let (early, late) = of_it ((bytes_beq_iff i id).0 same) in
        (
          touch now' s found,
          ground (arith, here, alive, early, lookup-put i id (touch now' s found) s.sessions, same),
          record {
            same_id = alive.same_id;
            same_dn = alive.same_dn;
            same_bound = alive.same_bound;
            lives = late;
          },
        )
    | inr other ↦ elim (Option-cases (lookup i s.sessions)) [
      | inl e ↦ (found, ground (arith, e, at), alive)
      | inr (x, e) ↦ (
        found,
        ground (
          arith,
          e,
          at,
          other,
          lookup-put i id (touch now' s x) s.sessions,
          lookup-delete i id s.sessions,
        ),
        alive,
      )
    ]
  ]

  end-Holds :
      (i : Bytes) (s : Store)
      → i ≢ id
      → Holds limit id sess s
      → Holds limit id sess (end_session i s)
  unfolding end_session
  end-Holds i s ne (found, at, alive) =
      (found, ground (arith, at, lookup-delete i id s.sessions, bytes_beq_iff i id, ne), alive)

  sweep-Holds :
      (now : ℕ) (s : Store)
      → IsMap s.sessions
      → now ≤ limit
      → Holds limit id sess s
      → Holds limit id sess (sweep now s)
  unfolding sweep
  sweep-Holds now s m early (found, at, alive) = (
    found,
    ground (arith, at, alive, lookup-keep (λ _ x. not (is_expired now x)) id s.sessions m),
    alive,
  )

  step-Holds :
      (c : Call) (s : Store)
      → IsMap s.sessions
      → Within limit s.ttl id c
      → Holds limit id sess s
      → Holds limit id sess (step c s)
  unfolding step
  step-Holds (creates now none dn bound id_token) s m w h = unfold create in h
  step-Holds (creates now (some i) dn bound id_token) s m w h =
      create-Holds now i dn bound id_token s (λ e. w (ap {B = Option Bytes} some e)) h
  step-Holds (gets now now' i) s m w h = get-Holds now now' i s w h
  step-Holds (deletes i) s m w h = end-Holds i s w h
  step-Holds (sweeps now) s m w h = sweep-Holds now s m w h

  run-Holds :
      (cs : List Call) (s : Store)
      → IsMap s.sessions
      → All (Within limit s.ttl id) cs
      → Holds limit id sess s
      → Holds limit id sess (run cs s)
  unfolding run
  run-Holds [] s m w h = h
  run-Holds (c ∷ cs) s m w h =
      run-Holds cs (step c s) (step-IsMap c s m)
        (subst (λ (t : ℕ). All (Within limit t id) cs) (sym (step-ttl c s)) w.1)
        (step-Holds c s m w.0 h)

-- In a table without double ids, a session whose expiry is not before `limit` outlives any calls that
-- do not log it out or draw its id again, if the sweeps and the `Get`s of it read the clock at
-- `limit` or before, and each `Get` of it moves its expiry to `limit` or later: a `Get` of it at
-- `limit` or before then returns the same user's session, over the same connection.
pub active_session_lives :
    (limit now now' : ℕ) (id : Bytes) (sess : Session) (cs : List Call) (s : Store)
    → IsMap s.sessions
    → lookup id s.sessions ≡ some sess
    → limit ≤ sess.expires_at
    → All (Within limit s.ttl id) cs
    → now ≤ limit
    → (found : Session) × ((get now now' id (run cs s)).1 ≡ some found)
      × (found.id ≡ sess.id)
      × (found.dn ≡ sess.dn)
      × (found.bound ≡ sess.bound)
unfolding get
active_session_lives limit now now' id sess cs s m at alive w early =
    let start : Alive limit sess sess = record {
      same_id = refl;
      same_dn = refl;
      same_bound = refl;
      lives = alive;
    } in
    let (found, here, same) = run-Holds limit id sess cs s m w (sess, at, start) in
    (
      touch now' (run cs s) found,
      ground (arith, here, same),
      same.same_id,
      same.same_dn,
      same.same_bound,
    )
