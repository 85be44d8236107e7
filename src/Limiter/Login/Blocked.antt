-- ===== src/Limiter/Login/Blocked.antt =====
-- A blocked source stays blocked, whatever other sources do
-- (ui/backend/internal/httpapi/login_limiter.go).
use ldapium.Prelude.{
  ℕ, ◌+◌, ◌≤◌, ◌<◌, ◌≡◌, ◌∙◌, ◌⊎◌, Bool, true, false, Option, none, some, List, [], ◌∷◌, ◌++◌,
  arith, if◌then◌else◌, subst, sym, Option-cases, Bool-cases, inl, inr,
}
use ldapium.Prelude.Bytes.{Bytes}
use ldapium.Prelude.Eq.{bytes_eq, ◌==◌, bytes_beq_iff}
use ldapium.Prelude.Assoc.{lookup, put, lookup-put}
use ldapium.Limiter.Table.{Entry, Limiter, without, prune_to, prune, make_room}
use ldapium.Limiter.Table.Entries.{lookup-prune_to}
use ldapium.Limiter.Table.Invariant.{Inv, prune_to-Inv}
use ldapium.Limiter.Table.Untracked.{make_room_untracked}
use ldapium.Limiter.Login.{
  recent, allow_at, admit_known, admit_at, append_failure, record_new, record_known, record_at,
}
use ldapium.Limiter.Table.Blocked.{IsBlocked, IsBlocked-append}
use ldapium.Limiter.Table.Survives.{BlockedAt, prune_to_survives, make_room_survives}
use ldapium.Limiter.Login.Invariant.{refile_failures, prune-Inv}

abbrev fails_of : Option Entry → List ℕ
fails_of none = []
fails_of (some e) = e.fails

-- `append_failure` before it re-files the entry.
abbrev written : ℕ → Bytes → List ℕ → Limiter → Limiter
written now k ts l = record l {
  failures = put k (record { fails = ts ++ now ∷ [] }) l.failures;
  seen = without k l.seen ++ k ∷ [];
}

module _ (limit window max until now : ℕ) (positive : 0 < limit) (early : now ≤ until)
    (late : until ≤ now + window) (j : Bytes) where
  pub prune_survives :
      (k : Bytes) (e : Entry) (l : Limiter)
      → Inv limit window max l
      → lookup k l.failures ≡ some e
      → BlockedAt limit window until j l
      → BlockedAt limit window until j (prune now k e l)
  unfolding prune
  prune_survives k e l v h b =
      prune_to_survives limit window max until now positive early j k e l v.window_is h b

  -- A failure of another source, or one more of this one.
  append_survives :
      (k : Bytes) (ts : List ℕ) (l : Limiter)
      → (lookup k l.failures ≡ none) ⊎ (lookup k l.failures ≡ some (record { fails = ts }))
      → BlockedAt limit window until j l
      → BlockedAt limit window until j (append_failure now k ts l)
  unfolding append_failure
  append_survives k ts l at (x, here, b) = elim (Bool-cases (k == j)) [
    | inr other ↦ (
      x,
      ground (
        arith,
        refile_failures k (ts ++ now ∷ []) (written now k ts l),
        here,
        other,
        lookup-put k j (record { fails = ts ++ now ∷ [] }) l.failures,
      ),
      b,
    )
    | inl same ↦ (
      record { fails = ts ++ now ∷ [] },
      ground (
        arith,
        refile_failures k (ts ++ now ∷ []) (written now k ts l),
        same,
        lookup-put k j (record { fails = ts ++ now ∷ [] }) l.failures,
      ),
      IsBlocked-append limit window until positive now ts late (
          of_entry same
            (subst (λ (i : Bytes). lookup i l.failures ≡ some x) (sym ((bytes_beq_iff k j).0 same))
              here)
            at),
    )
  ]
    where
      of_entry :
          (k == j) ≡ true
          → lookup k l.failures ≡ some x
          → (lookup k l.failures ≡ none) ⊎ (lookup k l.failures ≡ some (record { fails = ts }))
          → IsBlocked limit window until ts
      of_entry same found (inl e) = cc (found, e)
      of_entry same found (inr e) =
          subst (λ (o : Option Entry). IsBlocked limit window until (fails_of o)) (sym found ∙ e) b

  record_new_survives :
      (k : Bytes) (l : Limiter)
      → Inv limit window max l
      → lookup k l.failures ≡ none
      → BlockedAt limit window until j l
      → BlockedAt limit window until j (record_new now k l)
  unfolding record_new
  record_new_survives k l v h b = chosen (make_room now true l).1
    where
      l' : Limiter
      l' = (make_room now true l).0

      kept : BlockedAt limit window until j l'
      kept = make_room_survives limit window max until now positive early j true l v b

      chosen :
          (room : Bool)
          → BlockedAt limit window until j (if room then append_failure now k [] l' else l')
      chosen true = append_survives k [] l' (inl (make_room_untracked now true k l v.map h)) kept
      chosen false = kept

  record_known_survives :
      (k : Bytes) (ts : List ℕ) (e : Entry) (l : Limiter)
      → Inv limit window max l
      → lookup k l.failures ≡ some e
      → BlockedAt limit window until j (prune_to k ts l)
      → BlockedAt limit window until j (record_known now k ts (prune_to k ts l))
  unfolding record_known
  record_known_survives k [] e l v h b =
      record_new_survives k (prune_to k [] l) (prune_to-Inv limit window max k [] e l v h)
        (ground (arith, lookup-prune_to k k l [], bytes_beq_iff k k)) b
  record_known_survives k (t ∷ ts) e l v h b =
      append_survives k (t ∷ ts) (prune_to k (t ∷ ts) l)
        (inr (ground (arith, lookup-prune_to k k l (t ∷ ts), bytes_beq_iff k k))) b

  pub record_at_survives :
      (k : Bytes) (l : Limiter)
      → Inv limit window max l
      → BlockedAt limit window until j l
      → BlockedAt limit window until j (record_at now k l)
  unfolding record_at prune
  record_at_survives k l v b = elim (Option-cases (lookup k l.failures)) [
    | inl h ↦ rw (h, record_at) (record_new_survives k l v h b)
    | inr (e, h) ↦
        rw (h, record_at)
          (record_known_survives k (recent now l e) e l v h
            (prune_to_survives limit window max until now positive early j k e l v.window_is h b))
  ]

  pub allow_at_survives :
      (k : Bytes) (l : Limiter)
      → Inv limit window max l
      → BlockedAt limit window until j l
      → BlockedAt limit window until j (allow_at now k l).0
  unfolding allow_at
  allow_at_survives k l v b = elim (Option-cases (lookup k l.failures)) [
    | inl h ↦
        rw (h, allow_at)
          (make_room_survives limit window max until now positive early j false l v b)
    | inr (e, h) ↦ rw (h, allow_at) (prune_survives k e l v h b)
  ]

  pub admit_at_survives :
      (k : Bytes) (reserved : ℕ) (l : Limiter)
      → Inv limit window max l
      → BlockedAt limit window until j l
      → BlockedAt limit window until j (admit_at now k reserved l).0
  unfolding admit_at
  admit_at_survives k reserved l v b = elim (Option-cases (lookup k l.failures)) [
    | inl h ↦
        rw (h, admit_at)
          (make_room_survives limit window max until now positive early j false l v b)
    | inr (e, h) ↦
        rw (h, admit_at)
          (known (recent now l e) (prune now k e l) (prune-Inv limit window max now k e l v h)
            (prune_survives k e l v h b))
  ]
    where
      known :
          (ts : List ℕ) (l' : Limiter)
          → Inv limit window max l'
          → BlockedAt limit window until j l'
          → BlockedAt limit window until j (admit_known now reserved ts l').0
      known [] l' w c = make_room_survives limit window max until now positive early j false l' w c
      known (t ∷ ts) l' w c = c
