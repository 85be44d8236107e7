-- ===== src/Session/Connections.antt =====
-- No LDAP connection is leaked or closed twice (ui/backend/internal/session/store.go).
use ldapium.Prelude.{
  ℕ, ◌+◌, ◌≡◌, refl, not, none, some, List, [], ◌∷◌, ◌++◌, arith, to_ℕ, ◌==◌, Option-cases, inl,
  inr,
}
use ldapium.Prelude.Bytes.{Bytes}
use ldapium.Prelude.Eq.{bytes_eq}
use ldapium.Prelude.Assoc.{
  lookup, keep, count, IsMap, put-IsMap, delete-IsMap, keep-IsMap, count-put_new, count-put_old,
  count-delete, count-keep,
}
use ldapium.Session.{
  Session, Store, Call, creates, gets, deletes, sweeps, new_store, create, is_expired, touch, get,
  end_session, bounds, sweep, step, run,
}

-- How often a connection stands in a list, and in how many sessions.
unfoldable pub times : ℕ → List ℕ → ℕ
times c [] = 0
times c (x ∷ xs) = to_ℕ (x == c) + times c xs

abbrev pub owned : ℕ → Store → ℕ
owned c s = count (λ sess. sess.bound == c) s.sessions

times-append : (c : ℕ) (xs ys : List ℕ) → times c (xs ++ ys) ≡ times c xs + times c ys
unfolding times
times-append c [] ys = omega arith
times-append c (x ∷ xs) ys = omega (arith, times-append c xs ys)

times-bounds :
    (c : ℕ) (m : List (Bytes × Session)) → times c (bounds m) ≡ count (λ sess. sess.bound == c) m
unfolding times count
times-bounds c [] = refl
times-bounds c ((k, sess) ∷ m) = omega (arith, times-bounds c m)

-- The connections that the calls hand to the store.
unfoldable pub opened : List Call → List ℕ
opened [] = []
opened (creates now none dn bound id_token ∷ cs) = opened cs
opened (creates now (some id) dn bound id_token ∷ cs) = bound ∷ opened cs
opened (c ∷ cs) = opened cs

-- A random id is new: no session of the table has it.
abbrev pub IsFresh : Call → Store → Type 0
IsFresh (creates now (some id) dn bound id_token) s = lookup id s.sessions ≡ none
IsFresh (creates now none dn bound id_token) s = Unit
IsFresh (gets now now' id) s = Unit
IsFresh (deletes id) s = Unit
IsFresh (sweeps now) s = Unit

abbrev pub AllFresh : List Call → Store → Type 0
AllFresh [] s = Unit
AllFresh (c ∷ cs) s = IsFresh c s × AllFresh cs (step c s)

pub step-IsMap : (c : Call) (s : Store) → IsMap s.sessions → IsMap (step c s).sessions
unfolding step create get end_session sweep
step-IsMap (creates now none dn bound id_token) s m = m
step-IsMap (creates now (some id) dn bound id_token) s m = put-IsMap id _ s.sessions m
step-IsMap (gets now now' id) s m = elim (Option-cases (lookup id s.sessions)) [
  | inl e ↦ ground (arith, e, m)
  | inr (x, e) ↦
      ground (arith, e, put-IsMap id (touch now' s x) s.sessions m, delete-IsMap id s.sessions m)
]
step-IsMap (deletes id) s m = ground (arith, m, delete-IsMap id s.sessions m)
step-IsMap (sweeps now) s m = keep-IsMap (λ _ sess. not (is_expired now sess)) s.sessions m

-- One call moves connections between the table and the closed ones, and adds the one it creates.
step-balance :
    (c : ℕ) (call : Call) (s : Store)
    → IsMap s.sessions
    → IsFresh call s
    → owned c (step call s) + times c (step call s).closed
      ≡ owned c s + times c s.closed + times c (opened (call ∷ []))
unfolding step create get end_session sweep opened times
step-balance c (creates now none dn bound id_token) s m f = omega arith
step-balance c (creates now (some id) dn bound id_token) s m f =
    omega (arith, count-put_new (λ (x : Session). x.bound == c) id _ s.sessions f)
step-balance c (gets now now' id) s m f = elim (Option-cases (lookup id s.sessions)) [
  | inl e ↦ ground (arith, e)
  | inr (x, e) ↦ ground (
    arith,
    e,
    count-put_old (λ (y : Session). y.bound == c) id (touch now' s x) x s.sessions e,
    count-delete (λ (y : Session). y.bound == c) id x s.sessions m e,
  )
]
step-balance c (deletes id) s m f = elim (Option-cases (lookup id s.sessions)) [
  | inl e ↦ ground (arith, e)
  | inr (x, e) ↦ ground (arith, e, count-delete (λ (y : Session). y.bound == c) id x s.sessions m e)
]
step-balance c (sweeps now) s m f = omega (
  arith,
  times-append c (bounds (keep (λ _ sess. is_expired now sess) s.sessions)) s.closed,
  times-bounds c (keep (λ _ sess. is_expired now sess) s.sessions),
  count-keep (λ (x : Session). x.bound == c) (λ _ sess. is_expired now sess) s.sessions,
)

opened-cons :
    (c : ℕ) (call : Call) (cs : List Call)
    → times c (opened (call ∷ cs)) ≡ times c (opened (call ∷ [])) + times c (opened cs)
unfolding opened times
opened-cons c (creates now none dn bound id_token) cs = omega arith
opened-cons c (creates now (some id) dn bound id_token) cs = omega arith
opened-cons c (gets now now' id) cs = omega arith
opened-cons c (deletes id) cs = omega arith
opened-cons c (sweeps now) cs = omega arith

run-balance :
    (c : ℕ) (cs : List Call) (s : Store)
    → IsMap s.sessions
    → AllFresh cs s
    → owned c (run cs s) + times c (run cs s).closed
      ≡ owned c s + times c s.closed + times c (opened cs)
unfolding run
run-balance c [] s m f = unfold opened times in omega arith
run-balance c (call ∷ cs) s m f = omega (
  arith,
  step-balance c call s m f.0,
  opened-cons c call cs,
  run-balance c cs (step call s) (step-IsMap call s m) f.1,
)

-- Hypothesis: every random id is new when it is drawn. From an empty store, after any calls, each
-- connection is owned by sessions and closed, together, exactly as often as it was handed in: none
-- is leaked, and none is closed twice or while a session still uses it.
pub run-connections :
    (ttl c : ℕ) (cs : List Call)
    → AllFresh cs (new_store ttl)
    → let s = run cs (new_store ttl) in owned c s + times c s.closed ≡ times c (opened cs)
unfolding new_store count times
run-connections ttl c cs f = omega (arith, run-balance c cs (new_store ttl) tt f)
