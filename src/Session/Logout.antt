-- ===== src/Session/Logout.antt =====
-- What a logout leaves (ui/backend/internal/session/store.go).
use ldapium.Prelude.{
  ℕ, ◌≡◌, ap, Bool, false, not, none, some, List, [], ◌∷◌, arith, Option-cases, inl, inr, All,
}
use ldapium.Prelude.Bytes.{Bytes}
use ldapium.Prelude.Eq.{◌==◌, bytes_eq, bytes_beq_iff}
use ldapium.Prelude.Assoc.{lookup, IsMap, lookup-put, lookup-delete, lookup-keep}
use ldapium.Session.{
  Store, Call, new_session, creates, gets, deletes, sweeps, create, is_expired, touch, get,
  end_session, sweep, step, run,
}
use ldapium.Session.Connections.{step-IsMap}

-- A call that draws the id anew.
abbrev pub draws : Bytes → Call → Bool
draws id (creates now (some i) dn bound id_token) = i == id
draws id (creates now none dn bound id_token) = false
draws id (gets now now' i) = false
draws id (deletes i) = false
draws id (sweeps now) = false

step_gone :
    (id : Bytes) (c : Call) (s : Store)
    → IsMap s.sessions
    → draws id c ≡ false
    → lookup id s.sessions ≡ none
    → lookup id (step c s).sessions ≡ none
unfolding step create get end_session sweep
step_gone id (creates now none dn bound id_token) s m d h = h
step_gone id (creates now (some i) dn bound id_token) s m d h =
    ground (arith, h, d, lookup-put i id (new_session now i dn bound id_token s) s.sessions)
step_gone id (gets now now' i) s m d h = elim (Option-cases (lookup i s.sessions)) [
  | inl e ↦ ground (arith, e, h)
  | inr (x, e) ↦ ground (
    arith,
    e,
    h,
    bytes_beq_iff i id,
    lookup-put i id (touch now' s x) s.sessions,
    lookup-delete i id s.sessions,
    ap (λ (k : Bytes). lookup k s.sessions),
  )
]
step_gone id (deletes i) s m d h = ground (arith, h, lookup-delete i id s.sessions)
step_gone id (sweeps now) s m d h =
    ground (arith, h, lookup-keep (λ _ x. not (is_expired now x)) id s.sessions m)

run_gone :
    (id : Bytes) (cs : List Call) (s : Store)
    → IsMap s.sessions
    → All (λ c. draws id c ≡ false) cs
    → lookup id s.sessions ≡ none
    → lookup id (run cs s).sessions ≡ none
unfolding run
run_gone id [] s m d h = h
run_gone id (c ∷ cs) s m d h =
    run_gone id cs (step c s) (step-IsMap c s m) d.1 (step_gone id c s m d.0 h)

end_session_gone : (id : Bytes) (s : Store) → lookup id (end_session id s).sessions ≡ none
unfolding end_session
end_session_gone id s = ground (arith, lookup-delete id id s.sessions, bytes_beq_iff id id)

-- After a logout no `Get` returns the session, at any time and after any calls that do not draw its
-- id anew.
pub logged_out_stays_out :
    (id : Bytes) (cs : List Call) (s : Store) (now now' : ℕ)
    → IsMap s.sessions
    → All (λ c. draws id c ≡ false) cs
    → (get now now' id (run cs (end_session id s))).1 ≡ none
unfolding get step
logged_out_stays_out id cs s now now' m d =
    ground (arith, run_gone id cs (end_session id s) (step-IsMap (deletes id) s m) d ended)
  where
    ended : lookup id (end_session id s).sessions ≡ none
    ended = end_session_gone id s
