-- ===== src/Session/Tests.antt =====
-- The session theorems at concrete inputs, and runs of the code.
use ldapium.Prelude.{◌+◌, ◌≡◌, refl, none, some, List, [], ◌∷◌, arith}
use ldapium.Prelude.Bytes.{codes}
use ldapium.Prelude.Eq.{bytes_eq}
use ldapium.Prelude.Assoc.{lookup, put, delete, keep, IsMap}
use ldapium.Session.{
  Session, Store, Call, creates, gets, deletes, sweeps, new_store, create, get, end_session, sweep,
  step, run,
}
use ldapium.Session.Connections.{owned, times, opened, run-connections}
use ldapium.Session.Timeout.{active_session_lives}
use ldapium.Session.Logout.{logged_out_stays_out}

-- Two logins, one used at 8, one swept at 11, the other logged out.
abbrev day : List Call
day =
    creates 0 (some (codes "a")) (codes "uid=a") 1 []
    ∷ creates 0 (some (codes "b")) (codes "uid=b") 2 []
    ∷ gets 8 8 (codes "a")
    ∷ sweeps 11
    ∷ deletes (codes "a")
    ∷ []

day-runs : (run day (new_store 10)).closed ≡ 1 ∷ 2 ∷ []
unfolding run step create get end_session sweep new_store lookup put delete keep
day-runs = refl

run-connections_example :
    let s = run day (new_store 10) in owned 2 s + times 2 s.closed ≡ times 2 (opened day)
unfolding run step create get end_session sweep new_store lookup put delete keep
run-connections_example = run-connections 10 2 day (refl, (refl, (tt, (tt, (tt, tt)))))

abbrev alice : Session
alice = record {
  id = codes "a";
  dn = codes "uid=a";
  bound = 1;
  oidc_logout_id_token = [];
  expires_at = 10;
}

abbrev one_user : Store
one_user = record { sessions = (codes "a", alice) ∷ []; ttl = 10; closed = [] }

one_user-IsMap : IsMap one_user.sessions
unfolding lookup
one_user-IsMap = (refl, tt)

alice-there : lookup (codes "a") one_user.sessions ≡ some alice
unfolding lookup
alice-there = refl

active_session_lives_example :
    (found : Session) × ((get 9 9
        (codes "a")
        (run (sweeps 9 ∷ gets 9 9 (codes "a") ∷ []) one_user)).1
      ≡ some found)
    × (found.id ≡ alice.id)
    × (found.dn ≡ alice.dn)
    × (found.bound ≡ alice.bound)
active_session_lives_example =
    active_session_lives 10 9 9 (codes "a") alice (sweeps 9 ∷ gets 9 9 (codes "a") ∷ []) one_user
      one_user-IsMap alice-there (omega arith)
      (omega arith, ((λ same. (omega arith, omega arith)), tt)) (omega arith)

logged_out_stays_out_example :
    (get 9 9 (codes "a") (run (gets 7 7 (codes "a") ∷ []) (end_session (codes "a") one_user))).1
    ≡ none
logged_out_stays_out_example =
    logged_out_stays_out (codes "a") (gets 7 7 (codes "a") ∷ []) one_user 9 9 one_user-IsMap
      (refl, tt)
