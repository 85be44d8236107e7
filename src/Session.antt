-- ===== src/Session.antt =====
-- ui/backend/internal/session/store.go: the table of logged-in sessions and the LDAP connections
-- they own. Each method runs under the store's mutex; `closed` lists the `Bound.Close()` calls made
-- so far, the latest first. A connection is a number, its identity. The clock's values and the
-- random session id are arguments.
pub mod Connections
pub mod Logout
pub mod Timeout
mod Tests
use ldapium.Prelude.{
  ℕ, ◌+◌, Bool, true, false, not, Option, none, some, List, [], ◌∷◌, ◌++◌, map, ltb, if◌then◌else◌,
  length,
}
use ldapium.Prelude.Bytes.{Bytes}
use ldapium.Prelude.Eq.{bytes_eq}
use ldapium.Prelude.Assoc.{lookup, put, delete, keep}

pub record Session : Type 0 where
  pub id : Bytes
  pub dn : Bytes
  pub bound : ℕ
  pub oidc_logout_id_token : Bytes
  pub expires_at : ℕ

pub record Store : Type 0 where
  pub sessions : List (Bytes × Session)
  pub ttl : ℕ
  pub closed : List ℕ

unfoldable pub new_store : ℕ → Store
new_store ttl = record { sessions = []; ttl = ttl; closed = [] }

abbrev pub new_session : ℕ → Bytes → Bytes → ℕ → Bytes → Store → Session
new_session now id dn bound id_token s = record {
  id = id;
  dn = dn;
  bound = bound;
  oidc_logout_id_token = id_token;
  expires_at = now + s.ttl;
}

-- `newSessionID` gives `none` when the random source fails.
unfoldable pub create : ℕ → Option Bytes → Bytes → ℕ → Bytes → Store → Store × Option Session
create now none dn bound id_token s = (s, none)
create now (some id) dn bound id_token s =
    let sess = new_session now id dn bound id_token s in
    (record s { sessions = put id sess s.sessions }, some sess)

unfoldable pub create_ldap : ℕ → Option Bytes → Bytes → ℕ → Store → Store × Option Session
unfolding create
create_ldap now id dn bound s = create now id dn bound [] s

unfoldable pub create_sso : ℕ → Option Bytes → Bytes → ℕ → Bytes → Store → Store × Option Session
unfolding create
create_sso now id dn bound id_token s = create now id dn bound id_token s

-- now.After(sess.expiresAt)
abbrev pub is_expired : ℕ → Session → Bool
is_expired now sess = ltb sess.expires_at now

abbrev pub touch : ℕ → Store → Session → Session
touch now s sess = record sess { expires_at = now + s.ttl }

-- `Get` reads the clock twice.
unfoldable pub get : ℕ → ℕ → Bytes → Store → Store × Option Session
get now now' id s = elim (lookup id s.sessions) [
  | none ↦ (s, none)
  | some sess ↦
      if is_expired now sess
      then (record s { sessions = delete id s.sessions; closed = sess.bound ∷ s.closed }, none)
      else (record s { sessions = put id (touch now' s sess) s.sessions }, some (touch now' s sess))
]

unfoldable pub end_session : Bytes → Store → Store
end_session id s = elim (lookup id s.sessions) [
  | none ↦ s
  | some sess ↦ record s { sessions = delete id s.sessions; closed = sess.bound ∷ s.closed }
]

abbrev pub bounds : List (Bytes × Session) → List ℕ
bounds = map (λ e. e.1.bound)

-- The loop deletes the expired sessions, and their connections are closed after it.
unfoldable pub sweep : ℕ → Store → Store
sweep now s = record s {
  sessions = keep (λ _ sess. not (is_expired now sess)) s.sessions;
  closed = bounds (keep (λ _ sess. is_expired now sess) s.sessions) ++ s.closed;
}

unfoldable pub session_count : Store → ℕ
session_count s = length s.sessions

-- What the handlers and the janitor call.
pub data Call : Type 0 where
  creates : ℕ → Option Bytes → Bytes → ℕ → Bytes → Call
  gets : ℕ → ℕ → Bytes → Call
  deletes : Bytes → Call
  sweeps : ℕ → Call

unfoldable pub step : Call → Store → Store
step (creates now id dn bound id_token) s = (create now id dn bound id_token s).0
step (gets now now' id) s = (get now now' id s).0
step (deletes id) s = end_session id s
step (sweeps now) s = sweep now s

unfoldable pub run : List Call → Store → Store
unfolding step
run [] s = s
run (c ∷ cs) s = run cs (step c s)
