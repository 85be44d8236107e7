-- ===== src/Idempotency/Request.antt =====
-- ui/backend/internal/httpapi/idempotency.go: `idempotent`, the middleware, up to the handler, and
-- the runs of the server: requests that arrive, handlers that end, sweeps and rotations, in any
-- order. A handler runs between the two steps of its request.
pub mod Calls
pub mod Exclusion
pub mod Fingerprint
pub mod Retry
mod Tests
use mathlib.Core.Option
use ldapium.Prelude.{
  ℕ, Bool, true, false, ◌&&◌, not, Option, none, some, List, [], ◌∷◌, ◌++◌, String, if◌then◌else◌,
  length,
}
use ldapium.Prelude.Bytes.{Bytes, codes}
use ldapium.Prelude.Eq.{bytes_eq, nat_eq, ◌==◌}
use ldapium.Idempotency.Key.{parse_key}
use ldapium.Idempotency.Keyring.{Digest, Keyring, new_keyring}
use ldapium.Idempotency.Store.{
  Store, Handle, Result, Decision, kind_new, kind_replay, kind_conflict, kind_reused,
  kind_unknown_key, kind_capacity, begin, new_store, sweep, set_keyring,
}
use ldapium.Idempotency.Outcome.{Handled, run_idempotent}
use ldapium.Idempotency.Body.{Content, Encoding, strict_body, generates_password}
use ldapium.Pipeline.Serve.{idempotency_subject}

-- Who asks: a session with its DN, or a machine client.
pub data Caller : Type 0 where
  session : (dn : Bytes) → Caller
  machine : (client : Bytes) → Caller

-- `opened` is the mark of a machine write that began its record itself; `readable` is false for a
-- body that is too large or cannot be read; `path` is the route and `query` its sorted parameters.
pub record Request : Type 0 where
  pub opened : Bool
  pub caller : Caller
  pub keys : List Bytes
  pub method : Bytes
  pub path : Bytes
  pub query : Bytes
  pub media_type : Option Bytes
  pub readable : Bool
  pub content : Content

pub record ApiError : Type 0 where
  pub status : ℕ
  pub code : String
  pub message : String

-- `enabled` tells whether there is a store.
pub record Settings : Type 0 where
  pub digest : Digest
  pub encoding : Encoding
  pub issuer : Bytes
  pub enabled : Bool

-- What the request comes to before the store is asked.
pub data Prepared : Type 0 where
  unkeyed : Prepared
  malformed : ApiError → Prepared
  keyed : (subject key canon : Bytes) → Prepared

pub data Admission : Type 0 where
  passes : Admission
  refuses : ApiError → Admission
  replays : Result → Admission
  runs : Handle → Admission

abbrev pub api_error : ℕ → String → String → ApiError
api_error status code message = record { status = status; code = code; message = message }

abbrev pub is_machine : Caller → Bool
is_machine (session dn) = false
is_machine (machine client) = true

-- `machineIdempotencySubject`; `none` is its error.
unfoldable pub subject_of : Bytes → Caller → Option Bytes
subject_of issuer (session dn) = some dn
subject_of issuer (machine client) = idempotency_subject issuer client

with_subject : Option Bytes → Bytes → Bytes → Prepared
with_subject none key canon =
    malformed (api_error 403 "scope_denied" "machine write principal is unavailable")
with_subject (some subject) key canon = keyed subject key canon

with_body : Settings → Bool → Request → Bytes → Option Bytes → Prepared
unfolding with_subject subject_of
with_body cfg password req key none = malformed (
    api_error 400 "invalid_request"
      "with Idempotency-Key the body must be exactly one JSON value, without duplicate or case-colliding field names, sent as application/json")
with_body cfg password req key (some canon) =
    if password && generates_password cfg.encoding.equal_fold req.content
    then malformed (
        api_error 422 "validation_failed"
          "a server-generated password cannot be combined with Idempotency-Key: it could not be replayed")
    else with_subject (subject_of cfg.issuer req.caller) key canon

with_key : Settings → Bool → Request → Option Bytes → Prepared
unfolding with_body
with_key cfg password req none = malformed (
    api_error 400 "invalid_request"
      "Idempotency-Key must be one token of 16-128 characters from [A-Za-z0-9._~:-]")
with_key cfg password req (some key) =
    if not cfg.enabled
    then malformed (
        api_error 422 "idempotency_unsupported"
          "Idempotency-Key is not enabled on this server; repeat the request without it")
    else if not req.readable
    then malformed (api_error 400 "invalid_request" "request body too large or unreadable")
    else with_body cfg password req key
        (strict_body cfg.encoding req.method req.media_type req.content)

unfoldable pub prepare : Settings → Bool → Request → Prepared
unfolding with_key
prepare cfg password req =
    if req.opened
    then unkeyed
    else if length req.keys == 0
    then if is_machine req.caller
      then malformed (
          api_error 428 "idempotency_key_required" "Idempotency-Key is required for machine writes")
      else unkeyed
    else with_key cfg password req (parse_key req.keys)

-- What is fingerprinted: the method, the path with its query, the body.
abbrev pub parts_of : Request → Bytes → List Bytes
parts_of req canon = req.method ∷ (req.path ++ (b'?' ∷ req.query)) ∷ canon ∷ []

unfoldable pub admission_of : Decision → Admission
admission_of (kind_new h) = runs h
admission_of (kind_replay r) = replays r
admission_of kind_conflict = refuses (
    api_error 409 "idempotency_key_conflict"
      "a request with this Idempotency-Key is still being processed; retry shortly")
admission_of kind_reused = refuses (
    api_error 422 "idempotency_key_reused"
      "this Idempotency-Key was already used for a different request")
admission_of kind_unknown_key = refuses (
    api_error 409 "idempotency_outcome_unknown"
      "the result of this request could not be determined; read the resource to check its state before retrying")
admission_of kind_capacity = refuses (api_error 503 "idempotency_capacity" "")

admit : Settings → ℕ → Request → Store → Prepared → Store × Admission
unfolding admission_of
admit cfg now req s unkeyed = (s, passes)
admit cfg now req s (malformed e) = (s, refuses e)
admit cfg now req s (keyed subject key canon) =
    let (d, s') = begin cfg.digest now subject key (parts_of req canon) s in (s', admission_of d)

-- `idempotent`, up to `runIdempotent`.
unfoldable pub idempotent : Settings → ℕ → Bool → Request → Store → Store × Admission
unfolding admit
idempotent cfg now password req s = admit cfg now req s (prepare cfg password req)

-- What happens to the server, at a time.
pub data Event : Type 0 where
  arrives : (password : Bool) → Request → Event
  ends : (password : Bool) → Handle → Handled → Event
  sweeps : Event
  rotates : Keyring → Event

module _ (cfg : Settings) (unknown_text : Bytes) where
  unfoldable pub step : ℕ → Event → Store → Store
  step now (arrives password req) s = (idempotent cfg now password req s).0
  step now (ends password h outcome) s = (run_idempotent unknown_text now password h outcome s).0
  step now sweeps s = sweep now s
  step now (rotates k) s = set_keyring k s

  unfoldable pub run : List (ℕ × Event) → Store → Store
  unfolding step
  run [] s = s
  run ((now, e) ∷ es) s = run es (step now e s)

pub record IdempotencyConfig : Type 0 where
  pub key : Bytes
  pub previous_key : Bytes
  pub enabled : Bool
  pub ttl : ℕ

with_keys : IdempotencyConfig → Option Keyring → Keyring → Option Store × Option Keyring
with_keys cfg persisted keys = (
  some (new_store keys (record { ttl = cfg.ttl; max_records = 0; max_per_subject = 0 })),
  persisted,
)

with_persisted :
    Option Keyring → IdempotencyConfig → Option Keyring → Option (Option Store × Option Keyring)
unfolding with_keys
with_persisted random cfg (some keys) =
    some (if cfg.enabled then with_keys cfg (some keys) keys else (none, some keys))
with_persisted random cfg none =
    if cfg.enabled then Option.map (λ keys. with_keys cfg none keys) random else some (none, none)

-- `newIdempotency`, with the ring that RandomKeyring gives; `none` is an error.
unfoldable pub new_idempotency :
    Digest → Option Keyring → IdempotencyConfig → Option (Option Store × Option Keyring)
unfolding with_persisted
new_idempotency d random cfg =
    if cfg.key == []
    then with_persisted random cfg none
    else elim (new_keyring d cfg.key cfg.previous_key) [
      | none ↦ none
      | some keys ↦ with_persisted random cfg (some keys)
    ]
