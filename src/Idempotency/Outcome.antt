-- ===== src/Idempotency/Outcome.antt =====
-- ui/backend/internal/httpapi/idempotency.go: which directory errors leave the outcome of a write
-- unknown, what `runIdempotent` records after the handler, and how a record is replayed.
-- The client-side result codes of go-ldap, the error envelope's text and the JSON of a refreshed
-- envelope are parameters.
pub mod Errors
pub mod Recording
use ldapium.Prelude.{
  ℕ, Bool, true, false, ◌&&◌, ◌||◌, not, Option, none, some, List, [], ◌∷◌, leb, ltb, ◌==◌,
  if◌then◌else◌, length,
}
use ldapium.Prelude.Bytes.{Bytes, codes}
use ldapium.Idempotency.Store.{Result, Store, Handle, complete, release}

-- A Go error as `isOutcomeUnknown` sees it: nil, an `*ldap.Error`, an error that unwraps to a list
-- (`errors.Join`), one that unwraps to an error (`%w`), or neither.
mutual
  pub data GoError : Type 0 where
    absent : GoError
    ldap_error : ℕ → GoError
    joins : GoErrors → GoError
    wraps : GoError → GoError
    leaf : GoError

  pub data GoErrors : Type 0 where
    none_left : GoErrors
    child : GoError → GoErrors → GoErrors

module _ (error_network error_empty_password : ℕ) where
  abbrev pub is_client_side : ℕ → Bool
  is_client_side code = leb error_network code && leb code error_empty_password

  unfoldable mutual
    pub is_outcome_unknown : GoError → Bool
    is_outcome_unknown absent = true
    is_outcome_unknown (ldap_error code) = is_client_side code
    is_outcome_unknown (joins none_left) = true
    is_outcome_unknown (joins (child e es)) = is_outcome_unknown e || some_unknown es
    is_outcome_unknown (wraps e) = is_outcome_unknown e
    is_outcome_unknown leaf = true

    -- The loop over the children.
    pub some_unknown : GoErrors → Bool
    some_unknown none_left = false
    some_unknown (child e es) = is_outcome_unknown e || some_unknown es

abbrev pub max_result_body : ℕ
max_result_body = 4096

pub data Panic : Type 0 where
  returned panicked aborted : Panic

-- What the handler left behind: whether it panicked (`aborted`: with `http.ErrAbortHandler`), the
-- captured status (0: never written), body and Location, and the three marks on the context.
pub record Handled : Type 0 where
  pub panic : Panic
  pub status : ℕ
  pub body : Bytes
  pub location : Bytes
  pub outcome_unknown : Bool
  pub definitive : Bool
  pub partial_failure : Bool

pub data Reply : Type 0 where
  answers : ℕ → Bytes → Bytes → Reply
  aborts : Reply

abbrev pub status_of : Handled → ℕ
status_of h = if h.status == 0 then 200 else h.status

abbrev pub is_panic : Panic → Bool
is_panic returned = false
is_panic panicked = true
is_panic aborted = true

-- The value of `unknown` when the `switch` is reached.
unfoldable pub is_unknown : Handled → Bool
is_unknown h =
    h.outcome_unknown
    || is_panic h.panic
    || (leb 500 (status_of h) && not h.definitive && not h.partial_failure)

abbrev pub is_success : ℕ → Bool
is_success status = leb 200 status && ltb status 300

module _ (unknown_text : Bytes) where
  -- unknownResult
  abbrev pub unknown_result : Result
  unknown_result = record { status = 409; location = []; body = unknown_text; envelope = true }

  success_record : Handled → Bytes → Result
  success_record h body =
      if ltb max_result_body (length body)
      then unknown_result
      else record { status = status_of h; location = h.location; body = body; envelope = false }

  failure_record : Handled → Result
  failure_record h =
      if ltb max_result_body (length h.body)
      then unknown_result
      else record { status = status_of h; location = []; body = h.body; envelope = true }

  -- The `switch`: the result to record, or `none` where the key is released.
  unfoldable pub to_record : Bool → Handled → Option Result
  unfolding success_record failure_record is_unknown
  to_record password h =
      if is_unknown h
      then some unknown_result
      else if is_success (status_of h)
      then some (success_record h (if password then codes "{}" else h.body))
      else if h.partial_failure
      then some (failure_record h)
      else none

  -- The reply of `finishUnknown`, or the handler's own.
  unfoldable pub reply_of : Handled → Reply
  unfolding is_unknown
  reply_of h =
      if is_unknown h
      then elim h.panic [ aborted ↦ aborts | _ ↦ answers 409 [] unknown_text ]
      else answers (status_of h) h.location h.body

  unfoldable pub settle : ℕ → Handle → Option Result → Store → Store
  settle now g (some r) s = complete now g r s
  settle now g none s = release g s

  unfoldable pub run_idempotent : ℕ → Bool → Handle → Handled → Store → Store × Reply
  unfolding settle to_record reply_of
  run_idempotent now password g h s = (settle now g (to_record password h) s, reply_of h)

-- `refresh` is the envelope with this request's id, if the body is an envelope.
abbrev or_body : Option Bytes → Bytes → Bytes
or_body none body = body
or_body (some env) body = env

unfoldable pub replay_idempotent : (Bytes → Option Bytes) → Result → Reply
replay_idempotent refresh r =
    answers r.status r.location (if r.envelope then or_body (refresh r.body) r.body else r.body)
