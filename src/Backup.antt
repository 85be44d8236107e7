-- ===== src/Backup.antt =====
-- Backup jobs: the records, their states and the errors of ui/backend/internal/backup/jobs.go,
-- and the policies of model.go. A zero time is `time.Time{}`; a duration is in nanoseconds.
-- Identifiers and digests are bytes, the words of the closed sets are texts.
pub mod Records
pub mod Retention
pub mod Reconcile
pub mod Manager
pub mod Start
pub mod Cancelling
pub mod Finish
pub mod Startup
pub mod Settings
pub mod Places
pub mod System
pub mod Saving
pub mod SingleFlight
mod Tests
use ldapium.Prelude.{
  ℕ, zero, suc, ◌+◌, ◌*◌, Bool, true, false, ◌&&◌, ◌||◌, not, Option, none, some, List, [], ◌∷◌,
  ◌++◌, String, ltb, leb, if◌then◌else◌, length, all, any, replicate, or_else,
}
use ldapium.Prelude.Bytes.{Bytes, codes, is_digit, is_lower}
use ldapium.Prelude.Eq.{bytes_eq, text_eq, nat_eq, ◌==◌}
use ldapium.Prelude.Assoc.{lookup}
use ldapium.Revision.{Pattern, is_lower_hex, matches}

abbrev pub second : ℕ
second = 1000000000

abbrev pub minute : ℕ
minute = 60 * second

-- Job status.
abbrev pub job_status_running : String
job_status_running = "running"

abbrev pub job_status_succeeded : String
job_status_succeeded = "succeeded"

abbrev pub job_status_failed : String
job_status_failed = "failed"

abbrev pub job_status_cancelled : String
job_status_cancelled = "cancelled"

abbrev pub job_status_abandoned : String
job_status_abandoned = "abandoned"

abbrev pub err_code_deadline_exceeded : String
err_code_deadline_exceeded = "deadline_exceeded"

abbrev pub err_code_abandoned : String
err_code_abandoned = "abandoned"

abbrev pub err_code_worker_failed : String
err_code_worker_failed = "worker_failed"

abbrev pub err_code_worker_busy : String
err_code_worker_busy = "worker_busy"

abbrev pub err_code_unverified_result : String
err_code_unverified_result = "unverified_result"

abbrev pub err_code_result_invalid : String
err_code_result_invalid = "result_invalid"

unfoldable pub error_catalog : List (String × String)
error_catalog =
    ("backup_busy", "backup already running")
    ∷ ("job_not_found", "backup job not found")
    ∷ ("job_not_cancellable", "backup job is not cancellable")
    ∷ ("persistence_unavailable", "backup state could not be saved; retry")
    ∷ ("deadline_exceeded", "backup job deadline exceeded")
    ∷ ("abandoned", "controller restarted while the job was running")
    ∷ ("worker_failed", "backup worker process failed")
    ∷ ("worker_busy", "backup worker busy")
    ∷ ("unverified_result", "unverified worker result")
    ∷ ("result_invalid", "worker result could not be validated")
    ∷ ("transfer_failed", "remote transfer command failed")
    ∷ ("verify_failed", "checksum verification failed")
    ∷ ("config_invalid", "destination configuration rejected")
    ∷ ("previous_destination_failed", "skipped due to previous destination failure")
    ∷ []

unfoldable pub error_message : String → Bytes
unfolding error_catalog lookup
error_message code = codes (or_else "internal error" (lookup code error_catalog))

pub record JobRequester : Type 0 where
  pub requester_type : String
  pub fingerprint : Bytes

pub record JobError : Type 0 where
  pub code : String
  pub message : Bytes

pub record JobDestination : Type 0 where
  pub id : Bytes
  pub status : String
  pub error_code : String

-- An int64.
pub data ℤ : Type 0 where
  pos negsuc : ℕ → ℤ

pub record JobArtifactFile : Type 0 where
  pub name : Bytes
  pub bytes : ℤ
  pub sha256 : Bytes

pub record JobArtifact : Type 0 where
  pub run_id : Bytes
  pub files : List JobArtifactFile

pub record JobIdempotency : Type 0 where
  pub key_hash : Bytes
  pub fingerprint : Bytes
  pub key_id : Bytes

-- `verified` is JobLocal, a record of this one field.
pub record Job : Type 0 where
  pub job_id : Bytes
  pub kind : String
  pub trigger : String
  pub status : String
  pub requested_by : JobRequester
  pub request_id : Bytes
  pub policy_revision : ℕ
  pub created_at : ℕ
  pub started_at : ℕ
  pub finished_at : ℕ
  pub deadline_at : ℕ
  pub cancel_requested_at : ℕ
  pub orphan_suspected : Bool
  pub orphan_reason : String
  pub staging_cleanup : String
  pub error : Option JobError
  pub local_verified : Option Bool
  pub destinations : List JobDestination
  pub artifact : Option JobArtifact
  pub idempotency : Option JobIdempotency

abbrev pub catalog_error : String → JobError
catalog_error code = record { code = code; message = error_message code }

abbrev pub is_running : Job → Bool
is_running j = j.status == job_status_running

-- `ValidTransition`; the empty text is the state before the creation.
unfoldable pub is_terminal : String → Bool
is_terminal s =
    s == job_status_succeeded
    || s == job_status_failed
    || s == job_status_cancelled
    || s == job_status_abandoned

unfoldable pub valid_transition : String → String → Bool
unfolding is_terminal
valid_transition from to =
    if from == ""
    then to == job_status_running
    else if from == job_status_running
    then to == job_status_running || is_terminal to
    else false

-- ^job-[0-9]{8}T[0-9]{6}Z-[a-f0-9]{12}$, and the name of a run: the same without `job-`.
abbrev pub run_time : Pattern
run_time =
    replicate 8 is_digit
    ++ (λ c. c == b'T') ∷ (replicate 6 is_digit ++ (λ c. c == b'Z') ∷ (λ c. c == b'-') ∷ [])

abbrev pub run_name : Pattern
run_name = run_time ++ replicate 12 is_lower_hex

abbrev pub job_id_regex : Pattern
job_id_regex = (λ c. c == b'j') ∷ (λ c. c == b'o') ∷ (λ c. c == b'b') ∷ (λ c. c == b'-') ∷ run_name

unfoldable pub is_valid_job_id : Bytes → Bool
unfolding matches
is_valid_job_id s = matches job_id_regex s

-- `Generate`: up to ten times six random bytes, `none` for a failed read. The time is the clock's
-- at that attempt, formatted, and `random` the bytes in hexadecimal.
unfoldable pub generate_from : ℕ → (Bytes → Bool) → List (Bytes × Option Bytes) → Option Bytes
generate_from zero exists attempts = none
generate_from (suc n) exists [] = none
generate_from (suc n) exists ((time, none) ∷ rest) = none
generate_from (suc n) exists ((time, some random) ∷ rest) =
    let id = codes "job-" ++ (time ++ b'-' ∷ random) in
    let again = generate_from n exists rest in if exists id then again else some id

abbrev pub max_retries : ℕ
max_retries = 10

unfoldable pub generate : (Bytes → Bool) → List (Bytes × Option Bytes) → Option Bytes
unfolding generate_from
generate exists attempts = generate_from max_retries exists attempts

-- `validate` refuses a number below 1, so that one below 0 is 0 here.
pub record Policy : Type 0 where
  pub enabled : Bool
  pub interval_minutes : ℕ
  pub keep_days : ℕ
  pub keep_count : ℕ
  pub destinations : List Bytes

pub record Policies : Type 0 where
  pub revision : ℕ
  pub data_policy : Policy
  pub logs_policy : Policy

pub record State : Type 0 where
  pub local_verified : Bool
  pub last_local_success : ℕ
  pub status : String
  pub last_attempt : ℕ
  pub last_success : ℕ
  pub next_run : ℕ
  pub run_id : Bytes
  pub policy_revision : ℕ

abbrev pub no_state : State
no_state = record {
  local_verified = false;
  last_local_success = 0;
  status = "";
  last_attempt = 0;
  last_success = 0;
  next_run = 0;
  run_id = [];
  policy_revision = 0;
}

-- ^[..]{lo,hi}$
unfoldable pub matches_class : ℕ → ℕ → (ℕ → Bool) → Bytes → Bool
unfolding all
matches_class lo hi p s = leb lo (length s) && leb (length s) hi && all p s

-- ^[a-z0-9][a-z0-9-]{0,63}$
unfoldable pub safe_id : Bytes → Bool
unfolding matches_class
safe_id [] = false
safe_id (c ∷ s) =
    (is_lower c || is_digit c) && matches_class 0 63 (λ x. is_lower x || is_digit x || x == b'-') s
