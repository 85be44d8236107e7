-- ===== src/Backup/Records.antt =====
-- The gate for the file of backup jobs (ui/backend/internal/backup/jobs_store.go, and the patterns
-- of storage.go): each record is checked before it is used, and a file that fails is put aside.
use ldapium.Prelude.{
  ℕ, Bool, true, false, ◌&&◌, ◌||◌, not, Option, none, some, List, [], ◌∷◌, String, ltb,
  if◌then◌else◌, length, any, is_some,
}
use ldapium.Prelude.Bytes.{Bytes, is_digit, is_lower, is_upper}
use ldapium.Prelude.Eq.{bytes_eq, text_eq, nat_eq, ◌==◌}
use ldapium.Prelude.Assoc.{lookup}
use ldapium.Revision.{is_lower_hex, matches}
use ldapium.Backup.{
  ℤ, pos, negsuc, error_catalog, error_message, JobError, JobDestination, JobArtifactFile,
  JobArtifact, JobIdempotency, Job, is_valid_job_id, run_name, matches_class, safe_id,
}

abbrev pub max_job_records : ℕ
max_job_records = 10000

abbrev pub max_job_dests : ℕ
max_job_dests = 32

abbrev pub max_text_len : ℕ
max_text_len = 256

abbrev pub max_artifact_files : ℕ
max_artifact_files = 64

-- inSet(v, set...)
unfoldable pub in_set : String → List String → Bool
in_set v [] = false
in_set v (s ∷ set) = v == s || in_set v set

unfoldable pub valid_dest_status : String → Bool
unfolding in_set
valid_dest_status v = in_set v ("succeeded" ∷ "failed" ∷ "skipped" ∷ "unknown" ∷ [])

unfoldable pub valid_dest_err_code : String → Bool
unfolding in_set
valid_dest_err_code v =
    v == ""
    || in_set v (
        "transfer_failed" ∷ "verify_failed" ∷ "config_invalid" ∷ "previous_destination_failed" ∷ [])

-- ^[a-f0-9]{1,64}$, ^[A-Za-z0-9._:-]{1,128}$, ^[a-f0-9]{8}$, ^[a-f0-9]{64}$
unfoldable pub job_fingerprint : Bytes → Bool
unfolding matches_class
job_fingerprint = matches_class 1 64 is_lower_hex

abbrev is_token_byte : ℕ → Bool
is_token_byte c =
    is_upper c || is_lower c || is_digit c || c == b'.' || c == b'_' || c == b':' || c == b'-'

unfoldable pub job_request_id : Bytes → Bool
unfolding matches_class
job_request_id = matches_class 1 128 is_token_byte

abbrev pub job_key_id : Bytes → Bool
job_key_id = matches_class 8 8 is_lower_hex

abbrev pub sha256_hex : Bytes → Bool
sha256_hex = matches_class 64 64 is_lower_hex

-- ^[A-Za-z0-9][A-Za-z0-9._-]{0,127}$
abbrev is_name_byte : ℕ → Bool
is_name_byte c = is_upper c || is_lower c || is_digit c || c == b'.' || c == b'_' || c == b'-'

unfoldable pub artifact_name : Bytes → Bool
unfolding matches_class
artifact_name [] = false
artifact_name (c ∷ s) =
    (is_upper c || is_lower c || is_digit c) && matches_class 0 127 is_name_byte s

abbrev pub valid_job_idempotency : JobIdempotency → Bool
valid_job_idempotency i = sha256_hex i.key_hash && sha256_hex i.fingerprint && job_key_id i.key_id

-- A switch with one error per case: the first case that holds.
unfoldable pub first_error : List (Bool × String) → Option String
first_error [] = none
first_error ((bad, message) ∷ rest) = if bad then some message else first_error rest

bad_idempotency : Option JobIdempotency → Bool
bad_idempotency none = false
bad_idempotency (some i) = not (valid_job_idempotency i)

bad_error : Option JobError → Bool
bad_error none = false
bad_error (some e) =
    not (is_some (lookup e.code error_catalog)) || ltb max_text_len (length e.message)

bad_destination : JobDestination → Bool
bad_destination d =
    not (safe_id d.id) || not (valid_dest_status d.status) || not (valid_dest_err_code d.error_code)

is_negative : ℤ → Bool
is_negative (pos n) = false
is_negative (negsuc n) = true

bad_file : JobArtifactFile → Bool
unfolding is_negative
bad_file f = not (artifact_name f.name) || is_negative f.bytes || not (sha256_hex f.sha256)

bad_artifact : Option JobArtifact → Bool
bad_artifact none = false
bad_artifact (some a) =
    (not (a.run_id == []) && not (matches run_name a.run_id))
    || ltb max_artifact_files (length a.files)

bad_files : Option JobArtifact → Bool
unfolding any bad_file
bad_files none = false
bad_files (some a) = any bad_file a.files

job_checks : Job → List (Bool × String)
unfolding bad_idempotency bad_error bad_artifact bad_files any bad_destination
job_checks j =
    (not (is_valid_job_id j.job_id), "invalid job id")
    ∷ (not (in_set j.kind ("data" ∷ "logs" ∷ [])), "invalid kind")
    ∷ (not (in_set j.trigger ("manual" ∷ "schedule" ∷ [])), "invalid trigger")
    ∷ (
      not (in_set j.status ("running" ∷ "succeeded" ∷ "failed" ∷ "cancelled" ∷ "abandoned" ∷ [])),
      "invalid status",
    )
    ∷ (
      not (in_set j.requested_by.requester_type ("user" ∷ "scheduler" ∷ [])),
      "invalid requester type",
    )
    ∷ (
      not (j.requested_by.fingerprint == []) && not (job_fingerprint j.requested_by.fingerprint),
      "invalid requester fingerprint",
    )
    ∷ (not (j.request_id == []) && not (job_request_id j.request_id), "invalid request id")
    ∷ (
      not (j.staging_cleanup == "")
          && not (in_set j.staging_cleanup ("done" ∷ "pending" ∷ "not_applicable" ∷ [])),
      "invalid staging cleanup",
    )
    ∷ (
      not (j.orphan_reason == "")
          && not (in_set j.orphan_reason ("worker_lock_held" ∷ "lock_probe_error" ∷ [])),
      "invalid orphan reason",
    )
    ∷ (ltb max_job_dests (length j.destinations), "too many destinations")
    ∷ (bad_idempotency j.idempotency, "invalid idempotency record")
    ∷ (bad_error j.error, "invalid error")
    ∷ (any bad_destination j.destinations, "invalid destination")
    ∷ (bad_artifact j.artifact, "invalid artifact")
    ∷ (bad_files j.artifact, "invalid artifact file")
    ∷ []

-- The error of a record, `none` for nil; a missing record is a null of the file.
unfoldable pub validate_job : Option Job → Option String
unfolding first_error job_checks
validate_job none = some "null record"
validate_job (some j) = first_error (job_checks j)

-- seen[id], over a set of identifiers.
unfoldable pub has_id : Bytes → List Bytes → Bool
has_id id [] = false
has_id id (x ∷ seen) = x == id || has_id id seen

unfoldable pub validate_each : List Bytes → List (Option Job) → Option String
unfolding validate_job has_id
validate_each seen [] = none
validate_each seen (none ∷ jobs) = validate_job none
validate_each seen (some j ∷ jobs) =
    let rest = validate_each (j.job_id ∷ seen) jobs in
    elim (validate_job (some j)) [
      | some e ↦ some e
      | none ↦ if has_id j.job_id seen then some "duplicate job id" else rest
    ]

unfoldable pub validate_jobs : List (Option Job) → Option String
unfolding validate_each
validate_jobs jobs =
    if ltb max_job_records (length jobs) then some "too many records" else validate_each [] jobs

-- What reading backup-jobs.json gives: the errors of `readRegularFile`, or the decoded content.
pub data JobFile : Type 0 where
  no_file unusable io_failure invalid_json : JobFile
  decoded : (version : ℕ) → List (Option Job) → JobFile

-- The jobs, `none` for an error, and the reason for which the file was put aside.
abbrev pub Loaded : Type 0
Loaded = Option (List Job) × Option String

abbrev rederived : Job → Job
rederived j = elim j.error [
  | none ↦ j
  | some e ↦ record j { error = some (record e { message = error_message e.code }) }
]

-- The loop over the records, none of which is nil once they were checked.
unfoldable pub trusted : List (Option Job) → List Job
trusted [] = []
trusted (none ∷ jobs) = trusted jobs
trusted (some j ∷ jobs) = rederived j ∷ trusted jobs

unfoldable pub load_job_file : JobFile → Loaded
unfolding validate_jobs trusted
load_job_file no_file = (some [], none)
load_job_file unusable = (some [], some "unusable_file")
load_job_file io_failure = (none, none)
load_job_file invalid_json = (some [], some "invalid_json")
load_job_file (decoded version jobs) =
    if version == 1
    then elim (validate_jobs jobs) [
      | some e ↦ (some [], some "invalid_record")
      | none ↦ (some (trusted jobs), none)
    ]
    else (some [], some "unsupported_version")
