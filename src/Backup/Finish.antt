-- ===== src/Backup/Finish.antt =====
-- The end of a run: `execute` of ui/backend/internal/backup/run.go from the worker's exit on. The
-- worker itself is a program; its exit and its decoded output are arguments.
use ldapium.Prelude.{
  ℕ, suc, ◌+◌, ◌-◌, ◌*◌, Bool, true, false, ◌&&◌, ◌||◌, not, Option, none, some, List, [], ◌∷◌,
  ◌++◌, String, if◌then◌else◌, reverse, retain, is_some,
}
use ldapium.Prelude.Bytes.{Bytes}
use ldapium.Prelude.Eq.{bytes_eq, text_eq, nat_eq, ◌==◌}
use ldapium.Backup.{
  minute, job_status_succeeded, job_status_failed, job_status_cancelled, err_code_deadline_exceeded,
  err_code_worker_failed, err_code_worker_busy, err_code_unverified_result, JobArtifactFile,
  JobError, Job, State, catalog_error, is_running,
}
use ldapium.Backup.Reconcile.{
  WorkerResult, ArtifactManifest, validate_worker_result, schedule_after_worker_busy,
}
use ldapium.Backup.Manager.{
  Disk, Manager, Writes, persist_jobs, persist_state, prune, state_of, set_state,
  fold_job_into_state, set_job, find_job, read_worker_result, find_matching_manifest,
}
use ldapium.Backup.Start.{Worker}
use ldapium.Backup.Cancelling.{by_id}

-- The error of `runWorker`: an exit status, `errWorkerKilled`, or another one.
pub data RunError : Type 0 where
  worker_killed other_error : RunError
  exit_status : ℕ → RunError

pub record Exit : Type 0 where
  pub output : Option WorkerResult
  pub error : Option RunError
  pub deadline_passed : Bool

-- The validated output, else the validated file.
unfoldable pub worker_evidence : Disk → Exit → Job → Option WorkerResult
unfolding validate_worker_result read_worker_result
worker_evidence disk exit j =
    let from_file = (read_worker_result disk j).0 in
    elim (exit.output) [
      | none ↦ from_file
      | some r ↦ elim (validate_worker_result r j) [ none ↦ some r | some e ↦ from_file ]
    ]

pub record Ending : Type 0 where
  pub succeeded : Bool
  pub cancelled : Bool
  pub deadline_hit : Bool

abbrev is_verified : Option WorkerResult → Bool
is_verified none = false
is_verified (some r) = r.verified

unfoldable pub ending : Exit → Option WorkerResult → Job → Ending
ending exit result j =
    let succeeded = not (is_some exit.error) && is_verified result in
    let cancelled = not (j.cancel_requested_at == 0) && not succeeded in
    record {
      succeeded = succeeded;
      cancelled = cancelled;
      deadline_hit = not cancelled && not succeeded && exit.deadline_passed;
    }

error_code_of : Option RunError → String
error_code_of none = err_code_unverified_result
error_code_of (some worker_killed) = err_code_worker_failed
error_code_of (some other_error) = err_code_worker_failed
error_code_of (some (exit_status n)) =
    if n == 75 then err_code_worker_busy else err_code_worker_failed

unfoldable pub ending_code : Exit → Ending → String
unfolding error_code_of
ending_code exit e =
    if e.succeeded || e.cancelled
    then ""
    else if e.deadline_hit
    then err_code_deadline_exceeded
    else error_code_of exit.error

is_killed : Option RunError → Bool
is_killed (some worker_killed) = true
is_killed (some other_error) = false
is_killed (some (exit_status n)) = false
is_killed none = false

unfoldable pub with_ending : ℕ → Exit → Ending → Job → Job
unfolding ending_code is_killed
with_ending now exit e j = record j {
  finished_at = now;
  status =
      if e.succeeded
      then job_status_succeeded
      else if e.cancelled
      then job_status_cancelled
      else job_status_failed;
  error = if ending_code exit e == "" then j.error else some (catalog_error (ending_code exit e));
  staging_cleanup =
      if e.cancelled || e.deadline_hit
      then if is_killed exit.error then "pending" else "done"
      else j.staging_cleanup;
}

-- The files of a manifest of the very run.
files_of_run : Bytes → Option ArtifactManifest → List JobArtifactFile
files_of_run run none = []
files_of_run run (some m) = if m.run_id == run then m.files else []

unfoldable pub with_result : Option WorkerResult → Option ArtifactManifest → Job → Job
unfolding files_of_run
with_result none none j = j
with_result none (some m) j = record j {
  local_verified = some true;
  artifact = some (record { run_id = m.run_id; files = m.files });
}
with_result (some r) manifest j = record j {
  local_verified = if r.local_verified then some true else j.local_verified;
  destinations = j.destinations ++ r.destinations;
  artifact =
      if r.run_id == []
      then j.artifact
      else some (record { run_id = r.run_id; files = files_of_run r.run_id manifest });
}

-- The trailing run of worker_busy failures of a kind, over the jobs from the newest.
abbrev is_worker_busy : Option JobError → Bool
is_worker_busy none = false
is_worker_busy (some e) = e.code == err_code_worker_busy

unfoldable pub busy_run : List Job → ℕ
busy_run [] = 0
busy_run (j ∷ jobs) =
    let rest = busy_run jobs in
    if j.status == job_status_failed && is_worker_busy j.error then suc rest else 0

unfoldable pub consecutive_worker_busy : List Job → String → ℕ
unfolding busy_run retain
consecutive_worker_busy jobs kind =
    busy_run (retain (λ j. j.kind == kind && not (is_running j)) (reverse jobs))

-- The job as it is recorded at the end.
unfoldable pub finished_job : Disk → Worker → ℕ → Exit → Job → Job × String
unfolding worker_evidence ending ending_code with_ending with_result find_matching_manifest
finished_job disk w now exit j =
    let result = worker_evidence disk exit j in
    let e = ending exit result j in
    (
      with_result result (find_matching_manifest disk w.kind w.job_id) (with_ending now exit e j),
      ending_code exit e,
    )

unfoldable pub next_run_after : Manager → Worker → ℕ → String → ℕ
unfolding schedule_after_worker_busy consecutive_worker_busy
next_run_after m w now code =
    if code == err_code_worker_busy
    then schedule_after_worker_busy (consecutive_worker_busy m.jobs w.kind - 1) w.interval_minutes
        now
    else now + w.interval_minutes * minute

unfoldable pub clear_run : Bytes → Manager → Manager
clear_run id m =
    if m.active_job_id == id then record m { active_job_id = []; active_job_kind = "" } else m

unfoldable pub settle_run : Disk → Worker → ℕ → Exit → Writes → ℕ → Job → Manager → Manager
unfolding finished_job fold_job_into_state next_run_after set_state state_of set_job clear_run prune
    persist_jobs persist_state
settle_run disk w now exit writes i j m =
    let (j', code) = finished_job disk w now exit j in
    let m' : Manager = record m { jobs = set_job i j' m.jobs } in
    let st : State = record (fold_job_into_state (state_of m' w.kind) j') {
      next_run = next_run_after m' w now code;
    } in
    persist_state writes.state_ok
      (persist_jobs writes.jobs_ok (prune now (clear_run w.job_id (set_state w.kind st m'))))

unfoldable pub execute : Disk → Worker → ℕ → Exit → Writes → Manager → Manager
unfolding settle_run find_job
execute disk w now exit writes m =
    let m' : Manager = record m { running = false; cancel_func = none } in
    elim (by_id w.job_id m.jobs) [
      | none ↦ m'
      | some (i, j) ↦ settle_run disk w now exit writes i j m'
    ]
