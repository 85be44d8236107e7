-- ===== src/Backup/Manager.antt =====
-- The state of the backup manager and what its methods share: writing the job file, the derived
-- state per kind, and one reconciliation (ui/backend/internal/backup/manager.go, manager_jobs.go).
-- A method that holds the mutex is one function. `job_file` and `state_file` are what the disk
-- holds; whether a write succeeds is the caller's argument, and a write that fails changes nothing.
use ldapium.Prelude.{
  ℕ, zero, suc, Bool, true, false, ◌&&◌, ◌||◌, not, Option, none, some, List, [], ◌∷◌, ◌++◌, String,
  ltb, if◌then◌else◌, length, retain, or_else,
}
use ldapium.Prelude.Bytes.{Bytes}
use ldapium.Prelude.Eq.{bytes_eq, text_eq, nat_eq, ◌==◌}
use ldapium.Prelude.Assoc.{lookup, put}
use ldapium.Backup.{
  job_status_succeeded, job_status_abandoned, JobArtifact, Job, Policy, Policies, State, no_state,
  is_valid_job_id,
}
use ldapium.Backup.Retention.{prune_jobs}
use ldapium.Backup.Reconcile.{
  WorkerResult, ArtifactManifest, Decision, orphan_suspected, Evidence, reconcile_evidence,
  validate_worker_result, schedule_after_recovery,
}

-- What the worker lock says: no probe is set, the lock is held or not, or the probe fails.
pub data Probe : Type 0 where
  no_probe probe_failed : Probe
  probed : (held : Bool) → Probe

pub data ResultFile : Type 0 where
  absent_file unusable_file : ResultFile
  result_file : WorkerResult → ResultFile

-- What is on disk under the backup root when a method looks: the lock, the result file of a job,
-- the owned manifests of a kind in the order of their directory, and whether a kind has staging
-- directories left.
pub record Disk : Type 0 where
  pub has_root : Bool
  pub lock : Probe
  pub result_of : Bytes → ResultFile
  pub manifests : String → List ArtifactManifest
  pub staging_left : String → Bool

pub record Manager : Type 0 where
  pub policies : Policies
  pub logs_available : Bool
  pub states : List (String × State)
  pub running : Bool
  pub jobs : List Job
  pub job_dirty : Bool
  pub active_job_id : Bytes
  pub active_job_kind : String
  pub timeouts : List (String × ℕ)
  pub orphan_delay : ℕ
  pub pending_result_deletes : List Bytes
  -- The run whose context the cancel function ends, and the runs whose context it has ended.
  pub cancel_func : Option Bytes
  pub cancelled_runs : List Bytes
  pub job_file : List Job
  pub state_file : Policies × List (String × State)
  pub removed_results : List Bytes

-- Writes that succeed or fail: the job file and the state file.
pub record Writes : Type 0 where
  pub jobs_ok : Bool
  pub state_ok : Bool

unfoldable pub commit_jobs : Bool → List Job → Manager → Manager × Bool
unfolding retain
commit_jobs false next m = (m, false)
commit_jobs true next m = (
  record m {
    jobs = next;
    job_dirty = false;
    job_file = next;
    removed_results = m.removed_results ++ retain is_valid_job_id m.pending_result_deletes;
    pending_result_deletes = [];
  },
  true,
)

unfoldable pub persist_jobs : Bool → Manager → Manager
unfolding commit_jobs
persist_jobs ok m =
    let (m', done) = commit_jobs ok m.jobs m in if done then m' else record m { job_dirty = true }

unfoldable pub persist_state : Bool → Manager → Manager
persist_state ok m = if ok then record m { state_file = (m.policies, m.states) } else m

unfoldable pub prune : ℕ → Manager → Manager
unfolding prune_jobs
prune now m =
    let (pruned, ids) = prune_jobs m.jobs now in
    if length ids == 0 then m else record m {
      jobs = pruned;
      pending_result_deletes = m.pending_result_deletes ++ ids;
      job_dirty = true;
    }

unfoldable pub policy_for : Manager → String → Policy
policy_for m kind = if kind == "logs" then m.policies.logs_policy else m.policies.data_policy

unfoldable pub state_of : Manager → String → State
unfolding lookup
state_of m kind = or_else no_state (lookup kind m.states)

unfoldable pub set_state : String → State → Manager → Manager
unfolding put
set_state kind st m = record m { states = put kind st m.states }

abbrev pub started_of : Job → ℕ
started_of j = if j.started_at == 0 then j.created_at else j.started_at

abbrev pub state_status_for : String → String
state_status_for s = if s == job_status_abandoned then "interrupted" else s

abbrev pub is_locally_verified : Job → Bool
is_locally_verified j = or_else false j.local_verified

-- The run that a job's artifact names, if it names one.
unfoldable pub artifact_run : Option JobArtifact → Bytes
artifact_run none = []
artifact_run (some a) = a.run_id

abbrev pub has_artifact : Job → Bool
has_artifact j = not (artifact_run j.artifact == [])

unfoldable pub fold_job_into_state : State → Job → State
unfolding artifact_run
fold_job_into_state st j = record st {
  last_attempt = started_of j;
  policy_revision = j.policy_revision;
  status = state_status_for j.status;
  local_verified = is_locally_verified j;
  last_local_success = if is_locally_verified j then j.finished_at else st.last_local_success;
  run_id = if has_artifact j then artifact_run j.artifact else st.run_id;
  last_success =
      if j.status == job_status_succeeded && ltb st.last_success j.finished_at
      then j.finished_at
      else st.last_success;
}

-- m.jobs[i] = j
unfoldable pub set_job : ℕ → Job → List Job → List Job
set_job i j [] = []
set_job zero j (k ∷ jobs) = j ∷ jobs
set_job (suc i) j (k ∷ jobs) = k ∷ set_job i j jobs

-- The first job that passes a test, with its place.
unfoldable pub find_job : (Job → Bool) → List Job → Option (ℕ × Job)
find_job p [] = none
find_job p (j ∷ jobs) =
    let rest = find_job p jobs in
    if p j then some (0, j) else elim rest [ none ↦ none | some (i, k) ↦ some (suc i, k) ]

abbrev pub fixed_kind : String → Bool
fixed_kind kind = kind == "data" || kind == "logs"

-- `readWorkerResult`: the result, and whether a file is there that is not one of this job.
unfoldable pub read_worker_result : Disk → Job → Option WorkerResult × Bool
unfolding validate_worker_result
read_worker_result disk j =
    if disk.has_root && is_valid_job_id j.job_id
    then elim (disk.result_of j.job_id) [
      | absent_file ↦ (none, false)
      | unusable_file ↦ (none, true)
      | result_file r ↦ elim (validate_worker_result r j) [
        | none ↦ (some r, false)
        | some e ↦ (none, true)
      ]
    ]
    else (none, false)

unfoldable pub manifest_with : Bytes → List ArtifactManifest → Option ArtifactManifest
manifest_with id [] = none
manifest_with id (m ∷ ms) =
    let rest = manifest_with id ms in if m.job_id == id then some m else rest

unfoldable pub find_matching_manifest : Disk → String → Bytes → Option ArtifactManifest
unfolding manifest_with
find_matching_manifest disk kind id =
    if fixed_kind kind && disk.has_root && is_valid_job_id id
    then manifest_with id (disk.manifests kind)
    else none

-- What `reconcileJobLocked` reads before it decides: the files only when the lock is free.
unfoldable pub evidence : Disk → Bool → Job → Evidence
unfolding read_worker_result find_matching_manifest
evidence disk may_own_lock j =
    let lock = if may_own_lock then disk.lock else no_probe in
    let (result, invalid) = read_worker_result disk j in
    let free : Evidence = record {
      lock_held = false;
      probe_error = false;
      result = result;
      result_invalid = invalid;
      manifest = find_matching_manifest disk j.kind j.job_id;
    } in
    let silent : Evidence = record {
      lock_held = false;
      probe_error = false;
      result = none;
      result_invalid = false;
      manifest = none;
    } in
    elim lock [
      | no_probe ↦ free
      | probed held ↦ if held then record silent { lock_held = true } else free
      | probe_failed ↦ record silent { probe_error = true }
    ]

unfoldable pub is_orphan : Decision → Bool
is_orphan orphan_suspected = true
is_orphan _ = false

unfoldable pub hold_orphan : Job → Manager → Manager
unfolding set_state state_of
hold_orphan j m =
    set_state j.kind (record (state_of m j.kind) { status = "running" })
      (record m { running = true; active_job_id = j.job_id; active_job_kind = j.kind })

unfoldable pub clear_active : Job → Manager → Manager
clear_active j m =
    if m.active_job_id == j.job_id
    then record m { running = false; active_job_id = []; active_job_kind = "" }
    else m

unfoldable pub fold_settled : ℕ → Job → Manager → Manager
unfolding fold_job_into_state schedule_after_recovery set_state state_of policy_for
fold_settled now j m =
    let st = fold_job_into_state (state_of m j.kind) j in
    let p = policy_for m j.kind in
    set_state j.kind
      (if p.enabled
        then record st { next_run = schedule_after_recovery m.jobs j.kind p.interval_minutes now }
        else st)
      m

-- `reconcileJobLocked` of the job at a place.
unfoldable pub reconcile_job : Disk → ℕ → Bool → ℕ → Job → Manager → Manager × Bool
unfolding reconcile_evidence evidence set_job is_orphan hold_orphan clear_active fold_settled
reconcile_job disk now may_own_lock i j m =
    let (j', decision) = reconcile_evidence j (evidence disk may_own_lock j) now in
    let m' : Manager = record m { jobs = set_job i j' m.jobs } in
    if is_orphan decision
    then (hold_orphan j' m', true)
    else (fold_settled now j' (clear_active j' m'), false)
