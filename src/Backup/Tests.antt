-- ===== src/Backup/Tests.antt =====
-- Runs of the backup manager and the witnesses of its theorems (ui/backend/internal/backup).
use mathlib.Core.List.{Memᴰ}
use ldapium.Prelude.{
  ℕ, ◌≡◌, ◌↔◌, ◌≤◌, ◌*◌, refl, Bool, true, false, not, Option, none, some, List, [], ◌∷◌, ◌++◌,
  String, retain, is_some, any, all, suc, map, ◌+◌,
}
use ldapium.Prelude.Bytes.{Bytes, codes}
use ldapium.Prelude.Eq.{bytes_eq, text_eq, nat_eq}
use ldapium.Prelude.Assoc.{lookup, put}
use ldapium.Idempotency.Keyring.{verdict_same}
use ldapium.Backup.{
  second, minute, job_status_succeeded, Job, State, is_running, is_valid_job_id, is_terminal,
  valid_transition,
}
use ldapium.Backup.Records.{job_fingerprint, job_request_id}
use ldapium.Backup.Retention.{counts_as_success, is_newer, prune_jobs}
use ldapium.Backup.Retention.Latest.{IsSuccess, prune_jobs_lem}
use ldapium.Backup.Reconcile.{WorkerResult, Evidence, orphan_suspected, reconcile_evidence}
use ldapium.Backup.Reconcile.Outcome.{may_be_alive, Vouched, reconcile_evidence_lem}
use ldapium.Backup.Manager.{Disk, probed, probe_failed, absent_file, Manager, Writes}
use ldapium.Backup.Start.{
  RequestIdempotency, RunRequest, Moment, started, same_key, present, start_job, verdict_of,
}
use ldapium.Backup.Start.Answers.{Outcome, kept, start_job_lem, retry_lem}
use ldapium.Backup.Startup.{active_orphan, startup, Poll, orphan_loop}
use ldapium.Backup.Settings.{default_policies}
use ldapium.Backup.System.{Event, starts, exits, polls, ticks, run, Inv}
use ldapium.Backup.SingleFlight.{IsConsistent, run-startup}
use ldapium.Backup.SingleFlight.Release.{orphan_loop-ends}

abbrev id_of : String → Bytes
id_of last = codes "job-20240101T000000Z-00000000000" ++ codes last

-- A disk without files, with a lock that is free, held or not to be probed.
abbrev quiet : Disk
quiet = record {
  has_root = true;
  lock = probed false;
  result_of = λ id. absent_file;
  manifests = λ kind. [];
  staging_left = λ kind. false;
}

abbrev taken : Disk
taken = record quiet { lock = probed true }

abbrev unknown : Disk
unknown = record quiet { lock = probe_failed }

abbrev both_saved : Writes
both_saved = record { jobs_ok = true; state_ok = true }

abbrev none_saved : Writes
none_saved = record { jobs_ok = false; state_ok = false }

abbrev left_behind : Job
left_behind = record {
  job_id = id_of "1";
  kind = "data";
  trigger = "manual";
  status = "running";
  requested_by = record { requester_type = "user"; fingerprint = [] };
  request_id = [];
  policy_revision = 0;
  created_at = 10;
  started_at = 10;
  finished_at = 0;
  deadline_at = 100;
  cancel_requested_at = 0;
  orphan_suspected = false;
  orphan_reason = "";
  staging_cleanup = "not_applicable";
  error = none;
  local_verified = none;
  destinations = [];
  artifact = none;
  idempotency = none;
}

abbrev succeeded_once : Job
succeeded_once = record left_behind {
  job_id = id_of "2";
  status = "succeeded";
  created_at = 1;
  finished_at = 5;
}

abbrev manager_with : List Job → Manager
manager_with jobs = record {
  policies = default_policies;
  logs_available = true;
  states = [];
  running = false;
  jobs = jobs;
  job_dirty = false;
  active_job_id = [];
  active_job_kind = "";
  timeouts = [];
  orphan_delay = 0;
  pending_result_deletes = [];
  cancel_func = none;
  cancelled_runs = [];
  job_file = jobs;
  state_file = (default_policies, []);
  removed_results = [];
}

abbrev same_states : List (String × State) → List (String × State) → Bool
same_states before now = false

abbrev plain : Bytes → Option Bytes
plain text = some text

abbrev key : RequestIdempotency
key = record {
  key_hash = codes "hash";
  fingerprint = codes "fp";
  key_id = codes "1";
  verify = some (λ id stored. verdict_same);
}

abbrev request : RunRequest
request = record {
  kind = "data";
  trigger = "manual";
  actor_fingerprint = [];
  request_id = [];
  idempotency = some key;
}

abbrev moment : Moment
moment = record {
  now = 50;
  attempts = (codes "20240101T000050Z", some (codes "0000000000aa")) ∷ [];
  jobs_ok = true;
}

-- A restart with a live worker; a poll that finds it gone; a start whose worker fails to be saved.
abbrev events : List Event
events =
    starts taken request moment
    ∷ polls unknown 40 none_saved
    ∷ polls quiet 45 both_saved
    ∷ starts quiet request moment
    ∷ ticks 55 true
    ∷ exits 0 quiet 60 (record { output = none; error = none; deadline_passed = false }) none_saved
    ∷ ticks 65 true
    ∷ []

abbrev before_start : Manager
before_start = manager_with (succeeded_once ∷ left_behind ∷ [])

run-startup_example : IsConsistent (
    run plain
      (record { manager = startup same_states taken 20 both_saved before_start; workers = [] })
      events)
run-startup_example =
    run-startup plain same_states taken 20 both_saved before_start events refl refl

prune_jobs_lem_example :
    let kept = (prune_jobs (succeeded_once ∷ left_behind ∷ []) 20).0 in
    (retain is_running kept ≡ retain is_running (succeeded_once ∷ left_behind ∷ []))
    × ((j : Job)
        → Memᴰ j (succeeded_once ∷ left_behind ∷ [])
        → counts_as_success j ≡ true
        → (k : Job) × IsSuccess j.kind k kept × (is_newer j k ≡ false))
prune_jobs_lem_example = prune_jobs_lem (succeeded_once ∷ left_behind ∷ []) 20

abbrev result : WorkerResult
result = record {
  run_id = [];
  kind = "data";
  verified = true;
  local_verified = true;
  job_id = id_of "1";
  destinations = [];
}

abbrev found_result : Evidence
found_result = record {
  lock_held = false;
  probe_error = false;
  result = some result;
  result_invalid = false;
  manifest = none;
}

reconcile_evidence_lem_example :
    let (j', decision) = reconcile_evidence left_behind found_result 30 in
    ((decision ≡ orphan_suspected) ↔ (may_be_alive found_result ≡ true))
    × (is_running j' ≡ may_be_alive found_result)
    × (is_terminal j'.status ≡ not (may_be_alive found_result))
    × ((j'.status ≡ job_status_succeeded)
        ↔ ((may_be_alive found_result ≡ false) × (r : WorkerResult) × Vouched found_result r))
    × (j'.job_id ≡ left_behind.job_id)
    × (valid_transition left_behind.status j'.status ≡ true)
reconcile_evidence_lem_example = reconcile_evidence_lem left_behind found_result 30 refl

start_job_lem_example :
    Outcome quiet request moment before_start (start_job plain quiet request moment before_start)
start_job_lem_example = start_job_lem plain quiet request moment before_start

abbrev fresh : Manager
fresh = manager_with []

abbrev new : Job
new = record left_behind {
  job_id = codes "job-20240101T000050Z-0000000000aa";
  created_at = 50;
  started_at = 50;
  deadline_at = 50 + 120 * minute;
}

is_started : (start_job plain quiet request moment fresh).1 ≡ started new
unfolding start_job lookup all job_fingerprint job_request_id
is_started = refl

retry_lem_example :
    let m' = (start_job plain quiet request moment fresh).0 in
    (job : Job) × (job.job_id ≡ new.job_id)
    × (start_job plain taken request moment m'
        ≡ (m', same_key (present taken job) (verdict_of plain key (kept key)), none))
retry_lem_example =
    retry_lem plain quiet taken request request moment moment fresh new key key is_started refl refl
      refl (λ h. cc) refl refl

-- The orphan of an earlier process.
abbrev restarted : Manager
restarted = startup same_states taken 20 both_saved before_start

restarted-Inv : Inv restarted []
unfolding run
restarted-Inv = run-startup plain same_states taken 20 both_saved before_start [] refl refl

restarted-waits : is_some (active_orphan restarted) ≡ true
unfolding active_orphan startup lookup put retain any all
restarted-waits = refl

abbrev poll_of : Disk → ℕ → Poll
poll_of disk now = record { disk = disk; now = now; writes = both_saved }

orphan_loop-ends_example :
    let (m', waited, ended) =
      orphan_loop (poll_of taken 25 ∷ poll_of unknown 35 ∷ poll_of quiet 55 ∷ []) restarted in
    (ended ≡ true) × (m'.running ≡ false) × (waited ≤ 30 * second * suc 2)
orphan_loop-ends_example =
    orphan_loop-ends restarted (poll_of taken 25 ∷ poll_of unknown 35 ∷ []) (poll_of quiet 55) []
      restarted-Inv restarted-waits refl

-- Three delays: 5, 10 and 20 seconds.
loop_waits :
    (orphan_loop (poll_of taken 25 ∷ poll_of unknown 35 ∷ poll_of quiet 55 ∷ []) restarted).1
    ≡ 35 * second
unfolding orphan_loop startup lookup put retain any all is_valid_job_id
loop_waits = refl

statuses : Manager → List String
statuses m = map (λ (j : Job). j.status) m.jobs

-- The run of events above: the orphan is abandoned, and the new job fails unverified.
statuses-run :
    statuses (run plain (record { manager = restarted; workers = [] }) events).manager
    ≡ "succeeded" ∷ "abandoned" ∷ "failed" ∷ []
unfolding run startup lookup put retain any all statuses is_valid_job_id
statuses-run = refl
