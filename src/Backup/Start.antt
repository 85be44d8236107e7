-- ===== src/Backup/Start.antt =====
-- Starting a job (ui/backend/internal/backup/manager_jobs.go). What a
-- call reads from outside is its argument: the disk, the clock, the attempts of the generator.
pub mod Answers
use ldapium.Prelude.{
  ℕ, suc, ◌+◌, ◌*◌, Bool, true, false, ◌&&◌, ◌||◌, not, Option, none, some, List, [], ◌∷◌, ◌++◌,
  String, ltb, leb, if◌then◌else◌, length, map, take, reverse, retain, any, is_some, or_else,
}
use ldapium.Prelude.Bytes.{Bytes}
use ldapium.Prelude.Eq.{bytes_eq, text_eq, nat_eq, ◌==◌}
use ldapium.Prelude.Assoc.{lookup}
use ldapium.Idempotency.Keyring.{Verdict, verdict_unknown_key}
use ldapium.Backup.{
  minute, job_status_running, job_status_cancelled, JobIdempotency, Job, State, is_running,
  is_valid_job_id, generate,
}
use ldapium.Backup.Records.{has_id, job_fingerprint, job_request_id}
use ldapium.Backup.Retention.{ids}
use ldapium.Backup.Manager.{
  Disk, no_probe, probed, probe_failed, Manager, commit_jobs, policy_for, state_of, set_state,
  set_job, find_job, fixed_kind,
}

-- The key of a start request; `verify` is the request's comparison with a stored fingerprint.
pub record RequestIdempotency : Type 0 where
  pub key_hash : Bytes
  pub fingerprint : Bytes
  pub key_id : Bytes
  pub verify : Option (Bytes → Bytes → Verdict)

pub record RunRequest : Type 0 where
  pub kind : String
  pub trigger : String
  pub actor_fingerprint : Bytes
  pub request_id : Bytes
  pub idempotency : Option RequestIdempotency

-- The goroutine that a start leaves behind: what `execute` is called with, the deadline aside.
pub record Worker : Type 0 where
  pub kind : String
  pub interval_minutes : ℕ
  pub job_id : Bytes

pub data Start : Type 0 where
  started : Job → Start
  same_key : Job → Verdict → Start
  busy : (active_job_id : Bytes) → (active_kind : String) → Start
  unknown_kind no_log_sources no_job_id persistence_unavailable : Start

-- A copy for callers.
unfoldable pub present : Disk → Job → Job
present disk j = record j {
  idempotency = none;
  staging_cleanup =
      if fixed_kind j.kind
        && j.staging_cleanup == "pending"
        && disk.has_root
        && not (disk.staging_left j.kind)
      then "done"
      else j.staging_cleanup;
}

-- SetJobTimeouts keeps a positive time per kind; two hours without one.
unfoldable pub timeout_for : Manager → String → ℕ
unfolding lookup
timeout_for m kind =
    let d = or_else 0 (lookup kind m.timeouts) in if ltb 0 d then d else 120 * minute

unfoldable pub holds_key : Bytes → Job → Bool
holds_key hash j = elim j.idempotency [ none ↦ false | some i ↦ i.key_hash == hash ]

unfoldable pub is_held : Disk → Bool
is_held disk = elim (disk.lock) [ no_probe ↦ false | probe_failed ↦ false | probed held ↦ held ]

abbrev pub is_scheduled : RunRequest → Bool
is_scheduled req = req.trigger == "schedule"

pub record Moment : Type 0 where
  pub now : ℕ
  pub attempts : List (Bytes × Option Bytes)
  pub jobs_ok : Bool

-- The durable record of a key: for a keyed manual start only.
unfoldable pub kept_key : RunRequest → Option JobIdempotency
kept_key req = elim req.idempotency [
  | none ↦ none
  | some k ↦
      if is_scheduled req
      then none
      else some (record { key_hash = k.key_hash; fingerprint = k.fingerprint; key_id = k.key_id })
]

unfoldable pub new_job : Manager → RunRequest → ℕ → Bytes → Job
unfolding timeout_for kept_key
new_job m req now id = record {
  job_id = id;
  kind = req.kind;
  trigger = if is_scheduled req then "schedule" else "manual";
  status = job_status_running;
  requested_by = record {
    requester_type = if is_scheduled req then "scheduler" else "user";
    fingerprint =
        if not (job_fingerprint req.actor_fingerprint) || is_scheduled req
        then []
        else req.actor_fingerprint;
  };
  request_id = if job_request_id req.request_id then req.request_id else [];
  policy_revision = m.policies.revision;
  created_at = now;
  started_at = now;
  finished_at = 0;
  deadline_at = now + timeout_for m req.kind;
  cancel_requested_at = 0;
  orphan_suspected = false;
  orphan_reason = "";
  staging_cleanup = "not_applicable";
  error = none;
  local_verified = none;
  destinations = [];
  artifact = none;
  idempotency = kept_key req;
}

unfoldable pub state_of_start : Manager → String → ℕ → State
unfolding state_of policy_for
state_of_start m kind now = record (state_of m kind) {
  status = "running";
  local_verified = false;
  last_attempt = now;
  policy_revision = m.policies.revision;
  next_run = now + (policy_for m kind).interval_minutes * minute;
}

abbrev pub Started : Type 0
Started = Manager × Start × Option Worker

-- From the writing of the running record on.
unfoldable pub launch : Disk → RunRequest → Moment → Job → Manager → Started
unfolding commit_jobs set_state state_of_start present policy_for
launch disk req at j m =
    let (m', done) = commit_jobs at.jobs_ok (m.jobs ++ j ∷ []) m in
    if done
    then (
      set_state req.kind (state_of_start m' req.kind at.now) (record m' {
        running = true;
        active_job_id = j.job_id;
        active_job_kind = req.kind;
        cancel_func = some j.job_id;
      }),
      started (present disk j),
      some (record {
        kind = req.kind;
        interval_minutes = (policy_for m req.kind).interval_minutes;
        job_id = j.job_id;
      }),
    )
    else (m, persistence_unavailable, none)

unfoldable pub start_new : Disk → RunRequest → Moment → Manager → Started
unfolding is_held generate launch new_job has_id
start_new disk req at m =
    if m.running || is_held disk
    then (m, busy m.active_job_id m.active_job_kind, none)
    else if req.kind == "logs" && not m.logs_available
    then (m, no_log_sources, none)
    else elim (generate (λ id. has_id id (ids m.jobs)) at.attempts) [
      | none ↦ (m, no_job_id, none)
      | some id ↦ launch disk req at (new_job m req at.now id) m
    ]

module _ (decode : Bytes → Option Bytes) where
  -- `decode` is hex.DecodeString.
  unfoldable pub verdict_of : RequestIdempotency → JobIdempotency → Verdict
  verdict_of k i = elim (decode i.fingerprint) [
    | none ↦ verdict_unknown_key
    | some stored ↦ elim (k.verify) [ none ↦ verdict_unknown_key | some v ↦ v i.key_id stored ]
  ]

  unfoldable pub idempotent_hit : Disk → RunRequest → Manager → Option Start
  unfolding present find_job holds_key verdict_of
  idempotent_hit disk req m = elim req.idempotency [
    | none ↦ none
    | some k ↦ if k.key_hash == [] then none else elim (find_job (holds_key k.key_hash) m.jobs) [
      | none ↦ none
      | some (i, j) ↦ elim j.idempotency [
        | none ↦ none
        | some s ↦ some (same_key (present disk j) (verdict_of k s))
      ]
    ]
  ]

  unfoldable pub start_job : Disk → RunRequest → Moment → Manager → Started
  unfolding idempotent_hit start_new
  start_job disk req at m =
      if fixed_kind req.kind
      then elim (idempotent_hit disk req m) [
        | some hit ↦ (m, hit, none)
        | none ↦ start_new disk req at m
      ]
      else (m, unknown_kind, none)
