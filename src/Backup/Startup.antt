-- ===== src/Backup/Startup.antt =====
-- Startup, the orphan loop and the ticks of the scheduler
-- (ui/backend/internal/backup/manager_jobs.go).
use ldapium.Prelude.{
  ℕ, zero, suc, ◌+◌, ◌*◌, Bool, true, false, ◌&&◌, ◌||◌, not, Option, none, some, List, [], ◌∷◌,
  String, ltb, leb, if◌then◌else◌, length, map, is_some,
}
use ldapium.Prelude.Bytes.{Bytes}
use ldapium.Prelude.Eq.{bytes_eq, text_eq, nat_eq, ◌==◌}
use ldapium.Backup.{
  second, minute, job_status_succeeded, err_code_worker_busy, JobError, Job, State, is_running,
}
use ldapium.Backup.Manager.{
  Disk, Manager, Writes, persist_jobs, persist_state, prune, policy_for, state_of, set_state,
  started_of, is_locally_verified, artifact_run, has_artifact, fold_job_into_state, find_job,
  reconcile_job,
}

abbrev pub orphan_poll_min : ℕ
orphan_poll_min = 5 * second

abbrev pub orphan_poll_max : ℕ
orphan_poll_max = 30 * second

unfoldable pub next_orphan_delay : ℕ → ℕ
next_orphan_delay prev =
    if ltb prev orphan_poll_min
    then orphan_poll_min
    else if ltb (prev * 2) orphan_poll_max
    then prev * 2
    else orphan_poll_max

-- `activeOrphanLocked`
abbrev pub is_active_orphan : Bytes → Job → Bool
is_active_orphan id j = j.job_id == id && is_running j && j.orphan_suspected

unfoldable pub active_orphan : Manager → Option (ℕ × Job)
unfolding find_job
active_orphan m =
    if m.running && not (m.active_job_id == [])
    then find_job (is_active_orphan m.active_job_id) m.jobs
    else none

unfoldable pub reason_at : ℕ → List Job → String
reason_at i [] = ""
reason_at zero (j ∷ jobs) = j.orphan_reason
reason_at (suc i) (j ∷ jobs) = reason_at i jobs

-- A changed reason is saved.
unfoldable pub save_held : Bool → ℕ → String → Manager → Manager
unfolding persist_jobs reason_at
save_held ok i reason m = if reason_at i m.jobs == reason then m else persist_jobs ok m

unfoldable pub set_delay : ℕ → Manager → Manager
set_delay delay m = record m { orphan_delay = delay }

-- The delay before the next poll, `none` when polling ends.
unfoldable pub orphan_step : Disk → ℕ → Writes → Manager → Manager × Option ℕ
unfolding active_orphan reconcile_job save_held set_delay next_orphan_delay prune persist_jobs
    persist_state
orphan_step disk now writes m = elim (active_orphan m) [
  | none ↦ (m, none)
  | some (i, j) ↦
      let (m', held) = reconcile_job disk now true i j m in
      let delay = next_orphan_delay m.orphan_delay in
      if held
      then (set_delay delay (save_held writes.jobs_ok i j.orphan_reason m'), some delay)
      else (
        persist_state writes.state_ok (persist_jobs writes.jobs_ok (prune now (set_delay 0 m'))),
        none,
      )
]

-- `orphanLoop`, over what each poll finds: the manager, the delays waited, and whether it ended.
pub record Poll : Type 0 where
  pub disk : Disk
  pub now : ℕ
  pub writes : Writes

unfoldable pub orphan_polls : ℕ → List Poll → Manager → Manager × ℕ × Bool
unfolding orphan_step
orphan_polls delay [] m = (m, 0, false)
orphan_polls delay (p ∷ polls) m =
    let (m', next) = orphan_step p.disk p.now p.writes m in
    elim next [
      | none ↦ (m', delay, true)
      | some again ↦
          let (m'', waited, ended) = orphan_polls again polls m' in (m'', delay + waited, ended)
    ]

unfoldable pub orphan_loop : List Poll → Manager → Manager × ℕ × Bool
unfolding active_orphan next_orphan_delay orphan_polls set_delay
orphan_loop polls m =
    let delay = next_orphan_delay 0 in
    if is_some (active_orphan m) then orphan_polls delay polls (set_delay delay m) else (m, 0, true)

abbrev is_due : ℕ → Manager → String → Bool
is_due now m kind =
    (policy_for m kind).enabled
    && ((state_of m kind).next_run == 0 || leb (state_of m kind).next_run now)

unfoldable pub retry_save : Bool → Manager → Manager
unfolding persist_jobs
retry_save ok m = if m.job_dirty then persist_jobs ok m else m

-- `tick` up to its call of StartJob: the kind that is due, the empty text for none.
unfoldable pub tick : ℕ → Bool → Manager → Manager × String
unfolding retry_save policy_for state_of
tick now ok m =
    if m.running
    then (m, "")
    else let m' = retry_save ok m in
      (m', if is_due now m' "data" then "data" else if is_due now m' "logs" then "logs" else "")

-- The latest finished job of a kind, and the latest that provides each part of its state.
pub record Found : Type 0 where
  pub latest : Option Job
  pub latest_ok : Option Job
  pub latest_local : Option Job
  pub latest_artifact : Option Job

abbrev pub nothing_found : Found
nothing_found = record {
  latest = none;
  latest_ok = none;
  latest_local = none;
  latest_artifact = none;
}

unfoldable pub note_job : Job → Found → Found
unfolding artifact_run
note_job j f = record {
  latest = some j;
  latest_ok = if j.status == job_status_succeeded then some j else f.latest_ok;
  latest_local = if is_locally_verified j then some j else f.latest_local;
  latest_artifact = if has_artifact j then some j else f.latest_artifact;
}

unfoldable pub find_latest : String → Found → List Job → Found
unfolding note_job
find_latest kind f [] = f
find_latest kind f (j ∷ jobs) =
    find_latest kind (if not (j.kind == kind) || is_running j then f else note_job j f) jobs

is_busy_error : Option JobError → Bool
is_busy_error none = false
is_busy_error (some e) = e.code == err_code_worker_busy

unfoldable pub catch_up : Manager → String → Job → Option Job → State → State
unfolding artifact_run fold_job_into_state policy_for is_busy_error
catch_up m kind latest with_artifact st =
    let folded = fold_job_into_state st latest in
    let named : State = elim with_artifact [
      | none ↦ folded
      | some j ↦ record folded { run_id = artifact_run j.artifact }
    ] in
    let p = policy_for m kind in
    if not (ltb st.last_attempt (started_of latest))
    then st
    else if p.enabled && not (latest.finished_at == 0)
    then record named {
      next_run =
          if is_busy_error latest.error
          then latest.finished_at + 60 * second
          else latest.finished_at + p.interval_minutes * minute;
    }
    else named

later_of : ℕ → Option Job → ℕ
later_of t none = t
later_of t (some j) = if ltb t j.finished_at then j.finished_at else t

run_or : Bytes → Option Job → Bytes
run_or run none = run
run_or run (some j) = if run == [] then artifact_run j.artifact else run

unfoldable pub restore_state : Manager → String → Found → State → State
unfolding catch_up later_of run_or
restore_state m kind f st = elim (f.latest) [
  | none ↦ st
  | some latest ↦
      let st' = catch_up m kind latest f.latest_artifact st in
      record st' {
        last_success = later_of st'.last_success f.latest_ok;
        last_local_success = later_of st'.last_local_success f.latest_local;
        run_id = run_or st'.run_id f.latest_artifact;
      }
]

unfoldable pub restore_kind : String → Manager → Manager
unfolding find_latest restore_state set_state state_of
restore_kind kind m =
    let f = find_latest kind nothing_found m.jobs in
    if is_some f.latest then set_state kind (restore_state m kind f (state_of m kind)) m else m

unfoldable pub restore_states : Manager → Manager
unfolding restore_kind
restore_states m = restore_kind "logs" (restore_kind "data" m)

-- latestRunning: the place of the last running job.
unfoldable pub latest_running : List Job → Option ℕ
latest_running [] = none
latest_running (j ∷ jobs) = elim (latest_running jobs) [
  | some i ↦ some (suc i)
  | none ↦ if is_running j then some 0 else none
]

unfoldable pub is_place : ℕ → Option ℕ → Bool
is_place i none = false
is_place i (some k) = i == k

-- The loop over the jobs: `i` is the place of the first job of the rest.
unfoldable pub reconcile_from : Disk → ℕ → Option ℕ → ℕ → List Job → Manager → Manager
unfolding reconcile_job is_place
reconcile_from disk now newest i [] m = m
reconcile_from disk now newest i (j ∷ jobs) m =
    reconcile_from disk now newest (suc i) jobs
      (if is_running j then (reconcile_job disk now (is_place i newest) i j m).0 else m)

unfoldable pub interrupted : String × State → String × State
interrupted (kind, st) =
    (kind, if st.status == "running" then record st { status = "interrupted" } else st)

unfoldable pub mark_interrupted : Bool → Manager → Manager
unfolding interrupted
mark_interrupted b m = if b then record m { states = map interrupted m.states } else m

unfoldable pub save_changed : Bool → Writes → Manager → Manager
unfolding persist_jobs
save_changed b writes m = if b then persist_jobs writes.jobs_ok m else m

-- `changed` tells whether the states differ from those before: reflect.DeepEqual, a parameter.
unfoldable pub startup :
    (List (String × State) → List (String × State) → Bool) → Disk → ℕ → Writes → Manager → Manager
unfolding restore_states latest_running reconcile_from mark_interrupted prune save_changed
    persist_state
startup changed disk now writes m =
    let newest = latest_running m.jobs in
    let reconciled = reconcile_from disk now newest 0 m.jobs (restore_states m) in
    let marked = mark_interrupted (not (is_some newest) && not reconciled.running) reconciled in
    let pruned = prune now marked in
    let saved =
      save_changed (is_some newest || not (length pruned.jobs == length m.jobs) || pruned.job_dirty)
        writes pruned in
    if changed m.states saved.states then persist_state writes.state_ok saved else saved
