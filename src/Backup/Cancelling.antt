-- ===== src/Backup/Cancelling.antt =====
-- Cancelling and finding a job (ui/backend/internal/backup/manager_jobs.go).
use ldapium.Prelude.{
  ℕ, Bool, ◌&&◌, ◌||◌, not, Option, none, some, List, [], ◌∷◌, String, ltb, if◌then◌else◌, map,
  take, reverse, retain,
}
use ldapium.Prelude.Bytes.{Bytes}
use ldapium.Prelude.Eq.{bytes_eq, text_eq, nat_eq, ◌==◌}
use ldapium.Backup.{job_status_cancelled, Job, is_running, is_valid_job_id}
use ldapium.Backup.Manager.{Disk, Manager, set_job, find_job}
use ldapium.Backup.Start.{present}

pub data Cancel : Type 0 where
  cancelling already_cancelled : Job → Cancel
  job_not_found cancel_not_saved : Cancel
  not_cancellable : (status : String) → Cancel

-- The loop `for _, j := range m.jobs` with the test on the identifier.
abbrev pub by_id : Bytes → List Job → Option (ℕ × Job)
by_id id jobs = find_job (λ j. j.job_id == id) jobs

unfoldable pub request_cancel : ℕ → Bool → Disk → ℕ → Job → Manager → Manager × Cancel
unfolding set_job present
request_cancel now ok disk i j m =
    let j' : Job = record j { cancel_requested_at = now } in
    let jobs' = set_job i j' m.jobs in
    if ok
    then (
      record m {
        jobs = jobs';
        job_file = jobs';
        cancelled_runs = elim m.cancel_func [
          | none ↦ m.cancelled_runs
          | some run ↦ run ∷ m.cancelled_runs
        ];
      },
      cancelling (present disk j'),
    )
    else (m, cancel_not_saved)

unfoldable pub cancel_job : Bytes → ℕ → Bool → Disk → Manager → Manager × Cancel
unfolding request_cancel find_job
cancel_job id now ok disk m =
    if is_valid_job_id id
    then elim (by_id id m.jobs) [
      | none ↦ (m, job_not_found)
      | some (i, j) ↦
          if j.status == job_status_cancelled
          then (m, already_cancelled (present disk j))
          else if not (is_running j) || j.orphan_suspected
          then (m, not_cancellable j.status)
          else request_cancel now ok disk i j m
    ]
    else (m, job_not_found)

-- `Jobs`, `GetJob` and `ActiveJob`: newest first, at most `limit` of 1 to 100, 20 else.
unfoldable pub list_jobs : Disk → String → String → ℕ → Manager → List Job
unfolding retain
list_jobs disk kind status limit m =
    let n = if limit == 0 || ltb 100 limit then 20 else limit in
    map (present disk) (
      take n (
        retain (λ j. (kind == "" || j.kind == kind) && (status == "" || j.status == status))
          (reverse m.jobs)))

unfoldable pub get_job : Disk → Bytes → Manager → Option Job
unfolding find_job
get_job disk id m =
    if is_valid_job_id id
    then elim (by_id id m.jobs) [ none ↦ none | some (i, j) ↦ some (present disk j) ]
    else none

unfoldable pub active_job : Manager → Option Job
unfolding find_job
active_job m =
    if m.running && not (m.active_job_id == [])
    then elim (by_id m.active_job_id m.jobs) [ none ↦ none | some (i, j) ↦ some j ]
    else none
