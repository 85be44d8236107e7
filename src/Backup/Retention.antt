-- ===== src/Backup/Retention.antt =====
-- Retention of backup jobs: `pruneJobs` of ui/backend/internal/backup/jobs_store.go. The function
-- decides only; sort.Slice is a sort that keeps the order of equal times.
pub mod Kept
pub mod Latest
use ldapium.Prelude.{
  ℕ, ◌+◌, ◌-◌, ◌*◌, Bool, true, false, ◌&&◌, ◌||◌, not, Option, none, some, List, [], ◌∷◌, ◌++◌,
  String, ltb, if◌then◌else◌, length, map, retain, take, drop,
}
use ldapium.Prelude.Bytes.{Bytes}
use ldapium.Prelude.Eq.{text_eq, nat_eq, ◌==◌}
use ldapium.Prelude.Assoc.{lookup, put}
use ldapium.Backup.{minute, job_status_succeeded, Job, is_running}
use ldapium.Backup.Records.{has_id}

abbrev pub max_job_history : ℕ
max_job_history = 200

abbrev pub max_job_age : ℕ
max_job_age = 90 * 24 * 60 * minute

-- latestSucceeded, by kind.
abbrev pub Latest : Type 0
Latest = List (String × Job)

-- Finished later, or at the same time and created later.
unfoldable pub is_newer : Job → Job → Bool
is_newer j existing =
    ltb existing.finished_at j.finished_at
    || (j.finished_at == existing.finished_at && ltb existing.created_at j.created_at)

unfoldable pub note_succeeded : Job → Latest → Latest
unfolding is_newer lookup put
note_succeeded j latest = elim (lookup j.kind latest) [
  | none ↦ put j.kind j latest
  | some existing ↦ if is_newer j existing then put j.kind j latest else latest
]

abbrev pub counts_as_success : Job → Bool
counts_as_success j = not (is_running j) && j.status == job_status_succeeded

unfoldable pub latest_succeeded : Latest → List Job → Latest
unfolding note_succeeded
latest_succeeded latest [] = latest
latest_succeeded latest (j ∷ jobs) =
    latest_succeeded (if counts_as_success j then note_succeeded j latest else latest) jobs

abbrev pub ids : List Job → List Bytes
ids = map (λ (j : Job). j.job_id)

unfoldable pub protected_ids : List Job → List Bytes
unfolding latest_succeeded retain
protected_ids jobs =
    ids (retain is_running jobs)
    ++ map (λ (e : String × Job). e.1.job_id) (latest_succeeded [] jobs)

unfoldable pub is_protected : List Job → Job → Bool
unfolding protected_ids has_id
is_protected jobs j = has_id j.job_id (protected_ids jobs)

abbrev pub ref_time : Job → ℕ
ref_time j = if j.finished_at == 0 then j.created_at else j.finished_at

unfoldable pub is_expired : ℕ → Job → Bool
is_expired now j = not (ref_time j == 0) && ltb (ref_time j + max_job_age) now

unfoldable pub insert_job : Job → List Job → List Job
insert_job j [] = j ∷ []
insert_job j (k ∷ jobs) =
    let rest = insert_job j jobs in if ltb (ref_time k) (ref_time j) then k ∷ rest else j ∷ k ∷ jobs

unfoldable pub oldest_first : List Job → List Job
unfolding insert_job
oldest_first [] = []
oldest_first (j ∷ jobs) = insert_job j (oldest_first jobs)

abbrev pub Pruned : Type 0
Pruned = List Job × List Bytes

-- The part of the code under `len(retained) > MaxJobHistory`.
unfoldable pub prune_by_count : (Job → Bool) → List Job → Pruned → Pruned
unfolding oldest_first has_id retain
prune_by_count keeps jobs (retained, pruned) =
    let excess = length retained - max_job_history in
    let candidates = oldest_first (retain (λ j. not (keeps j)) retained) in
    let kept = ids (retain keeps retained) ++ ids (drop excess candidates) in
    (retain (λ j. has_id j.job_id kept) jobs, pruned ++ ids (take excess candidates))

unfoldable pub prune_old : (Job → Bool) → ℕ → List Job → Pruned
unfolding is_expired retain
prune_old keeps now jobs = (
  retain (λ j. keeps j || not (is_expired now j)) jobs,
  ids (retain (λ j. not (keeps j) && is_expired now j) jobs),
)

unfoldable pub prune_jobs : List Job → ℕ → Pruned
unfolding prune_old prune_by_count is_protected
prune_jobs [] now = ([], [])
prune_jobs (j ∷ jobs) now =
    let keeps = is_protected (j ∷ jobs) in
    let (retained, pruned) = prune_old keeps now (j ∷ jobs) in
    if ltb max_job_history (length retained)
    then prune_by_count keeps (j ∷ jobs) (retained, pruned)
    else (retained, pruned)
