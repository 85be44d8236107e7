-- ===== src/Backup/Saving.antt =====
-- Writing and pruning (ui/backend/internal/backup/manager_jobs.go) keep the invariant.
use ldapium.Prelude.{
  ℕ, ◌≡◌, refl, sym, ◌∙◌, subst, some, Bool, true, false, List, [], ◌∷◌, length, retain, Bool-cases,
  inl, inr,
}
use ldapium.Prelude.Eq.{bytes_eq, text_eq, nat_eq, ◌==◌}
use ldapium.Backup.{Job, is_running}
use ldapium.Backup.Retention.{prune_jobs}
use ldapium.Backup.Retention.Kept.{Implies, IsKept, retain-retain_on, prune_jobs-IsKept}
use ldapium.Backup.Manager.{
  Manager, Writes, commit_jobs, persist_jobs, persist_state, prune, find_job,
}
use ldapium.Backup.Start.{Worker}
use ldapium.Backup.Startup.{is_active_orphan}
use ldapium.Backup.Places.{found-Implies, find_job-retain, retained-passes}
use ldapium.Backup.System.{View, view, Slot, idle, working, orphaned, IsDurable, Inv}

pub view-persist_jobs : (ok : Bool) (m : Manager) → view (persist_jobs ok m) ≡ view m
unfolding persist_jobs commit_jobs view
view-persist_jobs true m = refl
view-persist_jobs false m = refl

pub persist_jobs-IsDurable : (ok : Bool) (m : Manager) → IsDurable (persist_jobs ok m)
unfolding persist_jobs commit_jobs
persist_jobs-IsDurable true m d = refl
persist_jobs-IsDurable false m d = cc

pub view-persist_state : (ok : Bool) (m : Manager) → view (persist_state ok m) ≡ view m
unfolding persist_state view
view-persist_state true m = refl
view-persist_state false m = refl

pub persist_state-IsDurable :
    (ok : Bool) (m : Manager) → IsDurable m → IsDurable (persist_state ok m)
unfolding persist_state
persist_state-IsDurable true m h = h
persist_state-IsDurable false m h = h

-- What a filter that keeps the running jobs leaves of a found one.
kept-found :
    (p test : Job → Bool) (jobs : List Job) (i : ℕ) (j : Job)
    → Implies is_running test jobs
    → retain is_running jobs ≡ j ∷ []
    → find_job p jobs ≡ some (i, j)
    → (n : ℕ) × (find_job p (retain test jobs) ≡ some (n, j))
kept-found p test jobs i j k r f =
    find_job-retain p test jobs i j f
      (found-Implies p is_running test jobs i j f k (retained-passes is_running jobs [] j r))

retained-Slot :
    (test : Job → Bool) (v : View) (ws : List Worker)
    → Implies is_running test v.jobs
    → Slot v ws
    → Slot (record v { jobs = retain test v.jobs }) ws
retained-Slot test v ws k (idle off r w) =
    idle off (retain-retain_on is_running test v.jobs k ∙ r) w
retained-Slot test v ws k (working j i w on r o f a e) =
    let (n, g) = kept-found (λ x. x.job_id == w.job_id) test v.jobs i j k r f in
    working j n w on (retain-retain_on is_running test v.jobs k ∙ r) o g a e
retained-Slot test v ws k (orphaned j i on r o f e) =
    let (n, g) = kept-found (is_active_orphan v.active_job_id) test v.jobs i j k r f in
    orphaned j n on (retain-retain_on is_running test v.jobs k ∙ r) o g e

kept-Slot :
    (v : View) (kept : List Job) (ws : List Worker)
    → IsKept v.jobs kept
    → Slot v ws
    → Slot (record v { jobs = kept }) ws
kept-Slot v kept ws k s =
    subst (λ (l : List Job). Slot (record v { jobs = l }) ws) (sym k.is_filter)
      (retained-Slot k.test v ws k.keeps_running s)

pub prune-Slot :
    (now : ℕ) (m : Manager) (ws : List Worker) → Slot (view m) ws → Slot (view (prune now m)) ws
unfolding prune view
prune-Slot now m ws s = elim (Bool-cases (length (prune_jobs m.jobs now).1 == 0)) [
  | inl e ↦ rw e s
  | inr e ↦ rw e (kept-Slot (view m) (prune_jobs m.jobs now).0 ws (prune_jobs-IsKept m.jobs now) s)
]

-- The end of a settlement: prune, then both files.
pub saved-Inv :
    (now : ℕ) (writes : Writes) (m : Manager) (ws : List Worker)
    → Slot (view m) ws
    → Inv (persist_state writes.state_ok (persist_jobs writes.jobs_ok (prune now m))) ws
saved-Inv now writes m ws s =
    let pruned = prune now m in
    let jobs_saved = persist_jobs writes.jobs_ok pruned in
    record {
      slot =
          subst (λ (v : View). Slot v ws)
            (sym (
              view-persist_state writes.state_ok jobs_saved
              ∙ view-persist_jobs writes.jobs_ok pruned))
            (prune-Slot now m ws s);
      durable =
          persist_state-IsDurable writes.state_ok jobs_saved
            (persist_jobs-IsDurable writes.jobs_ok pruned);
    }
