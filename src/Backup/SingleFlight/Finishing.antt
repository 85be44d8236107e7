-- ===== src/Backup/SingleFlight/Finishing.antt =====
-- The end of a run (ui/backend/internal/backup/run.go) and a poll of the orphan loop
-- (manager_jobs.go) keep the invariant.
use ldapium.Prelude.{
  ℕ, zero, suc, ◌≡◌, ◌≢◌, refl, ap, sym, ◌∙◌, subst, false, Option, none, some, List, [], ◌∷◌,
  arith, retain, if-both, Bool-cases, inl, inr,
}
use ldapium.Prelude.Eq.{bytes_eq, text_eq, nat_eq, ◌==◌}
use ldapium.Backup.{Job, is_running}
use ldapium.Backup.Reconcile.{WorkerResult, ArtifactManifest}
use ldapium.Backup.Manager.{Disk, Manager, Writes, set_state, set_job, find_matching_manifest}
use ldapium.Backup.Start.{Worker}
use ldapium.Backup.Cancelling.{by_id}
use ldapium.Backup.Finish.{
  Exit, Ending, with_ending, with_result, worker_evidence, ending, finished_job, clear_run,
  settle_run, execute,
}
use ldapium.Backup.Places.{retained-passes, retain-set_job}
use ldapium.Backup.System.{view, take_worker, Slot, idle, working, orphaned, Inv}
use ldapium.Backup.Saving.{saved-Inv}

with_result-status :
    (r : Option WorkerResult) (manifest : Option ArtifactManifest) (j : Job)
    → (with_result r manifest j).status ≡ j.status
unfolding with_result
with_result-status none none j = refl
with_result-status none (some m) j = refl
with_result-status (some r) manifest j = refl

with_ending-not_running :
    (now : ℕ) (exit : Exit) (e : Ending) (j : Job) → is_running (with_ending now exit e j) ≡ false
unfolding with_ending
with_ending-not_running now exit e j = elim (Bool-cases e.succeeded) [
  | inl s ↦ rw s refl
  | inr s ↦ elim (Bool-cases e.cancelled) [ inl c ↦ rw (s, c) refl | inr c ↦ rw (s, c) refl ]
]

pub finished_job-not_running :
    (disk : Disk) (w : Worker) (now : ℕ) (exit : Exit) (j : Job)
    → is_running (finished_job disk w now exit j).0 ≡ false
unfolding finished_job
finished_job-not_running disk w now exit j =
    let result = worker_evidence disk exit j in
    let e = ending exit result j in
    rw
      (with_result-status result (find_matching_manifest disk w.kind w.job_id)
        (with_ending now exit e j))
      (with_ending-not_running now exit e j)

-- The manager that `execute` saves.
settle_run-Inv :
    (disk : Disk) (w : Worker) (now : ℕ) (exit : Exit) (writes : Writes) (i : ℕ) (j : Job)
    (m : Manager)
    → m.running ≡ false
    → retain is_running (set_job i (finished_job disk w now exit j).0 m.jobs) ≡ []
    → Inv (settle_run disk w now exit writes i j m) []
unfolding settle_run clear_run set_state view
settle_run-Inv disk w now exit writes i j m off r = saved-Inv now writes _ [] (
    if-both (λ (x : Manager). Slot (view x) []) (m.active_job_id == w.job_id) _ _
      (λ _. idle off r refl) (λ _. idle off r refl))

execute-Inv :
    (disk : Disk) (w : Worker) (now : ℕ) (exit : Exit) (writes : Writes) (m : Manager) (j : Job)
    (i : ℕ)
    → retain is_running m.jobs ≡ j ∷ []
    → by_id w.job_id m.jobs ≡ some (i, j)
    → Inv (execute disk w now exit writes m) []
unfolding execute
execute-Inv disk w now exit writes m j i r f =
    rw (f, execute)
      (settle_run-Inv disk w now exit writes i j (record m { running = false; cancel_func = none })
        refl
        (retain-set_job (λ k. k.job_id == w.job_id) is_running m.jobs i j
            (finished_job disk w now exit j).0 j f (retained-passes is_running m.jobs [] j r) r
          ∙ rw (finished_job-not_running disk w now exit j) refl))

take_one :
    (i : ℕ) (w x : Worker) (rest : List Worker)
    → take_worker i (x ∷ []) ≡ (some w, rest)
    → (x ≡ w) × (rest ≡ [])
unfolding take_worker
take_one zero w x rest h = ground (arith, h)
take_one (suc i) w x rest h = ground (arith, h)

no_worker :
    (place : ℕ) (w : Worker) (ws rest : List Worker)
    → take_worker place ws ≡ (some w, rest)
    → ws ≢ []
unfolding take_worker
no_worker place w [] rest t h = ground (arith, t)
no_worker place w (x ∷ ws) rest t h = cc

pub exit-Inv :
    (place : ℕ) (disk : Disk) (w : Worker) (now : ℕ) (exit : Exit) (writes : Writes) (m : Manager)
    (ws rest : List Worker)
    → Slot (view m) ws
    → take_worker place ws ≡ (some w, rest)
    → Inv (execute disk w now exit writes m) rest
unfolding view take_worker
exit-Inv place disk w now exit writes m ws rest (idle off r none_left) t =
    elim (no_worker place w ws rest t none_left) [ ]
exit-Inv place disk w now exit writes m ws rest (orphaned j i on r o f none_left) t =
    elim (no_worker place w ws rest t none_left) [ ]
exit-Inv place disk w now exit writes m ws rest (working j i x on r o f a one) t =
    let (same, gone) = take_one place w x rest (ap (λ l. take_worker place l) (sym one) ∙ t) in
    subst (λ (l : List Worker). Inv (execute disk w now exit writes m) l) (sym gone)
      (execute-Inv disk w now exit writes m j i r
        (subst (λ (y : Worker). by_id y.job_id m.jobs ≡ some (i, j)) same f))
