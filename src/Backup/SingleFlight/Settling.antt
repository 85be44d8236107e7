-- ===== src/Backup/SingleFlight/Settling.antt =====
-- One reconciliation of a job and a poll of the orphan loop keep the invariant
-- (ui/backend/internal/backup/manager_jobs.go).
use ldapium.Prelude.{
  ℕ, ◌≡◌, ◌≢◌, refl, ap, sym, ◌∙◌, subst, Bool, true, false, some, List, [], ◌∷◌, arith, retain,
  if-both, String, Bool-cases, Option-cases, inl, inr,
}
use ldapium.Prelude.Bytes.{Bytes}
use ldapium.Prelude.Eq.{bytes_eq, text_eq, nat_eq, ◌==◌, bytes_beq_iff, beq_refl}
use ldapium.Backup.{Job, is_running}
use ldapium.Backup.Reconcile.{
  Decision, unchanged, orphan_suspected, settled_result, settled_manifest, settled_none,
  settled_invalid, Evidence, kept_orphan, finished, settled,
}
use ldapium.Backup.Reconcile.Outcome.{
  may_be_alive, settled-IsSettled, settled-not_orphan, reconcile-alive, reconcile-ended,
  finished-id,
}
use ldapium.Backup.Manager.{
  Disk, Manager, Writes, persist_jobs, persist_state, prune, set_state, set_job, find_job, evidence,
  is_orphan, hold_orphan, clear_active, fold_settled, reconcile_job,
}
use ldapium.Backup.Start.{Worker}
use ldapium.Backup.Startup.{
  is_active_orphan, active_orphan, reason_at, save_held, set_delay, orphan_step,
}
use ldapium.Backup.Places.{
  found-retained, found-only, find_job-passes, retain-set_job, find_job-set_job, set_job-found,
  find_job-no, find_job-yes,
}
use ldapium.Backup.System.{View, view, Slot, idle, working, orphaned, IsDurable, Inv}
use ldapium.Backup.Saving.{view-persist_jobs, persist_jobs-IsDurable, saved-Inv}

-- The lock a poll looks at decides between the two outcomes of a reconciliation.
pub reconcile_job-held :
    (disk : Disk) (now : ℕ) (i : ℕ) (j : Job) (m : Manager)
    → is_running j ≡ true
    → may_be_alive (evidence disk true j) ≡ true
    → reconcile_job disk now true i j m ≡ (
      hold_orphan
          (kept_orphan (evidence disk true j) j)
          (record m { jobs = set_job i (kept_orphan (evidence disk true j) j) m.jobs }),
      true,
    )
unfolding reconcile_job is_orphan
reconcile_job-held disk now i j m r h = rw (reconcile-alive j (evidence disk true j) now r h) refl

pub is_orphan-no : (d : Decision) → d ≢ orphan_suspected → is_orphan d ≡ false
unfolding is_orphan
is_orphan-no unchanged h = refl
is_orphan-no orphan_suspected h = elim (h refl) [ ]
is_orphan-no settled_result h = refl
is_orphan-no settled_manifest h = refl
is_orphan-no settled_none h = refl
is_orphan-no settled_invalid h = refl

pub reconcile_job-settled :
    (disk : Disk) (now : ℕ) (own : Bool) (i : ℕ) (j : Job) (m : Manager)
    → is_running j ≡ true
    → may_be_alive (evidence disk own j) ≡ false
    → let j' = (settled (evidence disk own j) (finished now j)).0 in
      reconcile_job disk now own i j m
      ≡ (fold_settled now j' (clear_active j' (record m { jobs = set_job i j' m.jobs })), false)
unfolding reconcile_job
reconcile_job-settled disk now own i j m r h =
    let ev = evidence disk own j in
    rw
      (
        reconcile-ended j ev now r h,
        is_orphan-no (settled ev (finished now j)).1 (settled-not_orphan ev (finished now j)),
      )
      refl

-- The view of a manager after a settlement: only the run of the settled job is over.
pub view-fold_settled : (now : ℕ) (j : Job) (m : Manager) → view (fold_settled now j m) ≡ view m
unfolding fold_settled set_state view
view-fold_settled now j m = refl

pub view-clear_active :
    (j : Job) (m : Manager)
    → m.active_job_id ≡ j.job_id
    → view (clear_active j m) ≡ record { running = false; jobs = m.jobs; active_job_id = [] }
unfolding clear_active view
view-clear_active j m h = rw (h, beq_refl j.job_id) refl

reason_at-set_job :
    (p : Job → Bool) (jobs : List Job) (i : ℕ) (j j' : Job)
    → find_job p jobs ≡ some (i, j)
    → reason_at i (set_job i j' jobs) ≡ j'.orphan_reason
unfolding reason_at set_job find_job
reason_at-set_job p [] i j j' f = cc
reason_at-set_job p (k ∷ jobs) i j j' f = elim (Bool-cases (p k)) [
  | inl e ↦ rw (find_job-yes p k jobs i j e f).0 refl
  | inr e ↦
      let (n, at, below) = find_job-no p k jobs i j e f in
      rw at (reason_at-set_job p jobs n j j' below)
]

kept_orphan-same :
    (ev : Evidence) (j : Job)
    → j.orphan_suspected ≡ true
    → (kept_orphan ev j).orphan_reason ≡ j.orphan_reason
    → kept_orphan ev j ≡ j
unfolding kept_orphan
kept_orphan-same ev j o h =
    ap (λ (r : String). record j { orphan_suspected = true; orphan_reason = r }) h
    ∙ ap (λ (b : Bool). record j { orphan_suspected = b }) (sym o)

set_delay-Inv : (delay : ℕ) (m : Manager) (ws : List Worker) → Inv m ws → Inv (set_delay delay m) ws
unfolding set_delay view
set_delay-Inv delay m ws v = record { slot = v.slot; durable = v.durable }

save_held-Inv :
    (ok : Bool) (i : ℕ) (reason : String) (m : Manager)
    → Slot (view m) []
    → ((reason_at i m.jobs == reason) ≡ true → IsDurable m)
    → Inv (save_held ok i reason m) []
unfolding save_held
save_held-Inv ok i reason m s d =
    if-both (λ (r : Manager). Inv r []) (reason_at i m.jobs == reason) m (persist_jobs ok m)
      (λ e. record { slot = s; durable = d e })
      (λ _. record {
        slot = subst (λ (x : View). Slot x []) (sym (view-persist_jobs ok m)) s;
        durable = persist_jobs-IsDurable ok m;
      })

pub view-set_delay : (delay : ℕ) (m : Manager) → view (set_delay delay m) ≡ view m
unfolding set_delay view
view-set_delay delay m = refl

-- The orphan that a poll looks at.
pub record IsOrphaned (m : Manager) (i : ℕ) (j : Job) : Type 0 where
  pub found : find_job (is_active_orphan m.active_job_id) m.jobs ≡ some (i, j)
  pub only : retain is_running m.jobs ≡ j ∷ []
  pub suspected : j.orphan_suspected ≡ true
  pub is_active : j.job_id ≡ m.active_job_id
  pub runs : is_running j ≡ true

held-Inv :
    (ok : Bool) (ev : Evidence) (i : ℕ) (j : Job) (m : Manager)
    → Inv m []
    → IsOrphaned m i j
    → let k = kept_orphan ev j in
      Inv
        (save_held ok i j.orphan_reason (hold_orphan k (record m { jobs = set_job i k m.jobs })))
        []
unfolding hold_orphan set_state view kept_orphan
held-Inv ok ev i j m v o =
    let k = kept_orphan ev j in
    let p = is_active_orphan m.active_job_id in
    let was : p j ≡ true = find_job-passes p m.jobs i j o.found in
    let here : p k ≡ true = ground (arith, was) in
    let unchanged_jobs : k.orphan_reason ≡ j.orphan_reason → set_job i k m.jobs ≡ m.jobs = λ e.
      ap (λ (x : Job). set_job i x m.jobs) (kept_orphan-same ev j o.suspected e)
      ∙ set_job-found p m.jobs i j o.found in
    save_held-Inv ok i j.orphan_reason _
      (orphaned k i refl
        (retain-set_job p is_running m.jobs i j k j o.found o.runs o.only ∙ rw o.runs refl) refl
        (subst (λ (x : Bytes). find_job (is_active_orphan x) (set_job i k m.jobs) ≡ some (i, k))
          (sym o.is_active) (find_job-set_job p m.jobs i j k o.found here))
        refl)
      (λ e d.
        v.durable d
        ∙ sym (
            unchanged_jobs (
              sym (reason_at-set_job p m.jobs i j k o.found)
              ∙ (text_eq.decides _ j.orphan_reason).0 e)))

released-Inv :
    (disk : Disk) (now : ℕ) (writes : Writes) (ev : Evidence) (i : ℕ) (j : Job) (m : Manager)
    → IsOrphaned m i j
    → let k = (settled ev (finished now j)).0 in
      let m' = fold_settled now k (clear_active k (record m { jobs = set_job i k m.jobs })) in
      Inv
        (persist_state writes.state_ok (persist_jobs writes.jobs_ok (prune now (set_delay 0 m'))))
        []
released-Inv disk now writes ev i j m o =
    let k = (settled ev (finished now j)).0 in
    let p = is_active_orphan m.active_job_id in
    let done = settled-IsSettled ev (finished now j) in
    let base : Manager = record m { jobs = set_job i k m.jobs } in
    let cleared = clear_active k base in
    let m' = fold_settled now k cleared in
    let v : view (set_delay 0 m')
        ≡ record { running = false; jobs = base.jobs; active_job_id = [] } =
      view-set_delay 0 m'
      ∙ view-fold_settled now k cleared
      ∙ view-clear_active k base (sym (done.same_id ∙ finished-id now j ∙ o.is_active)) in
    saved-Inv now writes (set_delay 0 m') [] (
      subst (λ (x : View). Slot x []) (sym v)
        (idle refl
          (retain-set_job p is_running m.jobs i j k j o.found o.runs o.only
            ∙ rw done.not_running refl)
          refl))

orphan-only :
    (v : View) (ws : List Worker) (i : ℕ) (j : Job)
    → Slot v ws
    → find_job (is_active_orphan v.active_job_id) v.jobs ≡ some (i, j)
    → is_running j ≡ true
    → j.orphan_suspected ≡ true
    → (retain is_running v.jobs ≡ j ∷ []) × (ws ≡ [])
orphan-only v ws i j (idle off r w) f runs s =
    elim (found-retained (is_active_orphan v.active_job_id) is_running v.jobs i j f runs r) [ ]
orphan-only v ws i j (working k n w on r p g a e) f runs s =
    let same : j ≡ k =
      found-only (is_active_orphan v.active_job_id) is_running v.jobs i j k f runs r in
    let absurd : ⊥ = ground (arith, same, s, p) in elim absurd [ ]
orphan-only v ws i j (orphaned k n on r p g e) f runs s =
    let same : j ≡ k =
      found-only (is_active_orphan v.active_job_id) is_running v.jobs i j k f runs r in
    (r ∙ ap (λ (x : Job). x ∷ []) (sym same), e)

-- The slot of a manager with an active orphan.
pub active_orphan-IsOrphaned :
    (m : Manager) (ws : List Worker) (i : ℕ) (j : Job)
    → Slot (view m) ws
    → active_orphan m ≡ some (i, j)
    → IsOrphaned m i j × (ws ≡ [])
unfolding active_orphan view
active_orphan-IsOrphaned m ws i j s f =
    let found : find_job (is_active_orphan m.active_job_id) m.jobs ≡ some (i, j) =
      ground (arith, f) in
    let passes : is_active_orphan m.active_job_id j ≡ true =
      find_job-passes (is_active_orphan m.active_job_id) m.jobs i j found in
    let runs : is_running j ≡ true = ground (arith, passes) in
    let suspected : j.orphan_suspected ≡ true = ground (arith, passes) in
    let named : (j.job_id == m.active_job_id) ≡ true = ground (arith, passes) in
    let (only, gone) = orphan-only (view m) ws i j s found runs suspected in
    (
      record {
        found = found;
        only = only;
        suspected = suspected;
        is_active = (bytes_beq_iff j.job_id m.active_job_id).0 named;
        runs = runs;
      },
      gone,
    )

pub poll-Inv :
    (disk : Disk) (now : ℕ) (writes : Writes) (m : Manager) (ws : List Worker)
    → Inv m ws
    → Inv (orphan_step disk now writes m).0 ws
unfolding orphan_step
poll-Inv disk now writes m ws v = elim (Option-cases (active_orphan m)) [
  | inl e ↦ rw (e, orphan_step) v
  | inr ((i, j), e) ↦
      let (o, gone) = active_orphan-IsOrphaned m ws i j v.slot e in
      let w : Inv m [] = subst (λ (l : List Worker). Inv m l) gone v in
      let ev = evidence disk true j in
      subst (λ (l : List Worker). Inv (orphan_step disk now writes m).0 l) (sym gone)
        (elim (Bool-cases (may_be_alive ev)) [
          | inl h ↦
              rw (e, orphan_step, reconcile_job-held disk now i j m o.runs h)
                (set_delay-Inv _ _ [] (held-Inv writes.jobs_ok ev i j m w o))
          | inr h ↦
              rw (e, orphan_step, reconcile_job-settled disk now true i j m o.runs h)
                (released-Inv disk now writes ev i j m o)
        ])
]
