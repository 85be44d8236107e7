-- ===== src/Backup/SingleFlight/Starting.antt =====
-- Starting and cancelling a job, saving policies and ticks keep the invariant
-- (ui/backend/internal/backup/manager_jobs.go, manager.go).
use ldapium.Prelude.{
  ℕ, zero, suc, ◌≡◌, refl, ap, sym, ◌∙◌, subst, Bool, true, false, ◌||◌, ◌&&◌, not, Option, none,
  some, List, [], ◌∷◌, arith, length, retain, Bool-cases, if-both, String, Option-cases, inl, inr,
}
use ldapium.Prelude.Bytes.{Bytes}
use ldapium.Prelude.Eq.{bytes_eq, text_eq, nat_eq, ◌==◌, beq_refl, bytes_beq_iff}
use ldapium.Backup.{
  job_status_cancelled, Job, Policies, is_running, is_valid_job_id, generate_from, generate,
  max_retries,
}
use ldapium.Backup.Records.{has_id}
use ldapium.Backup.Retention.{ids}
use ldapium.Backup.Manager.{
  Disk, Manager, commit_jobs, persist_jobs, set_state, set_job, fixed_kind,
}
use ldapium.Backup.Start.{
  RunRequest, Moment, Worker, Started, new_job, is_held, launch, start_new, idempotent_hit,
  start_job,
}
use ldapium.Backup.Cancelling.{Cancel, request_cancel, cancel_job, by_id}
use ldapium.Backup.Startup.{retry_save, tick}
use ldapium.Backup.Settings.{Saving, validate, adopt, save_policies}
use ldapium.Backup.Places.{
  find_job-append, fresh-not_found, retain-append, found-retained, found-only, find_job-passes,
  retain-set_job, find_job-set_job,
}
use ldapium.Backup.System.{View, view, with_worker, Slot, idle, working, orphaned, Inv}
use ldapium.Backup.Saving.{view-persist_jobs, persist_jobs-IsDurable}

generate_from-fresh :
    (n : ℕ) (exists : Bytes → Bool) (attempts : List (Bytes × Option Bytes)) (id : Bytes)
    → generate_from n exists attempts ≡ some id
    → exists id ≡ false
unfolding generate_from
generate_from-fresh zero exists attempts id h = cc
generate_from-fresh (suc n) exists [] id h = cc
generate_from-fresh (suc n) exists ((time, none) ∷ rest) id h = cc
generate_from-fresh (suc n) exists ((time, some random) ∷ rest) id h =
    ground (arith, h, generate_from-fresh n exists rest id)

-- The slot is free when no job runs.
not_running-idle :
    (v : View) (ws : List Worker)
    → Slot v ws
    → v.running ≡ false
    → (retain is_running v.jobs ≡ []) × (ws ≡ [])
not_running-idle v ws (idle off r w) h = (r, w)
not_running-idle v ws (working j i w on r o f a e) h = ground (arith, on, h)
not_running-idle v ws (orphaned j i on r o f e) h = ground (arith, on, h)

launch-Inv :
    (disk : Disk) (req : RunRequest) (at : Moment) (id : Bytes) (m : Manager)
    → Inv m []
    → retain is_running m.jobs ≡ []
    → has_id id (ids m.jobs) ≡ false
    → let r = launch disk req at (new_job m req at.now id) m in Inv r.0 (with_worker r.2 [])
unfolding launch commit_jobs set_state view new_job
launch-Inv disk req at id m v r fresh = elim (Bool-cases at.jobs_ok) [
  | inr e ↦ rw e v
  | inl e ↦
      let j = new_job m req at.now id in
      rw e (record {
        slot =
            working j (length m.jobs) _ refl
              (retain-append is_running m.jobs (j ∷ []) ∙ ground (arith, r)) refl
              (find_job-append (λ (k : Job). k.job_id == id) m.jobs [] j
                (fresh-not_found id m.jobs fresh) (beq_refl id))
              refl refl;
        durable = λ d. refl;
      })
]

start_new-Inv :
    (disk : Disk) (req : RunRequest) (at : Moment) (m : Manager) (ws : List Worker)
    → Inv m ws
    → let r = start_new disk req at m in Inv r.0 (with_worker r.2 ws)
unfolding start_new generate view
start_new-Inv disk req at m ws v = elim (Bool-cases (m.running || is_held disk)) [
  | inl e ↦ rw e v
  | inr e ↦ elim (Bool-cases (req.kind == "logs" && not m.logs_available)) [
    | inl f ↦ rw (e, f) v
    | inr f ↦
        elim (Option-cases (generate_from max_retries (λ id. has_id id (ids m.jobs)) at.attempts)) [
          | inl g ↦ rw (e, f, g) v
          | inr (id, g) ↦
              let off : m.running ≡ false = ground (arith, e) in
              let (r, no_workers) = not_running-idle (view m) ws v.slot off in
              rw (e, f, g, no_workers)
                (launch-Inv disk req at id m (subst (λ (l : List Worker). Inv m l) no_workers v) r
                  (generate_from-fresh max_retries (λ x. has_id x (ids m.jobs)) at.attempts id g))
        ]
  ]
]

pub start_job-Inv :
    (decode : Bytes → Option Bytes) (disk : Disk) (req : RunRequest) (at : Moment) (m : Manager)
    (ws : List Worker)
    → Inv m ws
    → let r = start_job decode disk req at m in Inv r.0 (with_worker r.2 ws)
unfolding start_job
start_job-Inv decode disk req at m ws v =
    if-both (λ (r : Started). Inv r.0 (with_worker r.2 ws)) (fixed_kind req.kind) _ _
      (λ _. elim (Option-cases (idempotent_hit decode disk req m)) [
        | inr (hit, f) ↦ rw f v
        | inl f ↦ rw f (start_new-Inv disk req at m ws v)
      ])
      (λ _. v)

retry_save-Inv : (ok : Bool) (m : Manager) (ws : List Worker) → Inv m ws → Inv (retry_save ok m) ws
unfolding retry_save
retry_save-Inv ok m ws v =
    if-both (λ (r : Manager). Inv r ws) m.job_dirty (persist_jobs ok m) m
      (λ _. record {
        slot = subst (λ (x : View). Slot x ws) (sym (view-persist_jobs ok m)) v.slot;
        durable = persist_jobs-IsDurable ok m;
      })
      (λ _. v)

pub tick-Inv :
    (now : ℕ) (ok : Bool) (m : Manager) (ws : List Worker) → Inv m ws → Inv (tick now ok m).0 ws
unfolding tick
tick-Inv now ok m ws v =
    if-both (λ (r : Manager × String). Inv r.0 ws) m.running _ _ (λ _. v)
      (λ _. retry_save-Inv ok m ws v)

adopt-Inv :
    (now : ℕ) (ok : Bool) (p : Policies) (expected : ℕ) (m : Manager) (ws : List Worker)
    → Inv m ws
    → Inv (adopt now ok p expected m).0 ws
unfolding adopt view
adopt-Inv now true p expected m ws v = record { slot = v.slot; durable = v.durable }
adopt-Inv now false p expected m ws v = v

pub save_policies-Inv :
    (registered : List Bytes) (now : ℕ) (ok : Bool) (p : Policies) (expected : ℕ) (m : Manager)
    (ws : List Worker)
    → Inv m ws
    → Inv (save_policies registered now ok p expected m).0 ws
unfolding save_policies
save_policies-Inv registered now ok p expected m ws v =
    let P : Manager × Saving → Type 0 = λ r. Inv r.0 ws in
    elim (Option-cases (validate p.data_policy registered)) [
      | inr (a, e) ↦ rw (e, save_policies) v
      | inl e ↦ elim (Option-cases (validate p.logs_policy registered)) [
        | inr (b, f) ↦ rw (e, f, save_policies) v
        | inl f ↦
            rw (e, f, save_policies)
              (if-both P (p.logs_policy.enabled && not m.logs_available) _ _ (λ _. v)
                (λ _.
                  if-both P (not (m.policies.revision == expected)) _ _ (λ _. v)
                    (λ _.
                      if-both P m.running _ _ (λ _. v) (λ _. adopt-Inv now ok p expected m ws v))))
      ]
    ]

-- The running job that a cancellation found stays the one of its slot.
cancelled-Slot :
    (v : View) (ws : List Worker) (id : Bytes) (i : ℕ) (j j' : Job)
    → Slot v ws
    → by_id id v.jobs ≡ some (i, j)
    → is_running j ≡ true
    → j.orphan_suspected ≡ false
    → is_running j' ≡ true
    → j'.orphan_suspected ≡ false
    → j'.job_id ≡ j.job_id
    → Slot (record v { jobs = set_job i j' v.jobs }) ws
cancelled-Slot v ws id i j j' (idle off r w) f run o run' o' same =
    elim (found-retained (λ k. k.job_id == id) is_running v.jobs i j f run r) [ ]
cancelled-Slot v ws id i j j' (orphaned k n on r p g e) f run o run' o' same =
    let only : j ≡ k = found-only (λ x. x.job_id == id) is_running v.jobs i j k f run r in
    let absurd : ⊥ = ground (arith, only, o, p) in elim absurd [ ]
cancelled-Slot v ws id i j j' (working k n w on r p g a e) f run o run' o' same =
    let only : j ≡ k = found-only (λ x. x.job_id == id) is_running v.jobs i j k f run r in
    let mine : (j.job_id == id) ≡ true = find_job-passes (λ x. x.job_id == id) v.jobs i j f in
    let its : (k.job_id == w.job_id) ≡ true =
      find_job-passes (λ x. x.job_id == w.job_id) v.jobs n k g in
    let one : id ≡ w.job_id =
      sym ((bytes_beq_iff j.job_id id).0 mine)
      ∙ ap (λ (x : Job). x.job_id) only
      ∙ (bytes_beq_iff k.job_id w.job_id).0 its in
    let here : (j'.job_id == id) ≡ true = rw same mine in
    working j' i w on
      (retain-set_job (λ x. x.job_id == id) is_running v.jobs i j j' k f run r ∙ rw run' refl) o'
      (subst (λ (x : Bytes). by_id x (set_job i j' v.jobs) ≡ some (i, j')) one
        (find_job-set_job (λ x. x.job_id == id) v.jobs i j j' f here))
      a e

request_cancel-Inv :
    (now : ℕ) (ok : Bool) (disk : Disk) (id : Bytes) (i : ℕ) (j : Job) (m : Manager)
    (ws : List Worker)
    → Inv m ws
    → by_id id m.jobs ≡ some (i, j)
    → is_running j ≡ true
    → j.orphan_suspected ≡ false
    → Inv (request_cancel now ok disk i j m).0 ws
unfolding request_cancel view
request_cancel-Inv now ok disk id i j m ws v f run o =
    if-both (λ (r : Manager × Cancel). Inv r.0 ws) ok _ _
      (λ _. record {
        slot =
            cancelled-Slot (view m) ws id i j (record j { cancel_requested_at = now }) v.slot f run
              o run o refl;
        durable = λ d. refl;
      })
      (λ _. v)

pub cancel_job-Inv :
    (id : Bytes) (now : ℕ) (ok : Bool) (disk : Disk) (m : Manager) (ws : List Worker)
    → Inv m ws
    → Inv (cancel_job id now ok disk m).0 ws
unfolding cancel_job
cancel_job-Inv id now ok disk m ws v =
    let P : Manager × Cancel → Type 0 = λ r. Inv r.0 ws in
    if-both P (is_valid_job_id id) _ _
      (λ _. elim (Option-cases (by_id id m.jobs)) [
        | inl f ↦ rw f v
        | inr ((i, j), f) ↦ rw f (
            if-both P (j.status == job_status_cancelled) _ _ (λ _. v)
              (λ _.
                if-both P (not (is_running j) || j.orphan_suspected) _ _ (λ _. v)
                  (λ h.
                    request_cancel-Inv now ok disk id i j m ws v f (ground (arith, h))
                      (ground (arith, h)))))
      ])
      (λ _. v)
