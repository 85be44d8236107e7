-- ===== src/Backup/SingleFlight/Loop.antt =====
-- The loop of startup over the jobs that were running
-- (ui/backend/internal/backup/manager_jobs.go) ends with a free slot or one orphan.
use ldapium.Prelude.{
  ℕ, suc, ◌+◌, ◌≡◌, refl, ap, sym, ◌∙◌, Bool, true, false, Option, none, some, List, [], ◌∷◌, ◌++◌,
  arith, length, length-append, retain, if-both, Bool-cases, Option-cases, inl, inr,
}
use ldapium.Prelude.Eq.{bytes_eq, text_eq, nat_eq, ◌==◌, beq_refl}
use ldapium.Backup.{Job, is_running}
use ldapium.Backup.Reconcile.{kept_orphan, finished, settled}
use ldapium.Backup.Reconcile.Outcome.{may_be_alive, settled-IsSettled}
use ldapium.Backup.Manager.{
  Disk, Manager, set_state, set_job, find_job, evidence, hold_orphan, clear_active, reconcile_job,
}
use ldapium.Backup.Startup.{is_active_orphan, latest_running, is_place, reconcile_from}
use ldapium.Backup.Places.{find_job-append, retain-append, set_job-append, not_retained-not_found}
use ldapium.Backup.System.{View, view, Slot, idle, orphaned}
use ldapium.Backup.SingleFlight.Settling.{
  reconcile_job-held, reconcile_job-settled, view-fold_settled,
}

-- Jobs of which the loop has settled the first part, and none of it runs.
pub record IsHalfway (m : Manager) (done rest : List Job) (i : ℕ) : Type 0 where
  pub splits : m.jobs ≡ done ++ rest
  pub here : i ≡ length done
  pub settled_so_far : retain is_running done ≡ []
  pub free : m.running ≡ false

pub none_runs : (jobs : List Job) → latest_running jobs ≡ none → retain is_running jobs ≡ []
unfolding latest_running retain
none_runs [] h = refl
none_runs (j ∷ jobs) h = elim (Option-cases (latest_running jobs)) [
  | inl e ↦ ground (arith, e, h, none_runs jobs e)
  | inr (i, e) ↦ let absurd : ⊥ = ground (arith, e, h) in elim absurd [ ]
]

-- Past the newest running job the loop does nothing.
pub reconcile_from-rest :
    (disk : Disk) (now : ℕ) (newest : Option ℕ) (i : ℕ) (jobs : List Job) (m : Manager)
    → retain is_running jobs ≡ []
    → reconcile_from disk now newest i jobs m ≡ m
unfolding reconcile_from retain
reconcile_from-rest disk now newest i [] m h = refl
reconcile_from-rest disk now newest i (j ∷ jobs) m h =
    let not_it : is_running j ≡ false = ground (arith, h) in
    rw not_it (reconcile_from-rest disk now newest (suc i) jobs m (ground (arith, h)))

clear_active-free :
    (j : Job) (m : Manager)
    → m.running ≡ false
    → ((clear_active j m).running ≡ false) × ((clear_active j m).jobs ≡ m.jobs)
unfolding clear_active
clear_active-free j m h =
    if-both (λ (r : Manager). (r.running ≡ false) × (r.jobs ≡ m.jobs)) (m.active_job_id == j.job_id)
      _ _ (λ _. (refl, refl)) (λ _. (h, refl))

append-one : (xs ys : List Job) (k : Job) → (xs ++ k ∷ []) ++ ys ≡ xs ++ (k ∷ ys)
append-one [] ys k = refl
append-one (x ∷ xs) ys k = ap (λ (l : List Job). x ∷ l) (append-one xs ys k)

-- A job that is settled moves to the first part.
settled-IsHalfway :
    (disk : Disk) (now : ℕ) (own : Bool) (m : Manager) (done rest : List Job) (i : ℕ) (j : Job)
    → IsHalfway m done (j ∷ rest) i
    → is_running j ≡ true
    → may_be_alive (evidence disk own j) ≡ false
    → IsHalfway
        (reconcile_job disk now own i j m).0
        (done ++ (settled (evidence disk own j) (finished now j)).0 ∷ [])
        rest
        (suc i)
unfolding view retain
settled-IsHalfway disk now own m done rest i j h r alive =
    let k = (settled (evidence disk own j) (finished now j)).0 in
    let base : Manager = record m { jobs = set_job i k m.jobs } in
    let cleared = clear_active-free k base h.free in
    let ended = settled-IsSettled (evidence disk own j) (finished now j) in
    rw (reconcile_job-settled disk now own i j m r alive) (record {
      splits =
          ap (λ (v : View). v.jobs) (view-fold_settled now k (clear_active k base))
          ∙ cleared.1
          ∙ ap (λ (l : List Job). set_job i k l) h.splits
          ∙ ap (λ (n : ℕ). set_job n k (done ++ j ∷ rest)) h.here
          ∙ set_job-append done rest j k
          ∙ sym (append-one done rest k);
      here = omega (arith, h.here, length-append done (k ∷ []));
      settled_so_far =
          retain-append is_running done (k ∷ []) ∙ rw (h.settled_so_far, ended.not_running) refl;
      free =
          ap (λ (v : View). v.running) (view-fold_settled now k (clear_active k base)) ∙ cleared.0;
    })

-- A job that has ended already.
ended-IsHalfway :
    (m : Manager) (done rest : List Job) (i : ℕ) (j : Job)
    → IsHalfway m done (j ∷ rest) i
    → is_running j ≡ false
    → IsHalfway m (done ++ j ∷ []) rest (suc i)
unfolding retain
ended-IsHalfway m done rest i j h r = record {
  splits = h.splits ∙ sym (append-one done rest j);
  here = omega (arith, h.here, length-append done (j ∷ []));
  settled_so_far = retain-append is_running done (j ∷ []) ∙ rw (h.settled_so_far, r) refl;
  free = h.free;
}

-- The newest running job may own the lock, and no job after it runs.
orphan-Slot :
    (disk : Disk) (now : ℕ) (m : Manager) (done rest : List Job) (i : ℕ) (j : Job)
    → IsHalfway m done (j ∷ rest) i
    → is_running j ≡ true
    → retain is_running rest ≡ []
    → may_be_alive (evidence disk true j) ≡ true
    → Slot (view (reconcile_job disk now true i j m).0) []
unfolding view hold_orphan set_state kept_orphan retain evidence
orphan-Slot disk now m done rest i j h r last alive =
    let k = kept_orphan (evidence disk true j) j in
    let p = is_active_orphan k.job_id in
    let jobs' : set_job i k m.jobs ≡ done ++ k ∷ rest =
      ap (λ (l : List Job). set_job i k l) h.splits
      ∙ ap (λ (n : ℕ). set_job n k (done ++ j ∷ rest)) h.here
      ∙ set_job-append done rest j k in
    let passes : p k ≡ true = ground (arith, r, beq_refl j.job_id) in
    let before : find_job p done ≡ none =
      not_retained-not_found p is_running done (λ x e. ground (arith, e)) h.settled_so_far in
    rw (reconcile_job-held disk now i j m r alive) (
      orphaned k (length done) refl
        (ap (λ (l : List Job). retain is_running l) jobs'
          ∙ retain-append is_running done (k ∷ rest)
          ∙ rw (h.settled_so_far, r, last) refl)
        refl
        (ap (λ (l : List Job). find_job p l) jobs' ∙ find_job-append p done rest k before passes)
        refl)

unfoldable pub after : ℕ → Option ℕ → Option ℕ
after i none = none
after i (some k) = some (i + k)

not_owner-settles : (disk : Disk) (j : Job) → may_be_alive (evidence disk false j) ≡ false
unfolding evidence
not_owner-settles disk j = refl

idle-Slot :
    (m : Manager) (done rest : List Job) (i : ℕ)
    → IsHalfway m done rest i
    → retain is_running rest ≡ []
    → Slot (view m) []
unfolding view
idle-Slot m done rest i h last =
    idle h.free
      (ap (λ (l : List Job). retain is_running l) h.splits
        ∙ retain-append is_running done rest
        ∙ rw (h.settled_so_far, last) refl)
      refl

-- The last job that runs, at its turn in the loop.
newest-Slot :
    (disk : Disk) (now : ℕ) (done rest : List Job) (i : ℕ) (j : Job) (m : Manager)
    → IsHalfway m done (j ∷ rest) i
    → is_running j ≡ true
    → retain is_running rest ≡ []
    → Slot (view (reconcile_job disk now true i j m).0) []
newest-Slot disk now done rest i j m h r last =
    elim (Bool-cases (may_be_alive (evidence disk true j))) [
      | inl alive ↦ orphan-Slot disk now m done rest i j h r last alive
      | inr dead ↦
          idle-Slot _ _ rest (suc i) (settled-IsHalfway disk now true m done rest i j h r dead) last
    ]

reconcile_from-running :
    (disk : Disk) (now : ℕ) (newest : Option ℕ) (i : ℕ) (j : Job) (rest : List Job) (m : Manager)
    (own : Bool)
    → is_running j ≡ true
    → is_place i newest ≡ own
    → reconcile_from disk now newest i (j ∷ rest) m
      ≡ reconcile_from disk now newest (suc i) rest (reconcile_job disk now own i j m).0
unfolding reconcile_from
reconcile_from-running disk now newest i j rest m own r o = rw (r, o) refl

reconcile_from-ended :
    (disk : Disk) (now : ℕ) (newest : Option ℕ) (i : ℕ) (j : Job) (rest : List Job) (m : Manager)
    → is_running j ≡ false
    → reconcile_from disk now newest i (j ∷ rest) m ≡ reconcile_from disk now newest (suc i) rest m
unfolding reconcile_from
reconcile_from-ended disk now newest i j rest m r = rw r refl

-- The place of the newest running job, counted from the place of the first one.
after-last :
    (i : ℕ) (j : Job) (rest : List Job)
    → latest_running rest ≡ none
    → is_running j ≡ true
    → is_place i (after i (latest_running (j ∷ rest))) ≡ true
unfolding latest_running after is_place
after-last i j rest e r = rw (e, r, latest_running) (ground arith)

after-later :
    (i n : ℕ) (j : Job) (rest : List Job)
    → latest_running rest ≡ some n
    → (after i (latest_running (j ∷ rest)) ≡ after (suc i) (latest_running rest))
      × (is_place i (after i (latest_running (j ∷ rest))) ≡ false)
unfolding latest_running after is_place
after-later i n j rest e = rw (e, latest_running) (ap (λ k. some k) (omega arith), ground arith)

pub loop-Slot :
    (disk : Disk) (now : ℕ) (done rest : List Job) (i : ℕ) (m : Manager)
    → IsHalfway m done rest i
    → Slot (view (reconcile_from disk now (after i (latest_running rest)) i rest m)) []
unfolding retain
loop-Slot disk now done [] i m h =
    rw (reconcile_from-rest disk now (after i (latest_running [])) i [] m refl)
      (idle-Slot m done [] i h refl)
loop-Slot disk now done (j ∷ rest) i m h =
    let newest = after i (latest_running (j ∷ rest)) in
    elim (Option-cases (latest_running rest)) [
      | inl e ↦
          let last = none_runs rest e in
          elim (Bool-cases (is_running j)) [
            | inl r ↦
                let m' = (reconcile_job disk now true i j m).0 in
                rw
                  (reconcile_from-running disk now newest i j rest m true r
                      (after-last i j rest e r)
                    ∙ reconcile_from-rest disk now newest (suc i) rest m' last)
                  (newest-Slot disk now done rest i j m h r last)
            | inr r ↦
                rw
                  (reconcile_from-ended disk now newest i j rest m r
                    ∙ reconcile_from-rest disk now newest (suc i) rest m last)
                  (idle-Slot m (done ++ j ∷ []) rest (suc i) (ended-IsHalfway m done rest i j h r)
                    last)
          ]
      | inr (n, e) ↦
          let (next, later) = after-later i n j rest e in
          elim (Bool-cases (is_running j)) [
            | inl r ↦
                let m' = (reconcile_job disk now false i j m).0 in
                rw
                  (reconcile_from-running disk now newest i j rest m false r later
                    ∙ ap (λ (o : Option ℕ). reconcile_from disk now o (suc i) rest m') next)
                  (loop-Slot disk now _ rest (suc i) m' (
                    settled-IsHalfway disk now false m done rest i j h r
                      (not_owner-settles disk j)))
            | inr r ↦
                rw
                  (reconcile_from-ended disk now newest i j rest m r
                    ∙ ap (λ (o : Option ℕ). reconcile_from disk now o (suc i) rest m) next)
                  (loop-Slot disk now (done ++ j ∷ []) rest (suc i) m
                    (ended-IsHalfway m done rest i j h r))
          ]
    ]
