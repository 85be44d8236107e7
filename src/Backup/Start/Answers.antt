-- ===== src/Backup/Start/Answers.antt =====
-- What the answer of a start says of the manager (ui/backend/internal/backup/manager_jobs.go).
use ldapium.Prelude.{
  ℕ, ◌≡◌, ◌≢◌, refl, ap, sym, ◌∙◌, ◌⊎◌, inl, inr, true, false, ◌&&◌, ◌||◌, not, Option, none, some,
  List, [], ◌∷◌, ◌++◌, arith, length, if-both, Bool-cases, Option-cases,
}
use ldapium.Prelude.Bytes.{Bytes}
use ldapium.Prelude.Eq.{bytes_eq, text_eq, nat_eq, ◌==◌, beq_refl}
use ldapium.Backup.{Job, generate, JobIdempotency}
use ldapium.Backup.Records.{has_id}
use ldapium.Backup.Retention.{ids}
use ldapium.Backup.Manager.{Disk, Manager, commit_jobs, set_state, find_job, fixed_kind}
use ldapium.Backup.Start.{
  RequestIdempotency, RunRequest, Worker, Start, started, same_key, present, holds_key,
  is_scheduled, Moment, kept_key, new_job, is_held, launch, start_new, idempotent_hit, start_job,
  Started, verdict_of,
}
use ldapium.Backup.Places.{find_job-append, find_job-passes}

-- A start that was made: its running record is the last of the jobs and on disk, it is the active
-- job, and a worker is out for it.
pub record IsStarted (disk : Disk) (req : RunRequest) (at : Moment) (m : Manager) (r : Started)
    : Type 0 where
  pub id : Bytes
  pub recorded : r.0.jobs ≡ m.jobs ++ new_job m req at.now id ∷ []
  pub on_disk : r.0.job_file ≡ r.0.jobs
  pub active : r.0.active_job_id ≡ id
  pub busy_now : r.0.running ≡ true
  pub was_free : m.running ≡ false
  pub answer : r.1 ≡ started (present disk (new_job m req at.now id))
  pub worker : (w : Worker) × (r.2 ≡ some w) × (w.job_id ≡ id)

-- A start that was refused.
abbrev pub IsRefused : Manager → Started → Type 0
IsRefused m r = (r.0 ≡ m) × (r.2 ≡ none) × ((j : Job) → r.1 ≢ started j)

abbrev pub Outcome : Disk → RunRequest → Moment → Manager → Started → Type 0
Outcome disk req at m r = IsStarted disk req at m r ⊎ IsRefused m r

launch-Outcome :
    (disk : Disk) (req : RunRequest) (at : Moment) (id : Bytes) (m : Manager)
    → m.running ≡ false
    → Outcome disk req at m (launch disk req at (new_job m req at.now id) m)
unfolding launch commit_jobs set_state new_job
launch-Outcome disk req at id m off = elim (Bool-cases at.jobs_ok) [
  | inr e ↦ rw e (inr (refl, refl, (λ j h. cc)))
  | inl e ↦ rw e (
      inl (record {
        id = id;
        recorded = refl;
        on_disk = refl;
        active = refl;
        busy_now = refl;
        was_free = off;
        answer = refl;
        worker = (_, refl, refl);
      }))
]

start_new-Outcome :
    (disk : Disk) (req : RunRequest) (at : Moment) (m : Manager)
    → Outcome disk req at m (start_new disk req at m)
unfolding start_new
start_new-Outcome disk req at m =
    let P = Outcome disk req at m in
    if-both P (m.running || is_held disk) _ _ (λ _. inr (refl, refl, (λ j h. cc)))
      (λ e.
        if-both P (req.kind == "logs" && not m.logs_available) _ _
          (λ _. inr (refl, refl, (λ j h. cc)))
          (λ _. elim (Option-cases (generate (λ id. has_id id (ids m.jobs)) at.attempts)) [
            | inl g ↦ rw g (inr (refl, refl, (λ j h. cc)))
            | inr (id, g) ↦ rw g (launch-Outcome disk req at id m (ground (arith, e)))
          ]))

-- The durable record of a key, and the job of an answer.
abbrev pub kept : RequestIdempotency → JobIdempotency
kept k = record { key_hash = k.key_hash; fingerprint = k.fingerprint; key_id = k.key_id }

started_id : Start → Bytes
started_id (started j) = j.job_id
started_id _ = []

module _ (decode : Bytes → Option Bytes) where
  hit-not_started :
      (disk : Disk) (req : RunRequest) (m : Manager) (s : Start)
      → idempotent_hit decode disk req m ≡ some s
      → (j : Job) → s ≢ started j
  unfolding idempotent_hit
  hit-not_started disk req m s h j e = ground (arith, h, e)

  -- Every answer of a start: either the slot was free, the running record is in the jobs and in
  -- the job file, it is the active job and a worker is out for it; or the answer is not that a job
  -- was started, the manager is as it was, and no worker is out. A failed write is one of these.
  pub start_job_lem :
      (disk : Disk) (req : RunRequest) (at : Moment) (m : Manager)
      → Outcome disk req at m (start_job decode disk req at m)
  unfolding start_job
  start_job_lem disk req at m =
      let P = Outcome disk req at m in
      if-both P (fixed_kind req.kind) _ _
        (λ _. elim (Option-cases (idempotent_hit decode disk req m)) [
          | inr (hit, f) ↦ rw f (inr (refl, refl, hit-not_started disk req m hit f))
          | inl f ↦ rw f (start_new-Outcome disk req at m)
        ])
        (λ _. inr (refl, refl, (λ j h. cc)))

  hit-answered :
      (disk : Disk) (req : RunRequest) (at : Moment) (m : Manager) (hit : Start)
      → fixed_kind req.kind ≡ true
      → idempotent_hit decode disk req m ≡ some hit
      → start_job decode disk req at m ≡ (m, hit, none)
  unfolding start_job
  hit-answered disk req at m hit e f = rw (e, f) refl

  started-known_kind :
      (disk : Disk) (req : RunRequest) (at : Moment) (m : Manager) (j : Job)
      → (start_job decode disk req at m).1 ≡ started j
      → fixed_kind req.kind ≡ true
  unfolding start_job
  started-known_kind disk req at m j h = elim (Bool-cases (fixed_kind req.kind)) [
    | inl e ↦ e
    | inr e ↦ let absurd : ⊥ = ground (arith, e, h) in elim absurd [ ]
  ]

  started-no_hit :
      (disk : Disk) (req : RunRequest) (at : Moment) (m : Manager) (j : Job)
      → (start_job decode disk req at m).1 ≡ started j
      → idempotent_hit decode disk req m ≡ none
  started-no_hit disk req at m j h = elim (Option-cases (idempotent_hit decode disk req m)) [
    | inl f ↦ f
    | inr (hit, f) ↦
        let is = hit-answered disk req at m hit (started-known_kind disk req at m j h) f in
        elim (hit-not_started disk req m hit f j (sym (ap (λ (r : Started). r.1) is) ∙ h)) [ ]
  ]

  hit-found :
      (disk : Disk) (req : RunRequest) (m : Manager) (k : RequestIdempotency) (i : ℕ) (j : Job)
      (s : JobIdempotency)
      → req.idempotency ≡ some k
      → k.key_hash ≢ []
      → find_job (holds_key k.key_hash) m.jobs ≡ some (i, j)
      → j.idempotency ≡ some s
      → idempotent_hit decode disk req m ≡ some (same_key (present disk j) (verdict_of decode k s))
  unfolding idempotent_hit
  hit-found disk req m k i j s e named f g =
      let has_name : (k.key_hash == []) ≡ false =
        ground (arith, named, bytes_eq.decides k.key_hash []) in
      rw (e, idempotent_hit, has_name, f, g) refl

  no_hit-not_found :
      (disk : Disk) (req : RunRequest) (m : Manager) (k : RequestIdempotency)
      → req.idempotency ≡ some k
      → k.key_hash ≢ []
      → idempotent_hit decode disk req m ≡ none
      → find_job (holds_key k.key_hash) m.jobs ≡ none
  unfolding holds_key
  no_hit-not_found disk req m k e named h =
      elim (Option-cases (find_job (holds_key k.key_hash) m.jobs)) [
        | inl f ↦ f
        | inr ((i, j), f) ↦
            let holds : holds_key k.key_hash j ≡ true =
              find_job-passes (holds_key k.key_hash) m.jobs i j f in
            elim (Option-cases j.idempotency) [
              | inl g ↦ let absurd : ⊥ = ground (arith, g, holds) in elim absurd [ ]
              | inr (s, g) ↦
                  let absurd : ⊥ = ground (arith, h, hit-found disk req m k i j s e named f g) in
                  elim absurd [ ]
            ]
      ]

  -- The record that a keyed manual start leaves is found by its key.
  new_job-holds :
      (m : Manager) (req : RunRequest) (now : ℕ) (id : Bytes) (k : RequestIdempotency)
      → req.idempotency ≡ some k
      → is_scheduled req ≡ false
      → (kept_key req ≡ some (kept k)) × (holds_key k.key_hash (new_job m req now id) ≡ true)
  unfolding kept_key holds_key new_job
  new_job-holds m req now id k e manual =
      let kept_is : kept_key req ≡ some (kept k) = rw (e, kept_key, manual) refl in
      (kept_is, rw (e, kept_key, manual) (beq_refl k.key_hash))

  -- In the state that a manual start with a key of a non-empty hash leaves, where its job runs, a
  -- start of any known kind with the same key starts no second job, whatever its other fields: it is
  -- answered with the job of the first start, and the verdict that its own fingerprint gives, and
  -- nothing changes.
  pub retry_lem :
      (disk disk' : Disk) (req req' : RunRequest) (at at' : Moment) (m : Manager) (j : Job)
      (k k' : RequestIdempotency)
      → (start_job decode disk req at m).1 ≡ started j
      → req.idempotency ≡ some k
      → req'.idempotency ≡ some k'
      → k'.key_hash ≡ k.key_hash
      → k.key_hash ≢ []
      → is_scheduled req ≡ false
      → fixed_kind req'.kind ≡ true
      → let m' = (start_job decode disk req at m).0 in
        (job : Job) × (job.job_id ≡ j.job_id)
        × (start_job decode disk' req' at' m'
            ≡ (m', same_key (present disk' job) (verdict_of decode k' (kept k)), none))
  unfolding present new_job started_id
  retry_lem disk disk' req req' at at' m j k k' h e e' same named manual known =
      elim (start_job_lem disk req at m) [
        | inr refused ↦ elim (refused.2 j h) [ ]
        | inl s ↦
            let job = new_job m req at.now s.id in
            let m' = (start_job decode disk req at m).0 in
            let none_before =
              no_hit-not_found disk req m k e named (started-no_hit disk req at m j h) in
            let (kept_is, holds) = new_job-holds m req at.now s.id k e manual in
            let found : find_job (holds_key k.key_hash) m'.jobs ≡ some (length m.jobs, job) =
              ap (λ (l : List Job). find_job (holds_key k.key_hash) l) s.recorded
              ∙ find_job-append (holds_key k.key_hash) m.jobs [] job none_before holds in
            let found' : find_job (holds_key k'.key_hash) m'.jobs ≡ some (length m.jobs, job) =
              ap (λ (x : Bytes). find_job (holds_key x) m'.jobs) same ∙ found in
            (
              job,
              ap (λ (r : Start). started_id r) (sym s.answer ∙ h),
              hit-answered disk' req' at' m' _ known (
                  hit-found disk' req' m' k' (length m.jobs) job (kept k) e'
                    (λ z. named (sym same ∙ z)) found' kept_is),
            )
      ]
