-- ===== src/Backup/Reconcile/Outcome.antt =====
-- What a reconciliation decides (ui/backend/internal/backup/jobs_reconcile.go).
use ldapium.Prelude.{
  ℕ, ◌≡◌, refl, sym, ◌∙◌, ◌≢◌, ◌↔◌, ◌⊎◌, inl, inr, Bool, true, false, ◌||◌, not, Option, none, some,
  [], arith, Bool-cases, Option-cases, String,
}
use ldapium.Prelude.Eq.{bytes_eq, text_eq, ◌==◌}
use ldapium.Backup.{
  job_status_running, job_status_succeeded, job_status_failed, job_status_abandoned, Job,
  is_running, is_terminal, valid_transition,
}
use ldapium.Backup.Reconcile.{
  WorkerResult, ArtifactManifest, orphan_suspected, Evidence, trusted_result, settled_by_result,
  abandoned, abandoned_decision, kept_orphan, finished, settled, reconcile_evidence,
}

-- A settled job: it has ended, and it is still the same job.
pub record IsSettled (j j' : Job) : Type 0 where
  pub ended : is_terminal j'.status ≡ true
  pub not_running : is_running j' ≡ false
  pub same_id : j'.job_id ≡ j.job_id
  pub same_kind : j'.kind ≡ j.kind

settled_by_result-IsSettled :
    (r : WorkerResult) (manifest : Option ArtifactManifest) (j : Job)
    → IsSettled j (settled_by_result r manifest j)
unfolding settled_by_result is_terminal
settled_by_result-IsSettled r manifest j = elim (Bool-cases r.verified) [
  | inl e ↦ record { ended = rw e refl; not_running = rw e refl; same_id = refl; same_kind = refl }
  | inr e ↦ record { ended = rw e refl; not_running = rw e refl; same_id = refl; same_kind = refl }
]

abandoned-IsSettled :
    (code : String) (manifest : Option ArtifactManifest) (j : Job)
    → IsSettled j (abandoned code manifest j)
unfolding abandoned is_terminal
abandoned-IsSettled code none j = record {
  ended = refl;
  not_running = refl;
  same_id = refl;
  same_kind = refl;
}
abandoned-IsSettled code (some m) j = record {
  ended = refl;
  not_running = refl;
  same_id = refl;
  same_kind = refl;
}

abandoned-not_orphan :
    (invalid : Bool) (manifest : Option ArtifactManifest)
    → abandoned_decision invalid manifest ≢ orphan_suspected
unfolding abandoned_decision
abandoned-not_orphan true manifest h = cc
abandoned-not_orphan false none h = cc
abandoned-not_orphan false (some m) h = cc

pub settled-IsSettled : (ev : Evidence) (j : Job) → IsSettled j (settled ev j).0
unfolding settled
settled-IsSettled ev j = elim (Option-cases (trusted_result ev).0) [
  | inl e ↦ rw (e, settled) (abandoned-IsSettled _ ev.manifest j)
  | inr (r, e) ↦ rw (e, settled) (settled_by_result-IsSettled r ev.manifest j)
]

pub settled-not_orphan : (ev : Evidence) (j : Job) → (settled ev j).1 ≢ orphan_suspected
unfolding settled
settled-not_orphan ev j = elim (Option-cases (trusted_result ev).0) [
  | inl e ↦ rw (e, settled) (abandoned-not_orphan (trusted_result ev).1 ev.manifest)
  | inr (r, e) ↦ rw (e, settled) (λ h. cc)
]

-- The lock is held, or unknown.
abbrev pub may_be_alive : Evidence → Bool
may_be_alive ev = ev.lock_held || ev.probe_error

pub reconcile-alive :
    (j : Job) (ev : Evidence) (now : ℕ)
    → is_running j ≡ true
    → may_be_alive ev ≡ true
    → reconcile_evidence j ev now ≡ (kept_orphan ev j, orphan_suspected)
unfolding reconcile_evidence
reconcile-alive j ev now r h = rw (r, h) refl

pub reconcile-ended :
    (j : Job) (ev : Evidence) (now : ℕ)
    → is_running j ≡ true
    → may_be_alive ev ≡ false
    → reconcile_evidence j ev now ≡ settled ev (finished now j)
unfolding reconcile_evidence
reconcile-ended j ev now r h = rw (r, h) refl

-- A result that the manifest does not contradict.
abbrev pub Vouched : Evidence → WorkerResult → Type 0
Vouched ev r =
    (ev.result ≡ some r)
    × (r.verified ≡ true)
    × ((m : ArtifactManifest) → ev.manifest ≡ some m → (r.run_id ≡ []) ⊎ (r.run_id ≡ m.run_id))

trusted_result-some :
    (ev : Evidence) (r : WorkerResult)
    → (trusted_result ev).0 ≡ some r
    → (ev.result ≡ some r)
      × ((m : ArtifactManifest) → ev.manifest ≡ some m → (r.run_id ≡ []) ⊎ (r.run_id ≡ m.run_id))
unfolding trusted_result
trusted_result-some ev r h = elim (Option-cases ev.result) [
  | inl e ↦ let absurd : ⊥ = ground (arith, e, h) in elim absurd [ ]
  | inr (x, e) ↦ elim (Option-cases ev.manifest) [
    | inl f ↦ (ground (arith, e, f, h), (λ m g. cc))
    | inr (n, f) ↦ (
      ground (arith, e, f, h),
      (λ m g.
          ground
            (arith, e, f, g, h, bytes_eq.decides x.run_id [], bytes_eq.decides x.run_id n.run_id)),
    )
  ]
]

trusted_result-Vouched :
    (ev : Evidence) (r : WorkerResult) → Vouched ev r → (trusted_result ev).0 ≡ some r
unfolding trusted_result
trusted_result-Vouched ev r v = elim (Option-cases ev.manifest) [
  | inl f ↦ ground (arith, v.0, f)
  | inr (n, f) ↦
      ground
        (arith, v.0, f, v.2 n f, bytes_eq.decides r.run_id [], bytes_eq.decides r.run_id n.run_id)
]

status-settled_by_result :
    (r : WorkerResult) (manifest : Option ArtifactManifest) (j : Job)
    → ((settled_by_result r manifest j).status ≡ job_status_succeeded) ↔ (r.verified ≡ true)
unfolding settled_by_result
status-settled_by_result r manifest j = elim (Bool-cases r.verified) [
  | inl e ↦ rw (e, settled_by_result) ((λ h. refl), (λ h. refl))
  | inr e ↦
      rw (e, settled_by_result)
        ((λ h. (text_eq.decides job_status_failed job_status_succeeded).1 h), (λ h. cc))
]

status-abandoned :
    (code : String) (manifest : Option ArtifactManifest) (j : Job)
    → (abandoned code manifest j).status ≢ job_status_succeeded
unfolding abandoned
status-abandoned code none j h =
    let no : false ≡ true = (text_eq.decides job_status_abandoned job_status_succeeded).1 h in cc
status-abandoned code (some m) j h =
    let no : false ≡ true = (text_eq.decides job_status_abandoned job_status_succeeded).1 h in cc

status-settled :
    (ev : Evidence) (j : Job)
    → ((settled ev j).0.status ≡ job_status_succeeded) ↔ ((r : WorkerResult) × Vouched ev r)
unfolding settled
status-settled ev j = elim (Option-cases (trusted_result ev).0) [
  | inl e ↦
      rw (e, settled)
        (
          (λ h. elim (status-abandoned _ ev.manifest j h) [ ]),
          (λ v.
              let absurd : ⊥ = ground (arith, e, trusted_result-Vouched ev v.0 v.1) in
              elim absurd [ ]),
        )
  | inr (r, e) ↦
      let (given, agrees) = trusted_result-some ev r e in
      let status = status-settled_by_result r ev.manifest j in
      rw (e, settled)
        (
          (λ h. (r, (given, status.0 h, agrees))),
          (λ v. status.1 (ground (arith, e, v.1, trusted_result-Vouched ev v.0 v.1))),
        )
]

running-not_succeeded : (j : Job) → is_running j ≡ true → j.status ≢ job_status_succeeded
running-not_succeeded j r h =
    let no : false ≡ true =
      (text_eq.decides job_status_succeeded job_status_running).1
        (sym h ∙ (text_eq.decides j.status job_status_running).0 r) in
    cc

valid_transition-from_running :
    (from to : String)
    → (from == job_status_running) ≡ true
    → (to == job_status_running || is_terminal to) ≡ true
    → valid_transition from to ≡ true
unfolding valid_transition
valid_transition-from_running from to h g =
    let is : from ≡ job_status_running = (text_eq.decides from job_status_running).0 h in rw is g

running-not_terminal : (s : String) → (s == job_status_running) ≡ true → is_terminal s ≡ false
unfolding is_terminal
running-not_terminal s h = rw ((text_eq.decides s job_status_running).0 h) refl

pub kept_orphan-running : (ev : Evidence) (j : Job) → (kept_orphan ev j).status ≡ j.status
unfolding kept_orphan
kept_orphan-running ev j = refl

pub finished-id : (now : ℕ) (j : Job) → (finished now j).job_id ≡ j.job_id
unfolding finished
finished-id now j = refl

pub kept_orphan-id : (ev : Evidence) (j : Job) → (kept_orphan ev j).job_id ≡ j.job_id
unfolding kept_orphan
kept_orphan-id ev j = refl

-- For a job that was running: it is held as a suspected orphan, still running, exactly when the
-- worker lock is held or could not be probed. Otherwise it ends, and it has succeeded exactly
-- when there is a validated result that says so and that no manifest of the job contradicts. Its
-- identifier stays, and the change of its status is one that the state machine allows.
pub reconcile_evidence_lem :
    (j : Job) (ev : Evidence) (now : ℕ)
    → is_running j ≡ true
    → let (j', decision) = reconcile_evidence j ev now in
      ((decision ≡ orphan_suspected) ↔ (may_be_alive ev ≡ true))
      × (is_running j' ≡ may_be_alive ev)
      × (is_terminal j'.status ≡ not (may_be_alive ev))
      × ((j'.status ≡ job_status_succeeded)
          ↔ ((may_be_alive ev ≡ false) × (r : WorkerResult) × Vouched ev r))
      × (j'.job_id ≡ j.job_id)
      × (valid_transition j.status j'.status ≡ true)
reconcile_evidence_lem j ev now r = elim (Bool-cases (may_be_alive ev)) [
  | inl e ↦
      rw (reconcile-alive j ev now r e, e, kept_orphan-running ev j)
        (
          ((λ h. refl), (λ h. refl)),
          r,
          running-not_terminal j.status r,
          (
            (λ h. elim (running-not_succeeded j r h) [ ]),
            (λ v. let absurd : ⊥ = ground (arith, v.0) in elim absurd [ ]),
          ),
          kept_orphan-id ev j,
          valid_transition-from_running j.status j.status r (ground (arith, r)),
        )
  | inr e ↦
      let k = finished now j in
      let done = settled-IsSettled ev k in
      let status = status-settled ev k in
      rw (reconcile-ended j ev now r e, e)
        (
          ((λ h. elim (settled-not_orphan ev k h) [ ]), (λ h. cc)),
          done.not_running,
          done.ended,
          ((λ h. (refl, (status.0 h).0, (status.0 h).1)), (λ v. status.1 (v.1, v.2))),
          done.same_id ∙ finished-id now j,
          valid_transition-from_running j.status (settled ev k).0.status r
              (ground (arith, done.ended)),
        )
]
