-- ===== src/Backup/SingleFlight/Release.antt =====
-- The orphan loop (ui/backend/internal/backup/manager_jobs.go) frees the slot.
use ldapium.Prelude.{
  ℕ, suc, ◌*◌, ◌≤◌, ◌≡◌, ◌≢◌, refl, ap, sym, ◌∙◌, Bool, true, false, not, Option, none, some, List,
  [], ◌∷◌, ◌++◌, arith, length, is_some, if-both, Bool-cases, Option-cases, inl, inr, ◌⊎◌, String,
}
use ldapium.Prelude.Eq.{bytes_eq, text_eq, nat_eq, ◌==◌}
use ldapium.Backup.{second, Job}
use ldapium.Backup.Reconcile.{kept_orphan, finished, settled}
use ldapium.Backup.Reconcile.Outcome.{may_be_alive, settled-IsSettled, finished-id}
use ldapium.Backup.Manager.{
  Disk, no_probe, probed, probe_failed, Manager, Writes, persist_jobs, persist_state, prune,
  set_state, set_job, find_job, evidence, hold_orphan, clear_active, fold_settled,
}
use ldapium.Backup.Retention.{prune_jobs}
use ldapium.Backup.Startup.{
  next_orphan_delay, is_active_orphan, active_orphan, reason_at, save_held, set_delay, orphan_step,
  Poll, orphan_polls, orphan_loop,
}
use ldapium.Backup.System.{View, view, Slot, idle, working, orphaned, Inv}
use ldapium.Backup.Saving.{view-persist_jobs, view-persist_state}
use ldapium.Backup.SingleFlight.Settling.{
  IsOrphaned, active_orphan-IsOrphaned, reconcile_job-held, reconcile_job-settled,
  view-fold_settled, view-clear_active, view-set_delay, poll-Inv,
}

-- The worker lock is free, or there is none to ask.
abbrev pub is_free : Disk → Bool
is_free disk = elim (disk.lock) [ no_probe ↦ true | probed held ↦ not held | probe_failed ↦ false ]

free-settles :
    (disk : Disk) (j : Job) → is_free disk ≡ true → may_be_alive (evidence disk true j) ≡ false
unfolding evidence
free-settles disk j h = ground (arith, h)

next_orphan_delay_le : (prev : ℕ) → next_orphan_delay prev ≤ 30 * second
unfolding next_orphan_delay
next_orphan_delay_le prev = ground arith

running-prune : (now : ℕ) (m : Manager) → (prune now m).running ≡ m.running
unfolding prune
running-prune now m =
    if-both (λ (r : Manager). r.running ≡ m.running) (length (prune_jobs m.jobs now).1 == 0) m _
      (λ _. refl) (λ _. refl)

view-save_held :
    (ok : Bool) (i : ℕ) (reason : String) (m : Manager) → view (save_held ok i reason m) ≡ view m
unfolding save_held
view-save_held ok i reason m =
    if-both (λ (r : Manager). view r ≡ view m) (reason_at i m.jobs == reason) m (persist_jobs ok m)
      (λ _. refl) (λ _. view-persist_jobs ok m)

-- The loop goes on: there is an orphan, and its identifier is not empty.
pub record IsWaiting (m : Manager) : Type 0 where
  pub consistent : Inv m []
  pub waits : is_some (active_orphan m) ≡ true

Slot-waits :
    (v : View)
    → Slot v []
    → v.running ≡ true
    → is_some (find_job (is_active_orphan v.active_job_id) v.jobs) ≡ true
Slot-waits v (idle off r w) on = ground (arith, on, off)
Slot-waits v (working j i w _ r o f a e) on = ground (arith, e)
Slot-waits v (orphaned j i _ r o f e) on = rw f refl

active_orphan-named :
    (m : Manager) (i : ℕ) (j : Job) → active_orphan m ≡ some (i, j) → m.active_job_id ≢ []
unfolding active_orphan
active_orphan-named m i j e z = ground (arith, e, bytes_eq.decides m.active_job_id [], z)

still_waits :
    (m : Manager)
    → Slot (view m) []
    → m.running ≡ true
    → m.active_job_id ≢ []
    → is_some (active_orphan m) ≡ true
unfolding active_orphan view
still_waits m s on named =
    ground (arith, on, named, bytes_eq.decides m.active_job_id [], Slot-waits (view m) s on)

-- What a poll answers.
abbrev Polled : Disk → ℕ → Manager × Option ℕ → Type 0
Polled disk delay r =
    ((r.1 ≡ none) × (r.0.running ≡ false))
    ⊎ ((r.1 ≡ some delay) × IsWaiting r.0 × (is_free disk ≡ false))

held-waits :
    (disk : Disk) (now : ℕ) (writes : Writes) (m : Manager) (i : ℕ) (j : Job)
    → IsWaiting m
    → active_orphan m ≡ some (i, j)
    → IsOrphaned m i j
    → may_be_alive (evidence disk true j) ≡ true
    → Polled disk (next_orphan_delay m.orphan_delay) (orphan_step disk now writes m)
unfolding orphan_step hold_orphan set_state view kept_orphan
held-waits disk now writes m i j w e o alive =
    let k = kept_orphan (evidence disk true j) j in
    let held = hold_orphan k (record m { jobs = set_job i k m.jobs }) in
    let saved = save_held writes.jobs_ok i j.orphan_reason held in
    let m' = (orphan_step disk now writes m).0 in
    let is : orphan_step disk now writes m ≡ (
      set_delay (next_orphan_delay m.orphan_delay) saved,
      some (next_orphan_delay m.orphan_delay),
    ) =
      rw (e, orphan_step, reconcile_job-held disk now i j m o.runs alive) refl in
    let seen : view m' ≡ view held =
      ap (λ (r : Manager × Option ℕ). view r.0) is
      ∙ view-set_delay (next_orphan_delay m.orphan_delay) saved
      ∙ view-save_held writes.jobs_ok i j.orphan_reason held in
    let taken : is_free disk ≡ false = elim (Bool-cases (is_free disk)) [
      | inl f ↦ let absurd : ⊥ = ground (arith, alive, free-settles disk j f) in elim absurd [ ]
      | inr f ↦ f
    ] in
    let v : Inv m' [] = poll-Inv disk now writes m [] w.consistent in
    let on : m'.running ≡ true = ap (λ (x : View). x.running) seen in
    let name : m'.active_job_id ≡ m.active_job_id =
      ap (λ (x : View). x.active_job_id) seen ∙ o.is_active in
    inr (
      ap (λ (r : Manager × Option ℕ). r.1) is,
      record {
        consistent = v;
        waits = still_waits m' v.slot on (λ z. active_orphan-named m i j e (sym name ∙ z));
      },
      taken,
    )

settled-ends :
    (disk : Disk) (now : ℕ) (writes : Writes) (m : Manager) (i : ℕ) (j : Job)
    → active_orphan m ≡ some (i, j)
    → IsOrphaned m i j
    → may_be_alive (evidence disk true j) ≡ false
    → Polled disk (next_orphan_delay m.orphan_delay) (orphan_step disk now writes m)
unfolding orphan_step view
settled-ends disk now writes m i j e o dead =
    let ev = evidence disk true j in
    let k = (settled ev (finished now j)).0 in
    let base : Manager = record m { jobs = set_job i k m.jobs } in
    let cleared = clear_active k base in
    let done = fold_settled now k cleared in
    let pruned = prune now (set_delay 0 done) in
    let saved = persist_jobs writes.jobs_ok pruned in
    let is : orphan_step disk now writes m ≡ (persist_state writes.state_ok saved, none) =
      rw (e, orphan_step, reconcile_job-settled disk now true i j m o.runs dead) refl in
    let same : m.active_job_id ≡ k.job_id =
      sym ((settled-IsSettled ev (finished now j)).same_id ∙ finished-id now j ∙ o.is_active) in
    let free : view done ≡ record { running = false; jobs = base.jobs; active_job_id = [] } =
      view-fold_settled now k cleared ∙ view-clear_active k base same in
    inl (
      ap (λ (r : Manager × Option ℕ). r.1) is,
      ap (λ (r : Manager × Option ℕ). r.0.running) is
          ∙ ap (λ (v : View). v.running)
              (view-persist_state writes.state_ok saved ∙ view-persist_jobs writes.jobs_ok pruned)
          ∙ running-prune now (set_delay 0 done)
          ∙ ap (λ (v : View). v.running) (view-set_delay 0 done ∙ free),
    )

poll-cases :
    (disk : Disk) (now : ℕ) (writes : Writes) (m : Manager)
    → IsWaiting m
    → Polled disk (next_orphan_delay m.orphan_delay) (orphan_step disk now writes m)
poll-cases disk now writes m w = elim (Option-cases (active_orphan m)) [
  | inl e ↦ let absurd : ⊥ = ground (arith, e, w.waits) in elim absurd [ ]
  | inr ((i, j), e) ↦
      let (o, gone) = active_orphan-IsOrphaned m [] i j w.consistent.slot e in
      elim (Bool-cases (may_be_alive (evidence disk true j))) [
        | inl alive ↦ held-waits disk now writes m i j w e o alive
        | inr dead ↦ settled-ends disk now writes m i j e o dead
      ]
]

polls-end :
    (delay : ℕ) (before : List Poll) (p : Poll) (rest : List Poll) (m : Manager)
    → IsWaiting m
    → is_free p.disk ≡ true
    → delay ≤ 30 * second
    → let (m', waited, ended) = orphan_polls delay (before ++ p ∷ rest) m in
      (ended ≡ true) × (m'.running ≡ false) × (waited ≤ 30 * second * suc (length before))
unfolding orphan_polls
polls-end delay [] p rest m w free d = elim (poll-cases p.disk p.now p.writes m w) [
  | inl h ↦ rw (h.0, orphan_polls) (refl, h.1, omega (arith, d))
  | inr h ↦ let absurd : ⊥ = ground (arith, free, h.2) in elim absurd [ ]
]
polls-end delay (q ∷ before) p rest m w free d = elim (poll-cases q.disk q.now q.writes m w) [
  | inl h ↦ rw (h.0, orphan_polls) (refl, h.1, omega (arith, d))
  | inr h ↦
      let m' = (orphan_step q.disk q.now q.writes m).0 in
      let go =
        polls-end (next_orphan_delay m.orphan_delay) before p rest m' h.1 free
          (next_orphan_delay_le m.orphan_delay) in
      rw (h.0, orphan_polls) (go.0, go.1, omega (arith, d, go.2))
]

-- In a consistent manager with an orphan: whatever the polls before find, the loop ends with the
-- first poll that finds the lock free, if it has not ended before; then the slot is free. A
-- wait is at most 30 seconds, so that the whole takes at most 30 seconds per poll.
pub orphan_loop-ends :
    (m : Manager) (before : List Poll) (p : Poll) (rest : List Poll)
    → Inv m []
    → is_some (active_orphan m) ≡ true
    → is_free p.disk ≡ true
    → let (m', waited, ended) = orphan_loop (before ++ p ∷ rest) m in
      (ended ≡ true) × (m'.running ≡ false) × (waited ≤ 30 * second * suc (length before))
unfolding orphan_loop set_delay view active_orphan
orphan_loop-ends m before p rest v w free =
    rw (w, orphan_loop)
      (polls-end (next_orphan_delay 0) before p rest (set_delay (next_orphan_delay 0) m)
        (record { consistent = record { slot = v.slot; durable = v.durable }; waits = w }) free
        (next_orphan_delay_le 0))
