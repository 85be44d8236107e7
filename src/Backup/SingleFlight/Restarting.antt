-- ===== src/Backup/SingleFlight/Restarting.antt =====
-- Startup (ui/backend/internal/backup/manager_jobs.go) establishes the invariant.
use ldapium.Prelude.{
  ℕ, ◌≡◌, refl, ap, sym, ◌∙◌, subst, Bool, true, false, ◌||◌, ◌&&◌, not, Option, none, some, List,
  [], arith, length, retain, is_some, if-both, String,
}
use ldapium.Prelude.Eq.{bytes_eq, text_eq, nat_eq, ◌==◌}
use ldapium.Backup.{State}
use ldapium.Backup.Manager.{Disk, Manager, Writes, persist_jobs, persist_state, prune, set_state}
use ldapium.Backup.Startup.{
  nothing_found, find_latest, restore_kind, restore_states, latest_running, reconcile_from,
  mark_interrupted, save_changed, startup,
}
use ldapium.Backup.System.{View, view, Slot, IsDurable, Inv}
use ldapium.Backup.Saving.{
  view-persist_jobs, view-persist_state, persist_jobs-IsDurable, persist_state-IsDurable,
  prune-Slot,
}
use ldapium.Backup.SingleFlight.Loop.{none_runs, reconcile_from-rest, after, loop-Slot}

-- A change of the states alone.
record SameJobs (m m' : Manager) : Type 0 where
  same_view : view m' ≡ view m
  same_dirty : m'.job_dirty ≡ m.job_dirty
  same_file : m'.job_file ≡ m.job_file

SameJobs-refl : (m : Manager) → SameJobs m m
SameJobs-refl m = record { same_view = refl; same_dirty = refl; same_file = refl }

SameJobs-trans : (a b c : Manager) → SameJobs a b → SameJobs b c → SameJobs a c
SameJobs-trans a b c h k = record {
  same_view = k.same_view ∙ h.same_view;
  same_dirty = k.same_dirty ∙ h.same_dirty;
  same_file = k.same_file ∙ h.same_file;
}

restore_kind-SameJobs : (kind : String) (m : Manager) → SameJobs m (restore_kind kind m)
unfolding restore_kind set_state view
restore_kind-SameJobs kind m =
    if-both (λ (r : Manager). SameJobs m r) (is_some (find_latest kind nothing_found m.jobs).latest)
      _ m (λ _. record { same_view = refl; same_dirty = refl; same_file = refl })
      (λ _. SameJobs-refl m)

restore_states-SameJobs : (m : Manager) → SameJobs m (restore_states m)
unfolding restore_states
restore_states-SameJobs m =
    SameJobs-trans m (restore_kind "data" m) (restore_kind "logs" (restore_kind "data" m))
      (restore_kind-SameJobs "data" m) (restore_kind-SameJobs "logs" (restore_kind "data" m))

mark_interrupted-SameJobs : (b : Bool) (m : Manager) → SameJobs m (mark_interrupted b m)
unfolding mark_interrupted view
mark_interrupted-SameJobs true m = record { same_view = refl; same_dirty = refl; same_file = refl }
mark_interrupted-SameJobs false m = SameJobs-refl m

after-zero : (o : Option ℕ) → after 0 o ≡ o
unfolding after
after-zero none = refl
after-zero (some n) = ap (λ k. some k) (omega arith)

prune-clean : (now : ℕ) (m : Manager) → (prune now m).job_dirty ≡ false → prune now m ≡ m
unfolding prune
prune-clean now m h = ground (arith, h)

-- What startup has reconciled, and marked as interrupted.
reconciled-Slot :
    (disk : Disk) (now : ℕ) (m m' : Manager)
    → m.running ≡ false
    → SameJobs m m'
    → Slot (view (reconcile_from disk now (latest_running m.jobs) 0 m.jobs m')) []
unfolding view retain
reconciled-Slot disk now m m' off s =
    subst (λ (o : Option ℕ). Slot (view (reconcile_from disk now o 0 m.jobs m')) [])
      (after-zero (latest_running m.jobs))
      (loop-Slot disk now [] m.jobs 0 m' (record {
        splits = ap (λ (v : View). v.jobs) s.same_view;
        here = refl;
        settled_so_far = refl;
        free = ap (λ (v : View). v.running) s.same_view ∙ off;
      }))

-- Where nothing ran, reconciliation and pruning that leave the jobs clean leave them alone.
untouched-IsDurable :
    (disk : Disk) (now : ℕ) (m m' : Manager) (b : Bool)
    → IsDurable m
    → SameJobs m m'
    → is_some (latest_running m.jobs) ≡ false
    → let x = mark_interrupted b (reconcile_from disk now (latest_running m.jobs) 0 m.jobs m') in
      IsDurable (prune now x)
unfolding view
untouched-IsDurable disk now m m' b d s e clean =
    let no_run : latest_running m.jobs ≡ none = ground (arith, e) in
    let idle_loop =
      reconcile_from-rest disk now (latest_running m.jobs) 0 m.jobs m' (none_runs m.jobs no_run) in
    let x = mark_interrupted b (reconcile_from disk now (latest_running m.jobs) 0 m.jobs m') in
    let same : SameJobs m x = SameJobs-trans m m' x s (
      subst (λ (r : Manager). SameJobs m' (mark_interrupted b r)) (sym idle_loop)
        (mark_interrupted-SameJobs b m')) in
    let kept : prune now x ≡ x = prune-clean now x clean in
    ap (λ (r : Manager). r.job_file) kept
    ∙ same.same_file
    ∙ d (sym same.same_dirty ∙ sym (ap (λ (r : Manager). r.job_dirty) kept) ∙ clean)
    ∙ sym (ap (λ (v : View). v.jobs) same.same_view)
    ∙ sym (ap (λ (r : Manager). r.jobs) kept)

save_changed-Inv :
    (b : Bool) (writes : Writes) (m : Manager)
    → Slot (view m) []
    → (b ≡ false → IsDurable m)
    → Inv (save_changed b writes m) []
unfolding save_changed
save_changed-Inv b writes m s d =
    if-both (λ (r : Manager). Inv r []) b (persist_jobs writes.jobs_ok m) m
      (λ _. record {
        slot = subst (λ (v : View). Slot v []) (sym (view-persist_jobs writes.jobs_ok m)) s;
        durable = persist_jobs-IsDurable writes.jobs_ok m;
      })
      (λ e. record { slot = s; durable = d e })

persist_state-Inv : (ok : Bool) (m : Manager) → Inv m [] → Inv (persist_state ok m) []
persist_state-Inv ok m v = record {
  slot = subst (λ (x : View). Slot x []) (sym (view-persist_state ok m)) v.slot;
  durable = persist_state-IsDurable ok m v.durable;
}

-- A manager that has just been created, with the jobs of its file, starts with the invariant.
pub startup-Inv :
    (changed : List (String × State) → List (String × State) → Bool) (disk : Disk) (now : ℕ)
    (writes : Writes) (m : Manager)
    → m.running ≡ false
    → IsDurable m
    → Inv (startup changed disk now writes m) []
unfolding startup
startup-Inv changed disk now writes m off d =
    let m' = restore_states m in
    let s = restore_states-SameJobs m in
    let newest = latest_running m.jobs in
    let reconciled = reconcile_from disk now newest 0 m.jobs m' in
    let b = not (is_some newest) && not reconciled.running in
    let x = mark_interrupted b reconciled in
    let pruned = prune now x in
    let slot : Slot (view pruned) [] = prune-Slot now x [] (
      subst (λ (v : View). Slot v []) (sym (mark_interrupted-SameJobs b reconciled).same_view)
        (reconciled-Slot disk now m m' off s)) in
    let changes = is_some newest || not (length pruned.jobs == length m.jobs) || pruned.job_dirty in
    let saved : Inv (save_changed changes writes pruned) [] =
      save_changed-Inv changes writes pruned slot
        (λ e. untouched-IsDurable disk now m m' b d s (ground (arith, e))) in
    if-both (λ (r : Manager). Inv r [])
      (changed m.states (save_changed changes writes pruned).states) _ _
      (λ _. persist_state-Inv writes.state_ok (save_changed changes writes pruned) saved)
      (λ _. saved)
