-- ===== src/Backup/System.antt =====
-- The backup manager with its worker goroutines, and the steps that an API call, the end of a
-- worker, a poll of the orphan loop or a tick take (ui/backend/internal/backup/manager_jobs.go,
-- run.go). Each step holds the mutex, so an interleaving is a list of steps.
use ldapium.Prelude.{
  ℕ, ◌≡◌, Bool, true, false, Option, none, some, List, [], ◌∷◌, retain, zero, suc,
}
use ldapium.Prelude.Bytes.{Bytes}
use ldapium.Prelude.Eq.{bytes_eq, ◌==◌}
use ldapium.Backup.{Job, Policies, is_running}
use ldapium.Backup.Manager.{Disk, Manager, Writes, find_job}
use ldapium.Backup.Start.{RunRequest, Moment, Worker, start_job}
use ldapium.Backup.Cancelling.{cancel_job}
use ldapium.Backup.Finish.{Exit, execute}
use ldapium.Backup.Startup.{is_active_orphan, orphan_step, tick}
use ldapium.Backup.Settings.{save_policies}

-- `workers`: the runs whose goroutine has not come back.
pub record System : Type 0 where
  pub manager : Manager
  pub workers : List Worker

pub data Event : Type 0 where
  starts : Disk → RunRequest → Moment → Event
  exits : (place : ℕ) → Disk → (now : ℕ) → Exit → Writes → Event
  polls : Disk → (now : ℕ) → Writes → Event
  ticks : (now : ℕ) → (jobs_ok : Bool) → Event
  cancels : (id : Bytes) → (now : ℕ) → (jobs_ok : Bool) → Disk → Event
  saves : List Bytes → (now : ℕ) → (state_ok : Bool) → Policies → (expected : ℕ) → Event

-- One worker comes back: it, and those that are left.
unfoldable pub take_worker : ℕ → List Worker → Option Worker × List Worker
take_worker i [] = (none, [])
take_worker zero (w ∷ ws) = (some w, ws)
take_worker (suc i) (w ∷ ws) = let (found, rest) = take_worker i ws in (found, w ∷ rest)

abbrev pub with_worker : Option Worker → List Worker → List Worker
with_worker none ws = ws
with_worker (some w) ws = w ∷ ws

module _ (decode : Bytes → Option Bytes) where
  unfoldable pub step : System → Event → System
  unfolding start_job take_worker execute orphan_step tick cancel_job save_policies
  step s (starts disk req at) =
      let (m, reply, w) = start_job decode disk req at s.manager in
      record { manager = m; workers = with_worker w s.workers }
  step s (exits i disk now exit writes) =
      let (found, rest) = take_worker i s.workers in
      elim found [
        | none ↦ s
        | some w ↦ record { manager = execute disk w now exit writes s.manager; workers = rest }
      ]
  step s (polls disk now writes) = record s { manager = (orphan_step disk now writes s.manager).0 }
  step s (ticks now ok) = record s { manager = (tick now ok s.manager).0 }
  step s (cancels id now ok disk) = record s { manager = (cancel_job id now ok disk s.manager).0 }
  step s (saves registered now ok p expected) = record s {
    manager = (save_policies registered now ok p expected s.manager).0;
  }

  unfoldable pub run : System → List Event → System
  unfolding step
  run s [] = s
  run s (e ∷ es) = run (step s e) es

-- What the steps look at and the invariant speaks of.
pub record View : Type 0 where
  pub running : Bool
  pub jobs : List Job
  pub active_job_id : Bytes

unfoldable pub view : Manager → View
view m = record { running = m.running; jobs = m.jobs; active_job_id = m.active_job_id }

-- The one slot for a job: free, taken by a run of this process, or by a worker that an earlier
-- process left behind.
pub data Slot (v : View) (ws : List Worker) : Type 0 where
  idle : v.running ≡ false → retain is_running v.jobs ≡ [] → ws ≡ [] → Slot v ws
  working :
      (j : Job) (i : ℕ) (w : Worker)
      → v.running ≡ true
      → retain is_running v.jobs ≡ j ∷ []
      → j.orphan_suspected ≡ false
      → find_job (λ k. k.job_id == w.job_id) v.jobs ≡ some (i, j)
      → v.active_job_id ≡ w.job_id
      → ws ≡ w ∷ []
      → Slot v ws
  orphaned :
      (j : Job) (i : ℕ)
      → v.running ≡ true
      → retain is_running v.jobs ≡ j ∷ []
      → j.orphan_suspected ≡ true
      → find_job (is_active_orphan v.active_job_id) v.jobs ≡ some (i, j)
      → ws ≡ []
      → Slot v ws

-- The job file holds the jobs, unless they are marked as not saved.
abbrev pub IsDurable : Manager → Type 0
IsDurable m = m.job_dirty ≡ false → m.job_file ≡ m.jobs

pub record Inv (m : Manager) (ws : List Worker) : Type 0 where
  pub slot : Slot (view m) ws
  pub durable : IsDurable m
