-- ===== src/Backup/SingleFlight.antt =====
-- The slot for a backup job over every step of the manager
-- (ui/backend/internal/backup/manager_jobs.go, run.go, manager.go).
mod Starting
mod Finishing
mod Settling
mod Loop
mod Restarting
pub mod Release
use ldapium.Prelude.{
  ℕ, ◌≡◌, refl, ap, Bool, false, Option, none, some, List, [], ◌∷◌, String, Option-cases, inl, inr,
}
use ldapium.Prelude.Bytes.{Bytes}
use ldapium.Backup.{State}
use ldapium.Backup.Manager.{Disk, Manager, Writes}
use ldapium.Backup.Start.{Worker}
use ldapium.Backup.Startup.{startup}
use ldapium.Backup.System.{
  System, Event, starts, exits, polls, ticks, cancels, saves, take_worker, step, run, IsDurable,
  Inv,
}
use Starting.{start_job-Inv, tick-Inv, save_policies-Inv, cancel_job-Inv}
use Finishing.{exit-Inv}
use Settling.{poll-Inv}
use Restarting.{startup-Inv}

abbrev pub IsConsistent : System → Type 0
IsConsistent s = Inv s.manager s.workers

module _ (decode : Bytes → Option Bytes) where
  step-IsConsistent : (s : System) (e : Event) → IsConsistent s → IsConsistent (step decode s e)
  unfolding step
  step-IsConsistent s (starts disk req at) v =
      start_job-Inv decode disk req at s.manager s.workers v
  step-IsConsistent s (exits i disk now exit writes) v =
      elim (Option-cases (take_worker i s.workers).0) [
        | inl e ↦ rw (e, step) v
        | inr (w, e) ↦
            rw (e, step)
              (exit-Inv i disk w now exit writes s.manager s.workers (take_worker i s.workers).1
                v.slot (ap (λ (o : Option Worker). (o, (take_worker i s.workers).1)) e))
      ]
  step-IsConsistent s (polls disk now writes) v = poll-Inv disk now writes s.manager s.workers v
  step-IsConsistent s (ticks now ok) v = tick-Inv now ok s.manager s.workers v
  step-IsConsistent s (cancels id now ok disk) v =
      cancel_job-Inv id now ok disk s.manager s.workers v
  step-IsConsistent s (saves registered now ok p expected) v =
      save_policies-Inv registered now ok p expected s.manager s.workers v

  pub run-IsConsistent :
      (s : System) (es : List Event) → IsConsistent s → IsConsistent (run decode s es)
  unfolding run
  run-IsConsistent s [] v = v
  run-IsConsistent s (e ∷ es) v = run-IsConsistent (step decode s e) es (step-IsConsistent s e v)

  -- However the manager starts with the jobs of its file, whatever it finds on disk, and whatever
  -- starts, exits, polls, ticks, cancellations and policy changes follow, in any order, with writes
  -- that succeed or fail: no job is running and no worker is out; or one job is running, it is the
  -- active one, and its worker is the one that is out; or one job is running, as a suspected orphan
  -- of an earlier process, and no worker is out. Unless they are marked as not saved, the job file
  -- holds the jobs of the manager.
  pub run-startup :
      (changed : List (String × State) → List (String × State) → Bool) (disk : Disk) (now : ℕ)
      (writes : Writes) (m : Manager) (es : List Event)
      → m.running ≡ false
      → m.job_file ≡ m.jobs
      → IsConsistent
          (run decode (record { manager = startup changed disk now writes m; workers = [] }) es)
  run-startup changed disk now writes m es off f =
      run-IsConsistent (record { manager = startup changed disk now writes m; workers = [] }) es
        (startup-Inv changed disk now writes m off (λ _. f))
