-- ===== src/Backup/Reconcile.antt =====
-- What becomes of a job that was running when the controller stopped: the state machine of
-- ui/backend/internal/backup/jobs_reconcile.go over the evidence that is on disk, the gate for a
-- worker's result, and the schedule afterwards. `cloneJob` copies, which a value need not.
pub mod Outcome
use ldapium.Prelude.{
  ℕ, ◌+◌, ◌*◌, Bool, true, false, ◌&&◌, ◌||◌, not, Option, none, some, List, [], ◌∷◌, String, ltb,
  leb, if◌then◌else◌, length, map, all, take, reverse, retain,
}
use ldapium.Prelude.Bytes.{Bytes}
use ldapium.Prelude.Eq.{bytes_eq, text_eq, nat_eq, ◌==◌}
use ldapium.Revision.{matches}
use ldapium.Backup.{
  second, minute, job_status_running, job_status_succeeded, job_status_failed, job_status_abandoned,
  err_code_abandoned, err_code_worker_failed, err_code_result_invalid, JobDestination,
  JobArtifactFile, JobArtifact, Job, catalog_error, is_running, run_name, safe_id,
}
use ldapium.Backup.Records.{
  max_job_dests, first_error, has_id, valid_dest_status, valid_dest_err_code,
}

-- A destination's outcome has the fields of the job's own record of it.
pub record WorkerResult : Type 0 where
  pub run_id : Bytes
  pub kind : String
  pub verified : Bool
  pub local_verified : Bool
  pub job_id : Bytes
  pub destinations : List JobDestination

pub record ArtifactManifest : Type 0 where
  pub kind : String
  pub run_id : Bytes
  pub job_id : Bytes
  pub files : List JobArtifactFile

pub data Decision : Type 0 where
  unchanged orphan_suspected settled_result settled_manifest settled_none settled_invalid : Decision

pub record Evidence : Type 0 where
  pub lock_held : Bool
  pub probe_error : Bool
  pub result : Option WorkerResult
  pub result_invalid : Bool
  pub manifest : Option ArtifactManifest

-- A result whose run disagrees with the manifest cannot be trusted: the result, and whether it is
-- invalid.
unfoldable pub trusted_result : Evidence → Option WorkerResult × Bool
trusted_result ev = elim (ev.result) [
  | none ↦ (none, ev.result_invalid)
  | some r ↦ elim (ev.manifest) [
    | none ↦ (some r, ev.result_invalid)
    | some m ↦
        if not (r.run_id == []) && not (r.run_id == m.run_id)
        then (none, true)
        else (some r, ev.result_invalid)
  ]
]

manifest_files : Option ArtifactManifest → List JobArtifactFile
manifest_files none = []
manifest_files (some m) = m.files

-- Rows 2 and 3.
unfoldable pub settled_by_result : WorkerResult → Option ArtifactManifest → Job → Job
unfolding manifest_files
settled_by_result r manifest j = record j {
  local_verified = some r.local_verified;
  artifact =
      if r.run_id == []
      then j.artifact
      else some (record { run_id = r.run_id; files = manifest_files manifest });
  destinations = if length r.destinations == 0 then j.destinations else r.destinations;
  status = if r.verified then job_status_succeeded else job_status_failed;
  error = if r.verified then none else some (catalog_error err_code_worker_failed);
}

abbrev pub unknown_destinations : List JobDestination → List JobDestination
unknown_destinations = map (λ (d : JobDestination). record d { status = "unknown" })

-- Rows 4 and 5.
unfoldable pub abandoned : String → Option ArtifactManifest → Job → Job
abandoned code none j = record j {
  status = job_status_abandoned;
  error = some (catalog_error code);
  destinations = unknown_destinations j.destinations;
}
abandoned code (some m) j = record j {
  status = job_status_abandoned;
  error = some (catalog_error code);
  local_verified = some true;
  artifact = some (record { run_id = m.run_id; files = m.files });
  destinations = unknown_destinations j.destinations;
}

abandoned_decision : Bool → Option ArtifactManifest → Decision
abandoned_decision true manifest = settled_invalid
abandoned_decision false none = settled_none
abandoned_decision false (some m) = settled_manifest

-- Row 1: a worker may be alive, so the job stays.
unfoldable pub kept_orphan : Evidence → Job → Job
kept_orphan ev j = record j {
  orphan_suspected = true;
  orphan_reason =
      if ev.probe_error && not ev.lock_held then "lock_probe_error" else "worker_lock_held";
}

unfoldable pub finished : ℕ → Job → Job
finished now j = record j {
  orphan_suspected = false;
  orphan_reason = "";
  finished_at = if j.finished_at == 0 then now else j.finished_at;
}

unfoldable pub settled : Evidence → Job → Job × Decision
unfolding trusted_result settled_by_result abandoned abandoned_decision
settled ev j =
    let (result, invalid) = trusted_result ev in
    elim result [
      | some r ↦ (settled_by_result r ev.manifest j, settled_result)
      | none ↦ (
        abandoned (if invalid then err_code_result_invalid else err_code_abandoned) (ev.manifest) j,
        abandoned_decision invalid (ev.manifest),
      )
    ]

-- `ReconcileEvidenceWithTime` of a record that is not nil.
unfoldable pub reconcile_evidence : Job → Evidence → ℕ → Job × Decision
unfolding kept_orphan finished settled
reconcile_evidence j ev now =
    if is_running j
    then if ev.lock_held || ev.probe_error
      then (kept_orphan ev j, orphan_suspected)
      else settled ev (finished now j)
    else (j, unchanged)

-- The loop of `validateWorkerResult` over the destinations.
unfoldable pub check_destinations : Bool → List Bytes → List JobDestination → Option String
unfolding has_id first_error
check_destinations verified seen [] = none
check_destinations verified seen (d ∷ ds) =
    let rest = check_destinations verified (d.id ∷ seen) ds in
    elim (first_error (
      (not (safe_id d.id) || has_id d.id seen, "invalid destination id")
      ∷ (
        not (valid_dest_status d.status) || not (valid_dest_err_code d.error_code),
        "invalid destination status",
      )
      ∷ (verified && not (d.status == "succeeded"), "verified result with unsuccessful destination")
      ∷ [])) [ some e ↦ some e | none ↦ rest ]

unfoldable pub validate_worker_result : WorkerResult → Job → Option String
unfolding check_destinations first_error
validate_worker_result r j =
    elim (first_error (
      (not (r.job_id == j.job_id), "job_id mismatch")
      ∷ (not (r.kind == j.kind), "kind mismatch")
      ∷ (not (r.run_id == []) && not (matches run_name r.run_id), "invalid run_id")
      ∷ ((r.verified || r.local_verified) && r.run_id == [], "verified result without run_id")
      ∷ (r.verified && not r.local_verified, "verified without local_verified")
      ∷ (ltb max_job_dests (length r.destinations), "too many destinations")
      ∷ [])) [ some e ↦ some e | none ↦ check_destinations r.verified [] r.destinations ]

-- The last three finished jobs of a kind, newest first.
unfoldable pub recent_finished : List Job → String → List Job
unfolding retain
recent_finished jobs kind =
    take 3 (retain (λ j. j.kind == kind && not (is_running j)) (reverse jobs))

unfoldable pub should_catch_up : List Job → String → Bool
unfolding recent_finished all
should_catch_up jobs kind = not (
    length (recent_finished jobs kind) == 3
    && all (λ j. j.status == job_status_abandoned) (recent_finished jobs kind))

unfoldable pub schedule_after_recovery : List Job → String → ℕ → ℕ → ℕ
unfolding should_catch_up
schedule_after_recovery jobs kind interval_minutes recovery_time =
    if should_catch_up jobs kind then recovery_time else recovery_time + interval_minutes * minute

unfoldable pub schedule_after_worker_busy : ℕ → ℕ → ℕ → ℕ
schedule_after_worker_busy consecutive_busy interval_minutes now =
    if ltb consecutive_busy 10 then now + 60 * second else now + interval_minutes * minute
