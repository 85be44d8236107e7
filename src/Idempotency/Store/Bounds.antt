-- ===== src/Idempotency/Store/Bounds.antt =====
-- The table stays within its quotas (ui/backend/internal/idempotency/store.go).
use ldapium.Prelude.{
  ℕ, ◌≤◌, ◌≡◌, refl, Bool, true, false, Option, none, some, List, [], ◌∷◌, arith, if◌then◌else◌,
  length, Option-cases, inl, inr,
}
use ldapium.Prelude.Bytes.{Bytes}
use ldapium.Prelude.Eq.{nat_eq, bytes_eq, bytes_beq_iff}
use ldapium.Prelude.Assoc.{
  lookup, put, count, count-put_new, count-put_old, count-delete_le, length-put_new, length-put_old,
  length-delete_le,
}
use ldapium.Idempotency.Keyring.{Digest, Keyring, hash_hex, key_hash}
use ldapium.Idempotency.Store.Sweep.{held_lem, lookup-sweep_locked, remove_locked_free}
use ldapium.Idempotency.Store.{
  Store, Entry, Handle, Options, Result, Call, begins, completes, releases, sweeps, rotates,
  is_expired, or_default, default_max_records, default_max_per_subject, new_store, set_keyring,
  remove_locked, sweep_from, sweep_locked, is_full, new_entry, finished, insert, claim, begin_found,
  begin, held, complete, release, sweep, step, run,
}
use ldapium.Idempotency.Store.Counts.{
  of_subject, Inv, new_store-Inv, sweep_locked-Inv, step-Inv, remove_locked-Inv,
}

pub record Bounded (total each : ℕ) (s : Store) : Type 0 where
  pub total_is : s.max_total ≡ total
  pub each_is : s.max_subject ≡ each
  pub few : length s.recs ≤ total
  pub few_each : (subj : Bytes) → count (of_subject subj) s.recs ≤ each

module _ (total each : ℕ) where
  remove_locked-Bounded :
      (id : Bytes) (e : Entry) (s : Store)
      → Bounded total each s
      → Bounded total each (remove_locked id e s)
  unfolding remove_locked
  remove_locked-Bounded id e s b = record {
    total_is = b.total_is;
    each_is = b.each_is;
    few = omega (arith, length-delete_le id s.recs, b.few);
    few_each = λ j. omega (arith, count-delete_le (of_subject j) id s.recs, b.few_each j);
  }

  sweep_from-Bounded :
      (now : ℕ) (m : List (Bytes × Entry)) (s : Store)
      → Bounded total each s
      → Bounded total each (sweep_from now m s)
  unfolding sweep_from
  sweep_from-Bounded now [] s b = b
  sweep_from-Bounded now ((id, e) ∷ m) s b =
      sweep_from-Bounded now m (if is_expired now e then remove_locked id e s else s)
        (chosen (is_expired now e))
    where
      chosen : (t : Bool) → Bounded total each (if t then remove_locked id e s else s)
      chosen true = remove_locked-Bounded id e s b
      chosen false = b

  sweep_locked-Bounded :
      (now : ℕ) (s : Store) → Bounded total each s → Bounded total each (sweep_locked now s)
  unfolding sweep_locked
  sweep_locked-Bounded now s b = sweep_from-Bounded now s.recs s b

  insert-Bounded :
      (d : Digest) (id subj : Bytes) (parts : List Bytes) (s : Store)
      → Bounded total each s
      → Inv s
      → lookup id s.recs ≡ none
      → is_full subj s ≡ false
      → Bounded total each (insert d id subj parts s).1
  unfolding insert is_full
  insert-Bounded d id subj parts s b v h room = record {
    total_is = b.total_is;
    each_is = b.each_is;
    few = ground (arith, length-put_new id (new_entry d subj parts s) s.recs h, b.total_is);
    few_each = λ j. ground (
      arith,
      count-put_new (of_subject j) id (new_entry d subj parts s) s.recs h,
      bytes_beq_iff subj j,
      v.counted j,
      v.counted subj,
      b.few_each j,
      b.each_is,
    );
  }

  complete-Bounded :
      (now : ℕ) (h : Handle) (r : Result) (s : Store)
      → Bounded total each s
      → Bounded total each (complete now h r s)
  unfolding complete
  complete-Bounded now h r s b = elim (Option-cases (held h s)) [
    | inl e ↦ rw (e, complete) b
    | inr (x, e) ↦ rw (e, complete) (written x (held_lem h s x e).0)
  ]
    where
      written :
          (x : Entry)
          → lookup h.id s.recs ≡ some x
          → Bounded total each (record s { recs = put h.id (finished now r s x) s.recs })
      written x p = record {
        total_is = b.total_is;
        each_is = b.each_is;
        few = omega (arith, length-put_old h.id (finished now r s x) x s.recs p, b.few);
        few_each = λ j. ground (
          arith,
          count-put_old (of_subject j) h.id (finished now r s x) x s.recs p,
          b.few_each j,
        );
      }

  release-Bounded :
      (h : Handle) (s : Store) → Bounded total each s → Bounded total each (release h s)
  unfolding release
  release-Bounded h s b = elim (Option-cases (held h s)) [
    | inl e ↦ rw (e, release) b
    | inr (x, e) ↦ rw (e, release) (remove_locked-Bounded h.id x s b)
  ]

  module _ (d : Digest) where
    claim-Bounded :
        (now : ℕ) (id subj : Bytes) (parts : List Bytes) (s : Store)
        → Bounded total each s
        → Inv s
        → lookup id s.recs ≡ none
        → Bounded total each (claim d now id subj parts s).1
    unfolding claim
    claim-Bounded now id subj parts s b v h =
        let swept = sweep_locked-Inv now s v in
        let fewer = sweep_locked-Bounded now s b in
        ground (
          arith,
          b,
          fewer,
          insert-Bounded d id subj parts s b v h,
          insert-Bounded d id subj parts (sweep_locked now s) fewer swept,
          lookup-sweep_locked now s id v.recs_map,
        )

    begin-Bounded :
        (now : ℕ) (subject key : Bytes) (parts : List Bytes) (s : Store)
        → Bounded total each s
        → Inv s
        → Bounded total each (begin d now subject key parts s).1
    unfolding begin
    begin-Bounded now subject key parts s b v = at_record (lookup id s.recs) refl
      where
        id : Bytes
        id = key_hash d subject key

        at_record :
            (o : Option Entry)
            → lookup id s.recs ≡ o
            → Bounded total each (begin_found d now id (hash_hex d (subject ∷ [])) parts s o).1
        at_record none h = claim-Bounded now id (hash_hex d (subject ∷ [])) parts s b v h
        at_record (some e) h = ground (
          arith,
          b,
          claim-Bounded now id (hash_hex d (subject ∷ [])) parts (remove_locked id e s)
              (remove_locked-Bounded id e s b) (remove_locked-Inv id e s v h)
              (remove_locked_free id e s),
        )

    step-Bounded :
        (now : ℕ) (c : Call) (s : Store)
        → Bounded total each s
        → Inv s
        → Bounded total each (step d now c s)
    unfolding step sweep set_keyring
    step-Bounded now (begins subject key parts) s b v = begin-Bounded now subject key parts s b v
    step-Bounded now (completes h r) s b v = complete-Bounded now h r s b
    step-Bounded now (releases h) s b v = release-Bounded h s b
    step-Bounded now sweeps s b v = sweep_locked-Bounded now s b
    step-Bounded now (rotates k) s b v = record {
      total_is = b.total_is;
      each_is = b.each_is;
      few = b.few;
      few_each = b.few_each;
    }

    run-Bounded :
        (cs : List (ℕ × Call)) (s : Store)
        → Bounded total each s
        → Inv s
        → Inv (run d cs s) × Bounded total each (run d cs s)
    unfolding run
    run-Bounded [] s b v = (v, b)
    run-Bounded ((now, c) ∷ cs) s b v =
        run-Bounded cs (step d now c s) (step-Bounded now c s b v) (step-Inv d now c s v)

-- From an empty table, whatever is called and at whatever times, the counters agree with the
-- records, and there are at most `max_records` records and `max_per_subject` of any one subject,
-- with the documented defaults for an option of 0.
pub run-new_store :
    (d : Digest) (k : Keyring) (o : Options) (cs : List (ℕ × Call))
    → let s = run d cs (new_store k o) in
      Inv s
      × Bounded
          (or_default default_max_records o.max_records)
          (or_default default_max_per_subject o.max_per_subject)
          s
unfolding new_store count
run-new_store d k o cs =
    run-Bounded (or_default default_max_records o.max_records)
      (or_default default_max_per_subject o.max_per_subject) d cs (new_store k o)
      (record { total_is = refl; each_is = refl; few = omega arith; few_each = λ j. omega arith })
      (new_store-Inv k o)
