-- ===== src/Idempotency/Store/Counts.antt =====
-- The per-subject counters agree with the records (ui/backend/internal/idempotency/store.go).
use ldapium.Prelude.{
  ℕ, ◌+◌, ◌-◌, ◌<◌, ◌≡◌, refl, Bool, true, false, Option, none, some, List, [], ◌∷◌, arith, or_else,
  if◌then◌else◌, Option-cases, inl, inr,
}
use ldapium.Prelude.Bytes.{Bytes}
use ldapium.Prelude.Eq.{nat_eq, bytes_eq, ◌==◌, bytes_beq_iff}
use ldapium.Prelude.Assoc.{
  lookup, put, count, IsMap, lookup-put, lookup-delete, put-IsMap, delete-IsMap, count-put_new,
  count-put_old, count-delete,
}
use ldapium.Idempotency.Keyring.{Digest, Keyring, hash_hex, key_hash}
use ldapium.Idempotency.Store.Sweep.{held_lem, lookup-sweep_locked, remove_locked_free}
use ldapium.Idempotency.Store.{
  Store, Entry, Handle, Options, Result, Call, begins, completes, releases, sweeps, rotates,
  is_expired, new_store, set_keyring, decrement, remove_locked, sweep_from, sweep_locked, new_entry,
  finished, insert, claim, begin_found, begin, held, complete, release, sweep, step, run,
}

abbrev pub of_subject : Bytes → Entry → Bool
of_subject subj e = e.subj == subj

abbrev pub counter : Bytes → Store → ℕ
counter subj s = or_else 0 (lookup subj s.per_subject)

pub record Inv (s : Store) : Type 0 where
  pub recs_map : IsMap s.recs
  pub subjects_map : IsMap s.per_subject
  pub counted : (subj : Bytes) → counter subj s ≡ count (of_subject subj) s.recs
  pub positive : (subj : Bytes) (n : ℕ) → lookup subj s.per_subject ≡ some n → 0 < n

pub new_store-Inv : (k : Keyring) (o : Options) → Inv (new_store k o)
unfolding new_store lookup count
new_store-Inv k o = record {
  recs_map = tt;
  subjects_map = tt;
  counted = λ subj. refl;
  positive = λ subj n h. cc;
}

decrement-IsMap : (subj : Bytes) (m : List (Bytes × ℕ)) → IsMap m → IsMap (decrement subj m)
unfolding decrement
decrement-IsMap subj m h =
    ground (arith, delete-IsMap subj m h, put-IsMap subj (or_else 0 (lookup subj m) - 1) m h)

lookup-decrement :
    (subj j : Bytes) (m : List (Bytes × ℕ))
    → or_else 0 (lookup j (decrement subj m))
      ≡ (if subj == j then or_else 0 (lookup subj m) - 1 else or_else 0 (lookup j m))
unfolding decrement
lookup-decrement subj j m =
    ground (arith, lookup-delete subj j m, lookup-put subj j (or_else 0 (lookup subj m) - 1) m)

decrement_positive :
    (subj j : Bytes) (m : List (Bytes × ℕ)) (k : ℕ)
    → ((n : ℕ) → lookup j m ≡ some n → 0 < n)
    → lookup j (decrement subj m) ≡ some k
    → 0 < k
unfolding decrement
decrement_positive subj j m k pos h =
    ground
      (arith, lookup-delete subj j m, lookup-put subj j (or_else 0 (lookup subj m) - 1) m, pos k)

pub remove_locked-Inv :
    (id : Bytes) (e : Entry) (s : Store)
    → Inv s
    → lookup id s.recs ≡ some e
    → Inv (remove_locked id e s)
unfolding remove_locked
remove_locked-Inv id e s v h = record {
  recs_map = delete-IsMap id s.recs v.recs_map;
  subjects_map = decrement-IsMap e.subj s.per_subject v.subjects_map;
  counted = λ j. ground (
    arith,
    lookup-decrement e.subj j s.per_subject,
    count-delete (of_subject j) id e s.recs v.recs_map h,
    bytes_beq_iff e.subj j,
    v.counted j,
    v.counted e.subj,
  );
  positive = λ j n. decrement_positive e.subj j s.per_subject n (v.positive j);
}

-- What is still to be visited is still in the table.
abbrev pub Remains : List (Bytes × Entry) → Store → Type 0
Remains m s = (id : Bytes) (e : Entry) → lookup id m ≡ some e → lookup id s.recs ≡ some e

Remains-head :
    (id : Bytes) (e : Entry) (m : List (Bytes × Entry)) (s : Store)
    → Remains ((id, e) ∷ m) s
    → lookup id s.recs ≡ some e
unfolding lookup
Remains-head id e m s r = r id e (ground (arith, bytes_beq_iff id id))

Remains-tail :
    (now : ℕ) (id : Bytes) (e : Entry) (m : List (Bytes × Entry)) (s : Store)
    → IsMap ((id, e) ∷ m)
    → Remains ((id, e) ∷ m) s
    → Remains m (if is_expired now e then remove_locked id e s else s)
unfolding lookup remove_locked
Remains-tail now id e m s d r j x h =
    ground (arith, bytes_beq_iff id j, lookup-delete id j s.recs, r j x)

sweep_from-Inv :
    (now : ℕ) (m : List (Bytes × Entry)) (s : Store)
    → IsMap m
    → Remains m s
    → Inv s
    → Inv (sweep_from now m s)
unfolding sweep_from
sweep_from-Inv now [] s d r v = v
sweep_from-Inv now ((id, e) ∷ m) s d r v =
    sweep_from-Inv now m (if is_expired now e then remove_locked id e s else s) d.1
      (Remains-tail now id e m s d r) (kept (is_expired now e))
  where
    kept : (b : Bool) → Inv (if b then remove_locked id e s else s)
    kept true = remove_locked-Inv id e s v (Remains-head id e m s r)
    kept false = v

pub sweep_locked-Inv : (now : ℕ) (s : Store) → Inv s → Inv (sweep_locked now s)
unfolding sweep_locked
sweep_locked-Inv now s v = sweep_from-Inv now s.recs s v.recs_map (λ id e h. h) v

module _ (d : Digest) where
  pub insert-Inv :
      (id subj : Bytes) (parts : List Bytes) (s : Store)
      → Inv s
      → lookup id s.recs ≡ none
      → Inv (insert d id subj parts s).1
  unfolding insert
  insert-Inv id subj parts s v h = record {
    recs_map = put-IsMap id _ s.recs v.recs_map;
    subjects_map = put-IsMap subj _ s.per_subject v.subjects_map;
    counted = λ j. ground (
      arith,
      lookup-put subj j (counter subj s + 1) s.per_subject,
      count-put_new (of_subject j) id (new_entry d subj parts s) s.recs h,
      bytes_beq_iff subj j,
      v.counted j,
      v.counted subj,
    );
    positive = λ j n p.
        ground (arith, lookup-put subj j (counter subj s + 1) s.per_subject, v.positive j n);
  }

pub complete-Inv :
    (now : ℕ) (h : Handle) (r : Result) (s : Store) → Inv s → Inv (complete now h r s)
unfolding complete
complete-Inv now h r s v = elim (Option-cases (held h s)) [
  | inl e ↦ rw (e, complete) v
  | inr (x, e) ↦ rw (e, complete) (written x (held_lem h s x e).0)
]
  where
    written :
        (x : Entry)
        → lookup h.id s.recs ≡ some x
        → Inv (record s { recs = put h.id (finished now r s x) s.recs })
    written x p = record {
      recs_map = put-IsMap h.id (finished now r s x) s.recs v.recs_map;
      subjects_map = v.subjects_map;
      counted = λ j.
          ground
            (arith, count-put_old (of_subject j) h.id (finished now r s x) x s.recs p, v.counted j);
      positive = v.positive;
    }

pub release-Inv : (h : Handle) (s : Store) → Inv s → Inv (release h s)
unfolding release
release-Inv h s v = elim (Option-cases (held h s)) [
  | inl e ↦ rw (e, release) v
  | inr (x, e) ↦ rw (e, release) (remove_locked-Inv h.id x s v (held_lem h s x e).0)
]

module _ (d : Digest) where
  pub claim-Inv :
      (now : ℕ) (id subj : Bytes) (parts : List Bytes) (s : Store)
      → Inv s
      → lookup id s.recs ≡ none
      → Inv (claim d now id subj parts s).1
  unfolding claim
  claim-Inv now id subj parts s v h =
      let swept = sweep_locked-Inv now s v in
      ground (
        arith,
        v,
        swept,
        insert-Inv d id subj parts s v h,
        insert-Inv d id subj parts (sweep_locked now s) swept,
        lookup-sweep_locked now s id v.recs_map,
      )

  pub begin-Inv :
      (now : ℕ) (subject key : Bytes) (parts : List Bytes) (s : Store)
      → Inv s
      → Inv (begin d now subject key parts s).1
  unfolding begin
  begin-Inv now subject key parts s v = at_record (lookup id s.recs) refl
    where
      id : Bytes
      id = key_hash d subject key

      at_record :
          (o : Option Entry)
          → lookup id s.recs ≡ o
          → Inv (begin_found d now id (hash_hex d (subject ∷ [])) parts s o).1
      at_record none h = claim-Inv now id (hash_hex d (subject ∷ [])) parts s v h
      at_record (some e) h = ground (
        arith,
        v,
        claim-Inv now id (hash_hex d (subject ∷ [])) parts (remove_locked id e s)
            (remove_locked-Inv id e s v h) (remove_locked_free id e s),
      )

  -- Every method, at any time, keeps the table a map in which each subject's counter is the number
  -- of its records, and no counter is left at zero.
  pub step-Inv : (now : ℕ) (c : Call) (s : Store) → Inv s → Inv (step d now c s)
  unfolding step sweep set_keyring
  step-Inv now (begins subject key parts) s v = begin-Inv now subject key parts s v
  step-Inv now (completes h r) s v = complete-Inv now h r s v
  step-Inv now (releases h) s v = release-Inv h s v
  step-Inv now sweeps s v = sweep_locked-Inv now s v
  step-Inv now (rotates k) s v = record {
    recs_map = v.recs_map;
    subjects_map = v.subjects_map;
    counted = v.counted;
    positive = v.positive;
  }

  pub run-Inv : (cs : List (ℕ × Call)) (s : Store) → Inv s → Inv (run d cs s)
  unfolding run
  run-Inv [] s v = v
  run-Inv ((now, c) ∷ cs) s v = run-Inv cs (step d now c s) (step-Inv now c s v)
