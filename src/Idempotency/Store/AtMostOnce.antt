-- ===== src/Idempotency/Store/AtMostOnce.antt =====
-- A key that a request has claimed is not claimed again (ui/backend/internal/idempotency/store.go).
use ldapium.Prelude.{
  ℕ, ◌≡◌, refl, sym, ◌∙◌, ◌≢◌, ◌&&◌, All, Bool, true, false, Option, none, some, List, [], ◌∷◌,
  arith, or_else, ap, Bool-cases, Option-cases, inl, inr,
}
use ldapium.Prelude.Bytes.{Bytes}
use ldapium.Prelude.Eq.{nat_eq, bytes_eq, ◌==◌, bytes_beq_iff}
use ldapium.Prelude.Assoc.{lookup, IsMap, lookup-put, lookup-delete}
use ldapium.Idempotency.Keyring.{Digest, hash_hex, key_hash}
use ldapium.Idempotency.Store.Sweep.{lookup-sweep_locked}
use ldapium.Idempotency.Store.{
  Store, Entry, Handle, Result, Call, begins, completes, releases, sweeps, rotates, is_expired,
  set_keyring, remove_locked, sweep_locked, new_entry, finished, insert, claim, begin_found, begin,
  held, complete, release, sweep, step, run,
}
use ldapium.Idempotency.Store.Counts.{Inv, step-Inv, remove_locked-Inv}

-- The call that finishes a handle: `Complete` or `Release` on it.
abbrev pub same_handle : Handle → Handle → Bool
same_handle h g = (h.id == g.id) && (h.ref == g.ref)

abbrev pub finishes : Handle → Call → Bool
finishes h (completes g r) = same_handle h g
finishes h (releases g) = same_handle h g
finishes h (begins subject key parts) = false
finishes h sweeps = false
finishes h (rotates k) = false

-- None of the calls finishes the handle, or comes when its record has expired.
abbrev pub Spares : Handle → Entry → List (ℕ × Call) → Type 0
Spares h e = All (λ c. (is_expired c.0 e ≡ false) × (finishes h c.1 ≡ false))

expired_apart :
    (now : ℕ) (i j : Bytes) (f e : Entry) (m : List (Bytes × Entry))
    → lookup i m ≡ some f
    → lookup j m ≡ some e
    → is_expired now f ≡ true
    → is_expired now e ≡ false
    → i ≢ j
expired_apart now i j f e m p h old fresh same =
    let one : some f ≡ some e = sym p ∙ ap (λ (k : Bytes). lookup k m) same ∙ h in
    let both : is_expired now f ≡ is_expired now e =
      ap (λ (o : Option Entry). is_expired now (or_else f o)) one in
    cc (both, old, fresh)

lookup-remove_locked :
    (id j : Bytes) (f : Entry) (s : Store)
    → id ≢ j
    → lookup j (remove_locked id f s).recs ≡ lookup j s.recs
unfolding remove_locked
lookup-remove_locked id j f s ne = ground (arith, lookup-delete id j s.recs, bytes_beq_iff id j)

module _ (d : Digest) where
  claim_stays :
      (now : ℕ) (id subj : Bytes) (parts : List Bytes) (s : Store) (j : Bytes) (e : Entry)
      → IsMap s.recs
      → lookup j s.recs ≡ some e
      → is_expired now e ≡ false
      → id ≢ j
      → lookup j (claim d now id subj parts s).1.recs ≡ some e
  unfolding claim insert
  claim_stays now id subj parts s j e m h x ne = ground (
    arith,
    lookup-sweep_locked now s j m,
    lookup-put id j (new_entry d subj parts s) s.recs,
    lookup-put id j (new_entry d subj parts (sweep_locked now s)) (sweep_locked now s).recs,
    bytes_beq_iff id j,
  )

  begin_stays :
      (now : ℕ) (subject key : Bytes) (parts : List Bytes) (s : Store) (j : Bytes) (e : Entry)
      → Inv s
      → lookup j s.recs ≡ some e
      → is_expired now e ≡ false
      → lookup j (begin d now subject key parts s).1.recs ≡ some e
  unfolding begin
  begin_stays now subject key parts s j e v h x = at_record (lookup id s.recs) refl
    where
      id : Bytes
      id = key_hash d subject key

      at_record :
          (o : Option Entry)
          → lookup id s.recs ≡ o
          → lookup j (begin_found d now id (hash_hex d (subject ∷ [])) parts s o).1.recs ≡ some e
      at_record none p =
          claim_stays now id (hash_hex d (subject ∷ [])) parts s j e v.recs_map h x (λ same. cc)
      at_record (some f) p = elim (Bool-cases (is_expired now f)) [
        | inr fresh ↦ rw fresh h
        | inl old ↦
            let ne = expired_apart now id j f e s.recs p h old x in
            rw old (
              claim_stays now id (hash_hex d (subject ∷ [])) parts (remove_locked id f s) j e
                (remove_locked-Inv id f s v p).recs_map (lookup-remove_locked id j f s ne ∙ h) x ne)
      ]

  complete_stays :
      (now : ℕ) (g : Handle) (r : Result) (s : Store) (j : Bytes) (e : Entry)
      → lookup j s.recs ≡ some e
      → same_handle (record { id = j; ref = e.ref }) g ≡ false
      → lookup j (complete now g r s).recs ≡ some e
  unfolding complete held
  complete_stays now g r s j e h f = elim (Option-cases (lookup g.id s.recs)) [
    | inl p ↦ rw (p, complete, held) h
    | inr (x, p) ↦ ground (
      arith,
      p,
      lookup-put g.id j (finished now r s x) s.recs,
      bytes_beq_iff g.id j,
      bytes_beq_iff j g.id,
      ap (λ (i : Bytes). lookup i s.recs),
    )
  ]

  release_stays :
      (g : Handle) (s : Store) (j : Bytes) (e : Entry)
      → lookup j s.recs ≡ some e
      → same_handle (record { id = j; ref = e.ref }) g ≡ false
      → lookup j (release g s).recs ≡ some e
  unfolding release held remove_locked
  release_stays g s j e h f = elim (Option-cases (lookup g.id s.recs)) [
    | inl p ↦ rw (p, release, held) h
    | inr (x, p) ↦
        ground (arith, p, lookup-delete g.id j s.recs, bytes_beq_iff g.id j, bytes_beq_iff j g.id)
  ]

  step_stays :
      (now : ℕ) (c : Call) (s : Store) (j : Bytes) (e : Entry)
      → Inv s
      → lookup j s.recs ≡ some e
      → is_expired now e ≡ false
      → finishes (record { id = j; ref = e.ref }) c ≡ false
      → lookup j (step d now c s).recs ≡ some e
  unfolding step sweep set_keyring
  step_stays now (begins subject key parts) s j e v h x f =
      begin_stays now subject key parts s j e v h x
  step_stays now (completes g r) s j e v h x f = complete_stays now g r s j e h f
  step_stays now (releases g) s j e v h x f = release_stays g s j e h f
  step_stays now sweeps s j e v h x f = ground (arith, lookup-sweep_locked now s j v.recs_map)
  step_stays now (rotates k) s j e v h x f = h

  -- A record stays where it is through any calls that spare it.
  pub run_stays :
      (cs : List (ℕ × Call)) (s : Store) (j : Bytes) (e : Entry)
      → Inv s
      → lookup j s.recs ≡ some e
      → Spares (record { id = j; ref = e.ref }) e cs
      → lookup j (run d cs s).recs ≡ some e
  unfolding run
  run_stays [] s j e v h x = h
  run_stays ((now, c) ∷ cs) s j e v h x =
      run_stays cs (step d now c s) j e (step-Inv d now c s v)
        (step_stays now c s j e v h x.0.0 x.0.1) x.1
