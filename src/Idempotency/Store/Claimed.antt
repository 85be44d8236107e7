-- ===== src/Idempotency/Store/Claimed.antt =====
-- The record that a new request leaves, and what a later call does at it
-- (ui/backend/internal/idempotency/store.go).
use ldapium.Prelude.{
  ℕ, ◌<◌, ◌≡◌, refl, subst, ◌≢◌, All, Bool, true, false, Option, none, some, List, [], ◌∷◌, arith,
  if◌then◌else◌,
}
use ldapium.Prelude.Bytes.{Bytes}
use ldapium.Prelude.Eq.{nat_eq, bytes_eq, bytes_beq_iff}
use ldapium.Prelude.Assoc.{lookup, lookup-put}
use ldapium.Idempotency.Keyring.{Digest, Keyring, hash_hex, key_hash, fingerprint}
use ldapium.Idempotency.Store.{
  Store, Entry, Handle, Result, Call, is_expired, judge, kind_new, kind_replay, kind_capacity,
  remove_locked, sweep_from, sweep_locked, is_full, new_entry, insert, claim, begin_found, begin,
}
use ldapium.Idempotency.Keyring.{mac}
use ldapium.Idempotency.Store.AtMostOnce.{Spares, finishes}

sweep_from-keys :
    (now : ℕ) (m : List (Bytes × Entry)) (s : Store) → (sweep_from now m s).keys ≡ s.keys
unfolding sweep_from remove_locked
sweep_from-keys now [] s = refl
sweep_from-keys now ((id, e) ∷ m) s =
    ground (arith, sweep_from-keys now m (if is_expired now e then remove_locked id e s else s))

sweep_locked-keys : (now : ℕ) (s : Store) → (sweep_locked now s).keys ≡ s.keys
unfolding sweep_locked
sweep_locked-keys now s = sweep_from-keys now s.recs s

-- The handle's record is in the table, in flight, with the fingerprint of the request.
abbrev pub Claimed : Digest → Bytes → List Bytes → Keyring → Handle → Store → Type 0
Claimed d id parts keys h s =
    (e : Entry) × (lookup id s.recs ≡ some e)
    × (h ≡ record { id = id; ref = e.ref })
    × (e.completed ≡ false)
    × (e.fp ≡ mac d keys.current.key parts)
    × (e.key_id ≡ keys.current.id)

pub Spares-in_flight :
    (h : Handle) (e : Entry) (cs : List (ℕ × Call))
    → e.completed ≡ false
    → All (λ c. finishes h c.1 ≡ false) cs
    → Spares h e cs
Spares-in_flight h e [] open_ q = tt
Spares-in_flight h e (c ∷ cs) open_ q = ((ground arith, q.0), Spares-in_flight h e cs open_ q.1)

pub Spares-before :
    (h : Handle) (e : Entry) (cs : List (ℕ × Call))
    → All (λ c. (c.0 < e.expires) × (finishes h c.1 ≡ false)) cs
    → Spares h e cs
Spares-before h e [] q = tt
Spares-before h e (c ∷ cs) q = ((ground arith, q.0.1), Spares-before h e cs q.1)

module _ (d : Digest) where
  insert-Claimed :
      (id subj : Bytes) (parts : List Bytes) (s : Store) (h : Handle)
      → (insert d id subj parts s).0 ≡ kind_new h
      → Claimed d id parts s.keys h (insert d id subj parts s).1
  unfolding insert fingerprint
  insert-Claimed id subj parts s h p = (
    new_entry d subj parts s,
    ground (arith, lookup-put id id (new_entry d subj parts s) s.recs, bytes_beq_iff id id),
    ground arith,
    refl,
    refl,
    refl,
  )

  claim-Claimed :
      (now : ℕ) (id subj : Bytes) (parts : List Bytes) (s : Store) (h : Handle)
      → (claim d now id subj parts s).0 ≡ kind_new h
      → Claimed d id parts s.keys h (claim d now id subj parts s).1
  unfolding claim
  claim-Claimed now id subj parts s h = choose (is_full subj s) (is_full subj (sweep_locked now s))
    where
      swept : Store
      swept = sweep_locked now s

      after :
          (insert d id subj parts swept).0 ≡ kind_new h
          → Claimed d id parts s.keys h (insert d id subj parts swept).1
      after p =
          subst (λ (k : Keyring). Claimed d id parts k h (insert d id subj parts swept).1)
            (sweep_locked-keys now s) (insert-Claimed id subj parts swept h p)

      choose :
          (a b : Bool)
          → (if a
              then if b then (kind_capacity, swept) else insert d id subj parts swept
              else insert d id subj parts s).0
            ≡ kind_new h
          → Claimed d id parts s.keys h
              (if a
                then if b then (kind_capacity, swept) else insert d id subj parts swept
                else insert d id subj parts s).1
      choose true true p = cc
      choose true false p = after p
      choose false b p = insert-Claimed id subj parts s h p

  pub judge-not-new :
      (s : Store) (e : Entry) (parts : List Bytes) (h : Handle) → judge d s e parts ≢ kind_new h
  unfolding judge
  judge-not-new s e parts h p = ground arith

  pub judge-in_flight :
      (s : Store) (e : Entry) (parts : List Bytes) (r : Result)
      → e.completed ≡ false
      → judge d s e parts ≢ kind_replay r
  unfolding judge
  judge-in_flight s e parts r c p = ground arith

  pub begin-at_record :
      (now : ℕ) (subject key : Bytes) (parts : List Bytes) (s : Store) (e : Entry)
      → lookup (key_hash d subject key) s.recs ≡ some e
      → is_expired now e ≡ false
      → begin d now subject key parts s ≡ (judge d s e parts, s)
  unfolding begin
  begin-at_record now subject key parts s e p x = rw (p, begin_found, x)

  pub begin-Claimed :
      (now : ℕ) (subject key : Bytes) (parts : List Bytes) (s : Store) (h : Handle)
      → (begin d now subject key parts s).0 ≡ kind_new h
      → Claimed d (key_hash d subject key) parts s.keys h (begin d now subject key parts s).1
  unfolding begin remove_locked
  begin-Claimed now subject key parts s h = at_record (lookup (key_hash d subject key) s.recs)
    where
      id : Bytes
      id = key_hash d subject key

      subj : Bytes
      subj = hash_hex d (subject ∷ [])

      at_record :
          (o : Option Entry)
          → (begin_found d now id subj parts s o).0 ≡ kind_new h
          → Claimed d id parts s.keys h (begin_found d now id subj parts s o).1
      at_record none p = claim-Claimed now id subj parts s h p
      at_record (some e) p = expired_or (is_expired now e) p
        where
          expired_or :
              (b : Bool)
              → (if b
                  then claim d now id subj parts (remove_locked id e s)
                  else (judge d s e parts, s)).0
                ≡ kind_new h
              → Claimed d id parts s.keys h
                  (if b
                    then claim d now id subj parts (remove_locked id e s)
                    else (judge d s e parts, s)).1
          expired_or true q = claim-Claimed now id subj parts (remove_locked id e s) h q
          expired_or false q = absurd (judge-not-new s e parts h q)
