-- ===== src/Idempotency/Store.antt =====
-- ui/backend/internal/idempotency/store.go: the process-local record table. Each method runs under
-- the store's mutex, so it is one step; the clock's value is an argument of each step.
-- A record is a pointer in Go: `ref` is its address, taken from a counter of allocations.
-- Times and durations are nanoseconds; a duration of 0 stands for any that is not positive.
pub mod Sweep
pub mod Counts
pub mod Bounds
pub mod AtMostOnce
pub mod Claimed
pub mod Replay
use ldapium.Prelude.{
  ℕ, suc, ◌+◌, ◌-◌, ◌*◌, Bool, true, false, ◌&&◌, ◌||◌, Option, none, some, List, [], ◌∷◌, leb,
  or_else, if◌then◌else◌, length,
}
use ldapium.Prelude.Bytes.{Bytes}
use ldapium.Prelude.Eq.{nat_eq, bytes_eq, ◌==◌}
use ldapium.Prelude.Assoc.{lookup, put, delete}
use ldapium.Idempotency.Keyring.{
  Digest, Keyring, Verdict, verdict_same, verdict_different, verdict_unknown_key, hash_hex,
  key_hash, fingerprint, verify,
}

abbrev pub hour : ℕ
hour = 3600 * 1000000000

abbrev pub default_ttl : ℕ
default_ttl = 24 * hour

abbrev pub default_max_records : ℕ
default_max_records = 10000

abbrev pub default_max_per_subject : ℕ
default_max_per_subject = 1000

pub record Result : Type 0 where
  pub status : ℕ
  pub location : Bytes
  pub body : Bytes
  pub envelope : Bool

pub record Options : Type 0 where
  pub ttl : ℕ
  pub max_records : ℕ
  pub max_per_subject : ℕ

pub record Entry : Type 0 where
  pub ref : ℕ
  pub subj : Bytes
  pub fp : Bytes
  pub key_id : Bytes
  pub completed : Bool
  pub result : Result
  pub expires : ℕ

pub record Store : Type 0 where
  pub keys : Keyring
  pub ttl : ℕ
  pub max_total : ℕ
  pub max_subject : ℕ
  pub recs : List (Bytes × Entry)
  pub per_subject : List (Bytes × ℕ)
  pub next_ref : ℕ

pub record Handle : Type 0 where
  pub id : Bytes
  pub ref : ℕ

-- `Kind`, with the part of `Decision` that is set for it.
pub data Decision : Type 0 where
  kind_new : Handle → Decision
  kind_replay : Result → Decision
  kind_conflict kind_reused kind_unknown_key kind_capacity : Decision

abbrev pub or_default : ℕ → ℕ → ℕ
or_default d n = if n == 0 then d else n

unfoldable pub new_store : Keyring → Options → Store
new_store keys o = record {
  keys = keys;
  ttl = or_default default_ttl o.ttl;
  max_total = or_default default_max_records o.max_records;
  max_subject = or_default default_max_per_subject o.max_per_subject;
  recs = [];
  per_subject = [];
  next_ref = 0;
}

unfoldable pub set_keyring : Keyring → Store → Store
set_keyring k s = record s { keys = k }

-- e.completed && !now.Before(e.expires)
abbrev pub is_expired : ℕ → Entry → Bool
is_expired now e = e.completed && leb e.expires now

-- `s.perSubject[subj]--`, and the entry goes when nothing is left.
unfoldable pub decrement : Bytes → List (Bytes × ℕ) → List (Bytes × ℕ)
decrement subj m =
    let n = or_else 0 (lookup subj m) in if leb n 1 then delete subj m else put subj (n - 1) m

unfoldable pub remove_locked : Bytes → Entry → Store → Store
remove_locked id e s = record s {
  recs = delete id s.recs;
  per_subject = decrement e.subj s.per_subject;
}

-- The loop of `sweepLocked`, over the entries that it still has to visit.
unfoldable pub sweep_from : ℕ → List (Bytes × Entry) → Store → Store
sweep_from now [] s = s
sweep_from now ((id, e) ∷ rest) s =
    sweep_from now rest (if is_expired now e then remove_locked id e s else s)

unfoldable pub sweep_locked : ℕ → Store → Store
unfolding sweep_from
sweep_locked now s = sweep_from now s.recs s

-- len(s.recs) >= s.maxTotal || s.perSubject[subj] >= s.maxSubject
unfoldable pub is_full : Bytes → Store → Bool
is_full subj s =
    leb s.max_total (length s.recs) || leb s.max_subject (or_else 0 (lookup subj s.per_subject))

abbrev pub no_result : Result
no_result = record { status = 0; location = []; body = []; envelope = false }

module _ (d : Digest) where
  abbrev pub new_entry : Bytes → List Bytes → Store → Entry
  new_entry subj parts s =
      let (fp, key_id) = fingerprint d s.keys parts in
      record {
        ref = s.next_ref;
        subj = subj;
        fp = fp;
        key_id = key_id;
        completed = false;
        result = no_result;
        expires = 0;
      }

  unfoldable pub insert : Bytes → Bytes → List Bytes → Store → Decision × Store
  insert id subj parts s = (
    kind_new (record { id = id; ref = s.next_ref }),
    record s {
      recs = put id (new_entry subj parts s) s.recs;
      per_subject = put subj (or_else 0 (lookup subj s.per_subject) + 1) s.per_subject;
      next_ref = suc s.next_ref;
    },
  )

  -- `Begin` from the computation of `subj` on: the key is free.
  unfoldable pub claim : ℕ → Bytes → Bytes → List Bytes → Store → Decision × Store
  claim now id subj parts s =
      let swept = sweep_locked now s in
      if is_full subj s
      then if is_full subj swept then (kind_capacity, swept) else insert id subj parts swept
      else insert id subj parts s

  -- The answer from a record that has not expired.
  unfoldable pub judge : Store → Entry → List Bytes → Decision
  judge s e parts = elim (verify d s.keys e.key_id e.fp parts) [
    | verdict_unknown_key ↦ kind_unknown_key
    | verdict_different ↦ kind_reused
    | verdict_same ↦ if e.completed then kind_replay e.result else kind_conflict
  ]

  unfoldable pub begin_found :
      ℕ → Bytes → Bytes → List Bytes → Store → Option Entry → Decision × Store
  begin_found now id subj parts s none = claim now id subj parts s
  begin_found now id subj parts s (some e) =
      if is_expired now e
      then claim now id subj parts (remove_locked id e s)
      else (judge s e parts, s)

  unfoldable pub begin : ℕ → Bytes → Bytes → List Bytes → Store → Decision × Store
  unfolding begin_found
  begin now subject key parts s =
      begin_found now (key_hash d subject key) (hash_hex d (subject ∷ [])) parts s
        (lookup (key_hash d subject key) s.recs)

-- `h.s.recs[h.id] == h.rec`: the record at the key, if it is the handle's.
unfoldable pub held : Handle → Store → Option Entry
held h s = elim (lookup h.id s.recs) [
  | none ↦ none
  | some e ↦ if e.ref == h.ref then some e else none
]

abbrev pub finished : ℕ → Result → Store → Entry → Entry
finished now r s e = record e { completed = true; result = r; expires = now + s.ttl }

unfoldable pub complete : ℕ → Handle → Result → Store → Store
unfolding held
complete now h r s = elim (held h s) [
  | none ↦ s
  | some e ↦ record s { recs = put h.id (finished now r s e) s.recs }
]

unfoldable pub release : Handle → Store → Store
unfolding held
release h s = elim (held h s) [ none ↦ s | some e ↦ remove_locked h.id e s ]

-- `Sweep` and `Len`.
unfoldable pub sweep : ℕ → Store → Store
sweep now s = sweep_locked now s

unfoldable pub len : Store → ℕ
len s = length s.recs

-- What a caller can do to the table, at a time.
pub data Call : Type 0 where
  begins : Bytes → Bytes → List Bytes → Call
  completes : Handle → Result → Call
  releases : Handle → Call
  sweeps : Call
  rotates : Keyring → Call

unfoldable pub step : Digest → ℕ → Call → Store → Store
step d now (begins subject key parts) s = (begin d now subject key parts s).1
step d now (completes h r) s = complete now h r s
step d now (releases h) s = release h s
step d now sweeps s = sweep now s
step d now (rotates k) s = set_keyring k s

unfoldable pub run : Digest → List (ℕ × Call) → Store → Store
unfolding step
run d [] s = s
run d ((now, c) ∷ cs) s = run d cs (step d now c s)
