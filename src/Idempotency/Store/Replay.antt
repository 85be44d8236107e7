-- ===== src/Idempotency/Store/Replay.antt =====
-- One execution and its replays (ui/backend/internal/idempotency/store.go).
use ldapium.Prelude.{
  ℕ, ◌+◌, ◌<◌, ◌≡◌, refl, sym, subst, ◌∙◌, ◌≢◌, All, true, false, some, List, arith, ap,
}
use ldapium.Prelude.Bytes.{Bytes}
use ldapium.Prelude.Eq.{nat_eq, bytes_eq, bytes_beq_iff}
use ldapium.Prelude.Assoc.{lookup, lookup-put}
use ldapium.Idempotency.Keyring.{Digest, Keyring, key_hash}
use ldapium.Idempotency.Store.{
  Store, Entry, Handle, Result, Call, is_expired, judge, kind_new, kind_replay, kind_reused,
  Decision, finished, begin, held, complete, run,
}
use ldapium.Idempotency.Store.Counts.{Inv, run-Inv, begin-Inv, complete-Inv}
use ldapium.Idempotency.Keyring.{verify, mac}
use ldapium.Idempotency.Store.AtMostOnce.{Spares, run_stays, finishes}
use ldapium.Idempotency.Store.Claimed.{
  Spares-in_flight, Spares-before, judge-not-new, judge-in_flight, begin-at_record, begin-Claimed,
}

module _ (d : Digest) where
  -- Once a request has been told to execute, then until its handle is finished, whatever else is
  -- called and whenever, no request with that subject and key is told to execute or is given a
  -- result, and its call changes nothing.
  pub at_most_once :
      (now : ℕ) (subject key : Bytes) (parts : List Bytes) (s : Store) (h : Handle)
      → Inv s
      → (begin d now subject key parts s).0 ≡ kind_new h
      → (cs : List (ℕ × Call)) → All (λ c. finishes h c.1 ≡ false) cs
      → (later : ℕ) (other : List Bytes)
      → let s' = run d cs (begin d now subject key parts s).1 in
        ((g : Handle) → (begin d later subject key other s').0 ≢ kind_new g)
        × ((r : Result) → (begin d later subject key other s').0 ≢ kind_replay r)
        × ((begin d later subject key other s').1 ≡ s')
  at_most_once now subject key parts s h v p cs quiet later other =
      let (e, at, mine, open_, _, _) = begin-Claimed d now subject key parts s h p in
      let s1 = (begin d now subject key parts s).1 in
      let spared =
        subst (λ (g : Handle). Spares g e cs) mine (Spares-in_flight h e cs open_ quiet) in
      let still =
        run_stays d cs s1 (key_hash d subject key) e (begin-Inv d now subject key parts s v) at
          spared in
      let answer = begin-at_record d later subject key other (run d cs s1) e still (ground arith) in
      (
        λ g new. judge-not-new d (run d cs s1) e other g (cc (answer, new)),
        λ r replay. judge-in_flight d (run d cs s1) e other r open_ (cc (answer, replay)),
        cc answer,
      )

  -- A fingerprint is verified, as the same request, by the ring that made it.
  judge_same :
      (s : Store) (e : Entry) (parts : List Bytes)
      → e.completed ≡ true
      → e.fp ≡ mac d s.keys.current.key parts
      → e.key_id ≡ s.keys.current.id
      → judge d s e parts ≡ kind_replay e.result
  unfolding judge verify
  judge_same s e parts c f k = ground (
    arith,
    bytes_beq_iff e.key_id s.keys.current.id,
    bytes_beq_iff e.fp (mac d s.keys.current.key parts),
  )

  complete_lem :
      (now : ℕ) (id : Bytes) (r : Result) (s : Store) (e : Entry)
      → lookup id s.recs ≡ some e
      → lookup id (complete now (record { id = id; ref = e.ref }) r s).recs
        ≡ some (finished now r s e)
  unfolding complete held
  complete_lem now id r s e p =
      ground (arith, lookup-put id id (finished now r s e) s.recs, bytes_beq_iff id id)

  judge_different :
      (s : Store) (e : Entry) (parts : List Bytes)
      → e.fp ≢ mac d s.keys.current.key parts
      → e.key_id ≡ s.keys.current.id
      → judge d s e parts ≡ kind_reused
  unfolding judge verify
  judge_different s e parts f k = ground (
    arith,
    bytes_beq_iff e.key_id s.keys.current.id,
    bytes_beq_iff e.fp (mac d s.keys.current.key parts),
  )

  -- The record of a request that was told to execute and completed, with other calls between and
  -- after, before it expires.
  pub record Finished (s s' : Store) (id : Bytes) (parts : List Bytes) (later : ℕ) (r : Result)
      : Type 0 where
    pub entry : Entry
    pub at : lookup id s'.recs ≡ some entry
    pub lives : is_expired later entry ≡ false
    pub done : entry.completed ≡ true
    pub holds : entry.result ≡ r
    pub fp : entry.fp ≡ mac d s.keys.current.key parts
    pub key_id : entry.key_id ≡ s.keys.current.id

  complete-Finished :
      (now : ℕ) (subject key : Bytes) (parts : List Bytes) (s : Store) (h : Handle)
      → Inv s
      → (begin d now subject key parts s).0 ≡ kind_new h
      → (before after : List (ℕ × Call)) (done later : ℕ) (r : Result)
      → let s2 = run d before (begin d now subject key parts s).1 in
        All (λ c. finishes h c.1 ≡ false) before
        → All (λ c. (c.0 < done + s2.ttl) × (finishes h c.1 ≡ false)) after
        → later < done + s2.ttl
        → Finished s (run d after (complete done h r s2)) (key_hash d subject key) parts later r
  complete-Finished now subject key parts s h v p before after done later r quiet quiet' soon =
      let (e, at, mine, open_, fp, kid) = begin-Claimed d now subject key parts s h p in
      let id = key_hash d subject key in
      let s1 = (begin d now subject key parts s).1 in
      let v1 = begin-Inv d now subject key parts s v in
      let s2 = run d before s1 in
      let spared =
        subst (λ (g : Handle). Spares g e before) mine (Spares-in_flight h e before open_ quiet) in
      let still = run_stays d before s1 id e v1 at spared in
      let s3 = complete done h r s2 in
      let v3 = complete-Inv done h r s2 (run-Inv d before s1 v1) in
      let e3 = finished done r s2 e in
      let at3 : lookup id s3.recs ≡ some e3 =
        subst (λ (g : Handle). lookup id (complete done g r s2).recs ≡ some e3) (sym mine)
          (complete_lem done id r s2 e still) in
      let spared' =
        subst (λ (g : Handle). Spares g e3 after) mine (Spares-before h e3 after quiet') in
      record {
        entry = e3;
        at = run_stays d after s3 id e3 v3 at3 spared';
        lives = ground arith;
        done = refl;
        holds = refl;
        fp = fp;
        key_id = kid;
      }

  -- A request that was told to execute at `now` and completed with `r` at `done`, with any calls
  -- between (`before`) and after (`after`) that do not finish its handle: the same request, up to
  -- the table's TTL after `done` and under the keyring of its first call, gets exactly `r`, and its
  -- call changes nothing.
  pub replays_first_result :
      (now : ℕ) (subject key : Bytes) (parts : List Bytes) (s : Store) (h : Handle)
      → Inv s
      → (begin d now subject key parts s).0 ≡ kind_new h
      → (before after : List (ℕ × Call)) (done later : ℕ) (r : Result)
      → let s2 = run d before (begin d now subject key parts s).1 in
        let s4 = run d after (complete done h r s2) in
        All (λ c. finishes h c.1 ≡ false) before
        → All (λ c. (c.0 < done + s2.ttl) × (finishes h c.1 ≡ false)) after
        → later < done + s2.ttl
        → s4.keys ≡ s.keys
        → begin d later subject key parts s4 ≡ (kind_replay r, s4)
  replays_first_result now subject key parts s h v p before after done later r quiet quiet' soon
        same =
      let s2 = run d before (begin d now subject key parts s).1 in
      let s4 = run d after (complete done h r s2) in
      let f =
        complete-Finished now subject key parts s h v p before after done later r quiet quiet'
          soon in
      begin-at_record d later subject key parts s4 f.entry f.at f.lives
      ∙ ap (λ (a : Decision). (a, s4))
          (judge_same s4 f.entry parts f.done
              (f.fp ∙ ap (λ (k : Keyring). mac d k.current.key parts) (sym same))
              (f.key_id ∙ ap (λ (k : Keyring). k.current.id) (sym same))
            ∙ ap (λ (x : Result). kind_replay x) f.holds)

  -- In the same circumstances, a request with another fingerprint is answered as a reuse of the key,
  -- and its call changes nothing.
  pub reuses_first_result :
      (now : ℕ) (subject key : Bytes) (parts : List Bytes) (s : Store) (h : Handle)
      → Inv s
      → (begin d now subject key parts s).0 ≡ kind_new h
      → (before after : List (ℕ × Call)) (done later : ℕ) (r : Result) (other : List Bytes)
      → let s2 = run d before (begin d now subject key parts s).1 in
        let s4 = run d after (complete done h r s2) in
        All (λ c. finishes h c.1 ≡ false) before
        → All (λ c. (c.0 < done + s2.ttl) × (finishes h c.1 ≡ false)) after
        → later < done + s2.ttl
        → s4.keys ≡ s.keys
        → mac d s.keys.current.key parts ≢ mac d s.keys.current.key other
        → begin d later subject key other s4 ≡ (kind_reused, s4)
  reuses_first_result now subject key parts s h v p before after done later r other quiet quiet'
        soon same differ =
      let s2 = run d before (begin d now subject key parts s).1 in
      let s4 = run d after (complete done h r s2) in
      let f =
        complete-Finished now subject key parts s h v p before after done later r quiet quiet'
          soon in
      begin-at_record d later subject key other s4 f.entry f.at f.lives
      ∙ ap (λ (a : Decision). (a, s4))
          (judge_different s4 f.entry other
            (λ e. differ (sym f.fp ∙ e ∙ ap (λ (k : Keyring). mac d k.current.key other) same))
            (f.key_id ∙ ap (λ (k : Keyring). k.current.id) (sym same)))
