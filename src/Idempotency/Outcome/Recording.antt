-- ===== src/Idempotency/Outcome/Recording.antt =====
-- What is recorded for a key, and what a retry gets (ui/backend/internal/httpapi/idempotency.go).
use ldapium.Prelude.{
  ℕ, ◌+◌, ◌≤◌, ◌<◌, ◌≡◌, ap, ◌⊎◌, ◌↔◌, Bool, true, false, Option, none, some, List, arith, length,
  All, sym, subst,
}
use ldapium.Prelude.Bytes.{Bytes}
use ldapium.Idempotency.Keyring.{Digest}
use ldapium.Idempotency.Store.{
  Result, Store, Handle, Call, kind_new, kind_replay, begin, complete, run,
}
use ldapium.Idempotency.Store.Counts.{Inv}
use ldapium.Idempotency.Store.AtMostOnce.{finishes}
use ldapium.Idempotency.Store.Replay.{replays_first_result}
use ldapium.Idempotency.Outcome.{
  Handled, returned, status_of, is_unknown, is_success, max_result_body, to_record, settle,
  reply_of, run_idempotent, replay_idempotent,
}

module _ (unknown_text : Bytes) where
  -- The key is given back exactly when the handler returned, nothing marked the outcome unknown, the
  -- answer is neither a success nor a partial failure, and a server error is marked definitive.
  released_iff :
      (password : Bool) (h : Handled)
      → (to_record unknown_text password h ≡ none)
        ↔ (h.panic ≡ returned)
          × (h.outcome_unknown ≡ false)
          × (h.partial_failure ≡ false)
          × (is_success (status_of h) ≡ false)
          × ((status_of h < 500) ⊎ (h.definitive ≡ true))
  unfolding to_record
  released_iff password h = ((λ p. ground arith), (λ p. ground arith))

  -- If the text of the unknown outcome fits, every recorded body has at most 4096 bytes.
  to_record_bounded :
      (password : Bool) (h : Handled) (r : Result)
      → length unknown_text ≤ max_result_body
      → to_record unknown_text password h ≡ some r
      → length r.body ≤ max_result_body
  unfolding to_record
  to_record_bounded password h r fits p = ground arith

  -- A successful answer of an ordinary route, small enough to keep, is recorded, and its replay is
  -- the answer itself.
  replay-success :
      (refresh : Bytes → Option Bytes) (h : Handled)
      → is_unknown h ≡ false
      → is_success (status_of h) ≡ true
      → length h.body ≤ max_result_body
      → (r : Result) × (to_record unknown_text false h ≡ some r)
        × (replay_idempotent refresh r ≡ reply_of unknown_text h)
  unfolding to_record replay_idempotent reply_of
  replay-success refresh h known good small = (
    record { status = status_of h; location = h.location; body = h.body; envelope = false },
    ground arith,
    ground arith,
  )

  -- A keyed write of an ordinary route that was told to execute and succeeded with a small body:
  -- the same request, before the record's TTL has run out and under the same keyring, with any other
  -- calls between, is answered from the record with the first status, Location and body.
  pub retry_gets_first_answer :
      (d : Digest) (refresh : Bytes → Option Bytes) (now : ℕ) (subject key : Bytes)
      (parts : List Bytes) (s : Store) (g : Handle) (h : Handled)
      → Inv s
      → (begin d now subject key parts s).0 ≡ kind_new g
      → is_unknown h ≡ false
      → is_success (status_of h) ≡ true
      → length h.body ≤ max_result_body
      → (before after : List (ℕ × Call)) (done later : ℕ)
      → let s2 = run d before (begin d now subject key parts s).1 in
        let (s3, reply) = run_idempotent unknown_text done false g h s2 in
        let s4 = run d after s3 in
        All (λ c. finishes g c.1 ≡ false) before
        → All (λ c. (c.0 < done + s2.ttl) × (finishes g c.1 ≡ false)) after
        → later < done + s2.ttl
        → s4.keys ≡ s.keys
        → (r : Result) × (begin d later subject key parts s4 ≡ (kind_replay r, s4))
          × (replay_idempotent refresh r ≡ reply)
  unfolding run_idempotent settle
  retry_gets_first_answer d refresh now subject key parts s g h v p known good small before after
        done later quiet quiet' soon same =
      let (r, recorded, replayed) = replay-success refresh h known good small in
      let s2 = run d before (begin d now subject key parts s).1 in
      let e : settle unknown_text done g (to_record unknown_text false h) s2
          ≡ complete done g r s2 =
        ap (λ (o : Option Result). settle unknown_text done g o s2) recorded in
      let same' = subst (λ (s3 : Store). (run d after s3).keys ≡ s.keys) e same in
      (
        r,
        subst
            (λ (s3 : Store).
              begin d later subject key parts (run d after s3) ≡ (kind_replay r, run d after s3))
            (sym e)
            (replays_first_result d now subject key parts s g v p before after done later r quiet
              quiet' soon same'),
        replayed,
      )
