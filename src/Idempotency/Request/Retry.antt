-- ===== src/Idempotency/Request/Retry.antt =====
-- What a retry of a finished request gets (ui/backend/internal/httpapi/idempotency.go).
use ldapium.Prelude.{ℕ, ◌+◌, ◌<◌, ◌≡◌, refl, sym, ap, subst, ◌∙◌, Bool, false, some, List, All}
use ldapium.Prelude.Bytes.{Bytes}
use ldapium.Idempotency.Store.{
  Store, Handle, Result, Call, Decision, kind_new, kind_replay, kind_reused, begin, complete,
}
use ldapium.Idempotency.Store
use ldapium.Idempotency.Store.Counts.{Inv}
use ldapium.Idempotency.Store.Replay.{replays_first_result, reuses_first_result}
use ldapium.Idempotency.Outcome.{Handled, to_record, run_idempotent, settle}
use ldapium.Idempotency.Body.Strict.{IsFaithful}
use ldapium.Idempotency.Request.{
  Request, Settings, keyed, prepare, parts_of, Admission, refuses, replays, runs, api_error,
  admission_of, idempotent, Event, run,
}
use ldapium.Idempotency.Request.Calls.{
  is_end, all_calls, run-all_calls, all_calls-unfinished, all_calls-quiet,
}
use ldapium.Idempotency.Request.Exclusion.{idempotent-keyed, runs-kind_new}
use ldapium.Idempotency.Request.Fingerprint.{
  IsPlain, SameRequest, SameRequest-parts, fingerprint_iff,
}

-- Two requests with one subject and one key, the first told to run.
pub record Retried (cfg : Settings) (s : Store) (now : ℕ) (password password' : Bool)
    (a b : Request) : Type 0 where
  pub subject : Bytes
  pub key : Bytes
  pub canon : Bytes
  pub canon' : Bytes
  pub handle : Handle
  pub first : prepare cfg password a ≡ keyed subject key canon
  pub second : prepare cfg password' b ≡ keyed subject key canon'
  pub plain : IsPlain a
  pub plain' : IsPlain b
  pub told : (idempotent cfg now password a s).1 ≡ runs handle

-- The answer of the middleware to a decision.
abbrev answered : Decision × Store → Store × Admission
answered x = (x.1, admission_of x.0)

run_idempotent-complete :
    (unknown_text : Bytes) (now : ℕ) (password : Bool) (h : Handle) (o : Handled) (s : Store)
    (r : Result)
    → to_record unknown_text password o ≡ some r
    → (run_idempotent unknown_text now password h o s).0 ≡ complete now h r s
unfolding run_idempotent settle
run_idempotent-complete unknown_text now password h o s r e = rw (e, run_idempotent, settle) refl

-- The table after a request has begun, and after it has ended.
begun-run :
    (cfg : Settings) (unknown_text : Bytes) (now : ℕ) (password : Bool) (a : Request) (s : Store)
    (subject key canon : Bytes)
    → prepare cfg password a ≡ keyed subject key canon
    → (before : List (ℕ × Event))
    → run cfg unknown_text before (idempotent cfg now password a s).0
      ≡ Store.run cfg.digest
          (all_calls cfg unknown_text before)
          (begin cfg.digest now subject key (parts_of a canon) s).1
begun-run cfg unknown_text now password a s subject key canon e before =
    ap (λ (x : Store × Admission). run cfg unknown_text before x.0)
      (idempotent-keyed cfg now password a s subject key canon e)
    ∙ run-all_calls cfg unknown_text before _

ended-run :
    (cfg : Settings) (unknown_text : Bytes) (done : ℕ) (password : Bool) (h : Handle)
    (outcome : Handled) (s s2 : Store) (r : Result)
    → to_record unknown_text password outcome ≡ some r
    → (after : List (ℕ × Event)) → s ≡ s2
    → run cfg unknown_text after (run_idempotent unknown_text done password h outcome s).0
      ≡ Store.run cfg.digest (all_calls cfg unknown_text after) (complete done h r s2)
ended-run cfg unknown_text done password h outcome s s2 r recorded after e =
    ap
      (λ (x : Store).
        run cfg unknown_text after (run_idempotent unknown_text done password h outcome x).0)
      e
    ∙ ap (λ (x : Store). run cfg unknown_text after x)
        (run_idempotent-complete unknown_text done password h outcome s2 r recorded)
    ∙ run-all_calls cfg unknown_text after (complete done h r s2)

-- A keyed request ran, with any other events meanwhile, and its answer was recorded at `done`. Then,
-- for the time to live of the table and under the same keyring, whatever else happens, a request
-- with its subject and its key gets that answer if it is the same request, up to the order of the
-- members of its body, and 422 idempotency_key_reused if it is another; the table stays as it is.
-- Hypotheses: the HMAC has no collision, and json.Marshal writes different values differently.
pub retry_or_reuse :
    (cfg : Settings) (unknown_text : Bytes) (s : Store)
    → Inv s
    → ((x y : Bytes)
        → cfg.digest.hmac s.keys.current.key x ≡ cfg.digest.hmac s.keys.current.key y
        → x ≡ y)
    → IsFaithful cfg.encoding
    → (now : ℕ) (password password' : Bool) (a b : Request)
      (t : Retried cfg s now password password' a b) (before after : List (ℕ × Event))
      (done later : ℕ) (outcome : Handled) (r : Result)
    → to_record unknown_text password outcome ≡ some r
    → let s2 = run cfg unknown_text before (idempotent cfg now password a s).0 in
      let s3 = (run_idempotent unknown_text done password t.handle outcome s2).0 in
      let s4 = run cfg unknown_text after s3 in
      All (λ e. is_end t.handle e.1 ≡ false) before
      → All (λ e. (e.0 < done + s2.ttl) × (is_end t.handle e.1 ≡ false)) after
      → later < done + s2.ttl
      → s4.keys ≡ s.keys
      → (SameRequest a b → idempotent cfg later password' b s4 ≡ (s4, replays r))
        × ((SameRequest a b → ⊥)
            → idempotent cfg later password' b s4 ≡ (
              s4,
              refuses (
                  api_error 422 "idempotency_key_reused"
                    "this Idempotency-Key was already used for a different request"),
            ))
unfolding admission_of
retry_or_reuse cfg unknown_text s v distinct f now password password' a b t before after done later
      outcome r recorded quiet quiet' soon same =
    let d = cfg.digest in
    let h = t.handle in
    let parts = parts_of a t.canon in
    let new = runs-kind_new cfg now password a s h t.subject t.key t.canon t.first t.told in
    let s1 = (begin d now t.subject t.key parts s).1 in
    let cs = all_calls cfg unknown_text before in
    let ds = all_calls cfg unknown_text after in
    let s2 = Store.run d cs s1 in
    let s4 = Store.run d ds (complete done h r s2) in
    let e2 = begun-run cfg unknown_text now password a s t.subject t.key t.canon t.first before in
    let e4 = ended-run cfg unknown_text done password h outcome _ s2 r recorded after e2 in
    let calm = all_calls-unfinished cfg unknown_text h before quiet in
    let calm' =
      all_calls-quiet cfg unknown_text (λ x. x < done + s2.ttl) h after
        (subst
          (λ (x : Store).
            All (λ (e : ℕ × Event). (e.0 < done + x.ttl) × (is_end h e.1 ≡ false)) after)
          e2 quiet') in
    let in_time : later < done + s2.ttl = subst (λ (x : Store). later < done + x.ttl) e2 soon in
    let one_ring : s4.keys ≡ s.keys = subst (λ (x : Store). x.keys ≡ s.keys) e4 same in
    let asked = idempotent-keyed cfg later password' b s4 t.subject t.key t.canon' t.second in
    rw e4 (
      (λ equal.
          let p =
            SameRequest-parts cfg password password' a b t.subject t.key t.canon t.subject t.key
              t.canon' f t.first t.second equal in
          let answer =
            replays_first_result d now t.subject t.key parts s h v new cs ds done later r calm calm'
              in_time one_ring in
          asked
          ∙ ap answered
              (ap (λ (x : List Bytes). begin d later t.subject t.key x s4) (sym p) ∙ answer)),
      (λ differ.
          asked
          ∙ ap answered (
              reuses_first_result d now t.subject t.key parts s h v new cs ds done later r
                (parts_of b t.canon') calm calm' in_time one_ring
                (λ m. differ (
                  (fingerprint_iff cfg s.keys.current.key distinct f password password' a b
                      t.subject t.key t.canon t.subject t.key t.canon' t.plain t.plain' t.first
                      t.second).0
                    m)))),
    )
