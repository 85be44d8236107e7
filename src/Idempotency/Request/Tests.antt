-- ===== src/Idempotency/Request/Tests.antt =====
-- Keyed requests, and the witnesses of the theorems about them
-- (ui/backend/internal/httpapi/idempotency.go).
use ldapium.Prelude.{
  ℕ, ◌≡◌, ◌↔◌, refl, true, false, none, some, List, [], ◌∷◌, ◌++◌, arith, subst, all, any,
}
use ldapium.Prelude.Bytes.{Bytes, codes}
use ldapium.Prelude.Eq.{bytes_eq}
use ldapium.Prelude.Assoc.{lookup, put}
use ldapium.Idempotency.Key.{parse_key}
use ldapium.Idempotency.Keyring.{Digest, Keyring, joined, verify, fingerprint}
use ldapium.Idempotency.Store.{
  Store, Options, Handle, Result, new_store, begin, begin_found, claim, insert, is_full, judge,
  complete, held, sweep, sweep_locked, sweep_from,
}
use ldapium.Idempotency.Store.Counts.{Inv, new_store-Inv}
use ldapium.Idempotency.Outcome.{Handled, returned, to_record, run_idempotent}
use ldapium.Idempotency.Body.{
  Json, text, object, member, no_members, number, value, strict_body, canonical,
}
use ldapium.Idempotency.Body.Canonical.{Same, canonical_iff}
use ldapium.Idempotency.Body.Sample.{sample, sample-IsFaithful, program}
use ldapium.Idempotency.Request.{
  session, Request, ApiError, Settings, keyed, prepare, refuses, replays, runs, api_error,
  idempotent, Event, arrives, sweeps, run,
}
use ldapium.Idempotency.Request.Exclusion.{one_execution}
use ldapium.Idempotency.Request.Fingerprint.{IsPlain, SameRequest}
use ldapium.Idempotency.Request.Retry.{Retried, retry_or_reuse}

abbrev plain : Digest
plain = record { hmac = λ k m. k ++ m; sha256 = λ b. b; hex = λ b. b }

abbrev settings : Settings
settings = record { digest = plain; encoding = sample; issuer = codes "iss"; enabled = true }

abbrev ring : Keyring
ring = record { current = record { id = codes "k1"; key = codes "secret" }; previous = none }

abbrev limits : Options
limits = record { ttl = 100; max_records = 3; max_per_subject = 3 }

abbrev table : Store
table = record {
  keys = ring;
  ttl = 100;
  max_total = 3;
  max_subject = 3;
  recs = [];
  per_subject = [];
  next_ref = 0;
}

table-new : new_store ring limits ≡ table
unfolding new_store
table-new = refl

table-Inv : Inv table
table-Inv = subst Inv table-new (new_store-Inv ring limits)

abbrev cn_then_sn : Json
cn_then_sn =
    object
      (member (codes "cn") (text (codes "A")) (member (codes "sn") (number (codes "1")) no_members))

abbrev sn_then_cn : Json
sn_then_cn =
    object
      (member (codes "sn") (number (codes "1")) (member (codes "cn") (text (codes "A")) no_members))

abbrev sent : Json → Request
sent v = record {
  opened = false;
  caller = session (codes "uid=a");
  keys = codes "retry-0001-abcdef" ∷ [];
  method = codes "POST";
  path = codes "/users";
  query = [];
  media_type = some (codes "application/json");
  readable = true;
  content = value v false;
}

abbrev ticket : Handle
ticket = record { id = codes "uid=a" ++ 0 ∷ codes "retry-0001-abcdef"; ref = 0 }

abbrev gone : Bytes
gone = codes "outcome unknown"

abbrev created : Handled
created = record {
  panic = returned;
  status = 201;
  body = codes "{}";
  location = codes "/users/u";
  outcome_unknown = false;
  definitive = false;
  partial_failure = false;
}

abbrev kept : Result
kept = record { status = 201; location = codes "/users/u"; body = codes "{}"; envelope = false }

canonical_iff_example : (canonical cn_then_sn ≡ canonical sn_then_cn) ↔ Same cn_then_sn sn_then_cn
canonical_iff_example = canonical_iff cn_then_sn sn_then_cn

prepared :
    prepare settings false (sent cn_then_sn)
    ≡ keyed (codes "uid=a") (codes "retry-0001-abcdef") (program (canonical cn_then_sn))
unfolding prepare parse_key strict_body all any
prepared = refl

prepared' :
    prepare settings false (sent sn_then_cn)
    ≡ keyed (codes "uid=a") (codes "retry-0001-abcdef") (program (canonical sn_then_cn))
unfolding prepare parse_key strict_body all any
prepared' = refl

told : (idempotent settings 1 false (sent cn_then_sn) table).1 ≡ runs ticket
unfolding idempotent prepare parse_key strict_body all any begin begin_found claim insert is_full
    lookup put joined fingerprint
told = refl

-- Meanwhile the same request comes again, and the table is swept.
abbrev meanwhile : List (ℕ × Event)
meanwhile = (2, arrives false (sent sn_then_cn)) ∷ (3, sweeps) ∷ []

one_execution_example :
    let s = run settings gone meanwhile (idempotent settings 1 false (sent cn_then_sn) table).0 in
    (e : ApiError) × (idempotent settings 9 false (sent sn_then_cn) s ≡ (s, refuses e))
one_execution_example =
    one_execution settings gone 1 false (sent cn_then_sn) table ticket (codes "uid=a")
      (codes "retry-0001-abcdef") (program (canonical cn_then_sn)) table-Inv prepared told meanwhile
      (refl, (refl, tt)) 9 false (sent sn_then_cn) (program (canonical sn_then_cn)) prepared'

is_plain : (v : Json) → IsPlain (sent v)
unfolding all
is_plain v = record { method = refl; path = refl; target = refl }

abbrev retried : Retried settings table 1 false false (sent cn_then_sn) (sent sn_then_cn)
retried = record {
  subject = codes "uid=a";
  key = codes "retry-0001-abcdef";
  canon = program (canonical cn_then_sn);
  canon' = program (canonical sn_then_cn);
  handle = ticket;
  first = prepared;
  second = prepared';
  plain = is_plain cn_then_sn;
  plain' = is_plain sn_then_cn;
  told = told;
}

-- The table before the handler ends, and after it with the events that follow.
abbrev running : Store
running = run settings gone meanwhile (idempotent settings 1 false (sent cn_then_sn) table).0

abbrev ended : Store
ended = run settings gone meanwhile (run_idempotent gone 4 false ticket created running).0

running-ttl : running.ttl ≡ 100
unfolding run sweep sweep_locked sweep_from idempotent prepare parse_key strict_body any all begin
    begin_found lookup claim is_full insert put joined fingerprint verify judge
running-ttl = refl

ended-keys : ended.keys ≡ ring
unfolding run sweep sweep_locked sweep_from idempotent prepare parse_key strict_body any all begin
    begin_found lookup claim is_full insert put joined fingerprint verify judge run_idempotent
    complete held
ended-keys = refl

secret_distinct :
    (x y : Bytes) → plain.hmac ring.current.key x ≡ plain.hmac ring.current.key y → x ≡ y
secret_distinct x y e = cc e

is_kept : to_record gone false created ≡ some kept
unfolding to_record
is_kept = refl

retry_or_reuse_example :
    (SameRequest (sent cn_then_sn) (sent sn_then_cn)
      → idempotent settings 50 false (sent sn_then_cn) ended ≡ (ended, replays kept))
    × ((SameRequest (sent cn_then_sn) (sent sn_then_cn) → ⊥)
        → idempotent settings 50 false (sent sn_then_cn) ended ≡ (
          ended,
          refuses (
              api_error 422 "idempotency_key_reused"
                "this Idempotency-Key was already used for a different request"),
        ))
retry_or_reuse_example =
    retry_or_reuse settings gone table table-Inv secret_distinct sample-IsFaithful 1 false false
      (sent cn_then_sn) (sent sn_then_cn) retried meanwhile meanwhile 4 50 created kept is_kept
      (refl, (refl, tt))
      ((omega (arith, running-ttl), refl), ((omega (arith, running-ttl), refl), tt))
      (omega (arith, running-ttl)) ended-keys

-- The members in another order are the same request.
same_body : SameRequest (sent cn_then_sn) (sent sn_then_cn)
same_body = record {
  method = refl;
  path = refl;
  query = refl;
  content = (canonical_iff cn_then_sn sn_then_cn).0 (unfold canonical in refl);
}
