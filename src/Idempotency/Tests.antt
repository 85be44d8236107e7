-- ===== src/Idempotency/Tests.antt =====
-- The idempotency theorems at concrete inputs, and runs of the code.
use ldapium.Prelude.{
  ℕ, ◌+◌, ◌<◌, ◌≡◌, refl, ◌↔◌, false, none, some, List, [], ◌∷◌, ◌++◌, arith, replicate, all, subst,
  ap, any, All,
}
use ldapium.Prelude.Bytes.{Bytes, codes, byte_at, quote}
use ldapium.Idempotency.Key.{allowed_key_rune, parse_key}
use ldapium.Idempotency.Key.Syntax.{IsKey, Spells, parse_key_iff}
use ldapium.Prelude.Assoc.{lookup, put}
use ldapium.Idempotency.Keyring.{
  joined, Digest, Keyring, key_hash, new_keyring, derive_key, fingerprint, verify, verdict_same,
}
use ldapium.Idempotency.Keyring.Separation.{key_hash_separates}
use ldapium.Idempotency.Keyring.Rotation.{rotation_keeps}
use ldapium.Idempotency.Store.{
  Store, Handle, Options, Result, Call, begins, sweeps, kind_new, kind_replay, new_store, claim,
  insert, is_full, begin_found, sweep, sweep_locked, sweep_from, held, judge, step, begin, complete,
  run, or_default, default_max_records, default_max_per_subject,
}
use ldapium.Idempotency.Store.Counts.{Inv, new_store-Inv}
use ldapium.Idempotency.Store.Bounds.{Bounded, run-new_store}
use ldapium.Idempotency.Store.AtMostOnce.{finishes}
use ldapium.Idempotency.Outcome.{
  GoError, ldap_error, joins, wraps, leaf, child, none_left, Handled, returned, is_unknown,
  is_outcome_unknown, run_idempotent, replay_idempotent,
}
use ldapium.Idempotency.Outcome.Errors.{causes, is_unknown_cause, is_outcome_unknown-causes}
use ldapium.Idempotency.Outcome.Recording.{retry_gets_first_answer}

-- A digest that hides nothing and has no collision.
abbrev plain : Digest
plain = record { hmac = λ k m. k ++ m; sha256 = λ b. b; hex = λ b. b }

abbrev key_text : Bytes
key_text = codes "retry-0001-abcdef"

key_text-IsKey : IsKey key_text
key_text-IsKey = record {
  long_enough = omega arith;
  short_enough = omega arith;
  allowed = unfold all allowed_key_rune in refl;
}

parse_key_iff_example :
    (parse_key (quote key_text ∷ []) ≡ some key_text)
    ↔ ((v : Bytes) × (quote key_text ∷ [] ≡ v ∷ []) × Spells v key_text × IsKey key_text)
parse_key_iff_example = parse_key_iff (quote key_text ∷ []) key_text

key_hash_separates_example : (codes "uid=a" ≡ codes "uid=a") × (key_text ≡ key_text)
key_hash_separates_example =
    key_hash_separates plain (λ a b e. e) (codes "uid=a") (codes "uid=a") key_text key_text
      key_text-IsKey key_text-IsKey refl

abbrev old_secret : Bytes
old_secret = replicate 32 b'a'

abbrev new_secret : Bytes
new_secret = replicate 32 b'b'

-- Of the empty key and message the digest is the secret: identifiers are its first 8 bytes.
abbrev old_ring : Keyring
old_ring = record {
  current = record { id = replicate 8 b'a'; key = old_secret ++ codes "ldapium/idempotency/v1" };
  previous = none;
}

abbrev new_ring : Keyring
new_ring = record {
  current = record { id = replicate 8 b'b'; key = new_secret ++ codes "ldapium/idempotency/v1" };
  previous = some old_ring.current;
}

rotation_keeps_example :
    let (fp, key_id) = fingerprint plain old_ring (codes "PUT" ∷ []) in
    verify plain new_ring key_id fp (codes "PUT" ∷ []) ≡ verdict_same
unfolding new_keyring derive_key
rotation_keeps_example =
    rotation_keeps plain old_secret new_secret old_ring new_ring refl refl
      (λ e. omega (arith, ap (λ (b : Bytes). byte_at b 0) e)) (codes "PUT" ∷ [])

abbrev small : Options
small = record { ttl = 100; max_records = 2; max_per_subject = 1 }

abbrev table : Store
table = record {
  keys = old_ring;
  ttl = 100;
  max_total = 2;
  max_subject = 1;
  recs = [];
  per_subject = [];
  next_ref = 0;
}

table-new : new_store old_ring small ≡ table
unfolding new_store
table-new = refl

table-Inv : Inv table
table-Inv = subst Inv table-new (new_store-Inv old_ring small)

abbrev write : List Bytes
write = codes "POST" ∷ codes "/users" ∷ codes "{}" ∷ []

abbrev ticket : Handle
ticket = record { id = key_hash plain (codes "alice") key_text; ref = 0 }

abbrev created : Result
created = record { status = 201; location = codes "/users/u"; body = codes "{}"; envelope = false }

abbrev others : List (ℕ × Call)
others =
    (5, begins (codes "bob") key_text write)
    ∷ (6, sweeps)
    ∷ (7, begins (codes "alice") key_text write)
    ∷ []

claimed : (begin plain 1 (codes "alice") key_text write table).0 ≡ kind_new ticket
unfolding begin claim insert is_full lookup joined
claimed = refl

run-new_store_example :
    let s = run plain others (new_store old_ring small) in
    Inv s × Bounded (or_default default_max_records 2) (or_default default_max_per_subject 1) s
run-new_store_example = run-new_store plain old_ring small others

-- The table after the calls between, and after those that follow the result.
abbrev between : Store
between = run plain others (begin plain 1 (codes "alice") key_text write table).1

abbrev afterwards : Store
afterwards = run plain others (complete 3 ticket created between)

between-ttl : between.ttl ≡ 100
unfolding run step sweep sweep_locked sweep_from begin begin_found claim insert is_full lookup put
    judge verify joined fingerprint
between-ttl = refl

in_time : All (λ c. (c.0 < 3 + between.ttl) × (finishes ticket c.1 ≡ false)) others
in_time = (
  (omega (arith, between-ttl), refl),
  ((omega (arith, between-ttl), refl), ((omega (arith, between-ttl), refl), tt)),
)

afterwards-keys : afterwards.keys ≡ old_ring
unfolding run step sweep sweep_locked sweep_from begin begin_found claim insert is_full lookup put
    judge verify joined fingerprint complete held
afterwards-keys = refl

-- A definitive answer joined with a lost response stays unknown.
abbrev lost : GoError
lost = wraps (joins (child (ldap_error 32) (child leaf none_left)))

is_outcome_unknown-causes_example :
    is_outcome_unknown 200 206 lost ≡ any (is_unknown_cause 200 206) (causes lost)
is_outcome_unknown-causes_example = is_outcome_unknown-causes 200 206 lost

abbrev gone : Bytes
gone = codes "outcome unknown"

abbrev good : Handled
good = record {
  panic = returned;
  status = 201;
  body = codes "{}";
  location = codes "/users/u";
  outcome_unknown = false;
  definitive = false;
  partial_failure = false;
}

good_known : is_unknown good ≡ false
unfolding is_unknown
good_known = refl

abbrev settled : Store
settled = (run_idempotent gone 3 false ticket good between).0

settled-keys : (run plain others settled).keys ≡ old_ring
unfolding run step sweep sweep_locked sweep_from begin begin_found claim insert is_full lookup put
    judge verify joined fingerprint complete held run_idempotent
settled-keys = refl

retry_gets_first_answer_example :
    (r : Result) × (begin plain 90 (codes "alice") key_text write (run plain others settled)
      ≡ (kind_replay r, run plain others settled))
    × (replay_idempotent (λ b. some b) r ≡ (run_idempotent gone 3 false ticket good between).1)
retry_gets_first_answer_example =
    retry_gets_first_answer gone plain (λ b. some b) 1 (codes "alice") key_text write table ticket
      good table-Inv claimed good_known refl (omega arith) others others 3 90
      (refl, (refl, (refl, tt))) in_time (omega (arith, between-ttl)) settled-keys
