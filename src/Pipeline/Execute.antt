-- ===== src/Pipeline/Execute.antt =====
-- The steps 8 and 9 of a machine write (execute of
-- ui/backend/internal/httpapi/machine_write_pipeline.go), with what they do outside as a list of
-- effects in their order. What the directory, the premise and the other parts answer is the
-- argument `World`; a read that runs into the deadline is one that fails.
use ldapium.Prelude.{
  ℕ, Bool, true, false, ◌&&◌, Option, none, some, List, [], ◌∷◌, ◌++◌, String, if◌then◌else◌,
}
use ldapium.Prelude.Bytes.{Bytes}
use ldapium.Prelude.Eq.{bytes_eq, text_eq, nat_eq, ◌==◌}
use ldapium.Pipeline.{
  WriteOp, Refusal, WriteDn, Identity, Config, deny, reject, write_bind_identity,
}
use ldapium.Pipeline.Parameters.{Parsed}
use ldapium.Pipeline.Authorize.{target_of}

pub data Effect : Type 0 where
  acquired released spent read_premise : Effect
  begun : (subject : Bytes) → Effect
  read_entry : (dn : Bytes) → (class : String) → Effect
  read_privileged : (dn : Bytes) → Effect
  read_pending cleared : (dn tag : Bytes) → Effect
  locked unlocked : (uuid : Bytes) → Effect
  bound : (dn : Bytes) → Effect
  sent_password : (dn password : Bytes) → Effect
  handled : (seed pending_tag : Option Bytes) → Effect

pub data Reply : Type 0 where
  refused : Refusal → Reply
  answered : (status : ℕ) → Reply
  replayed : (status : ℕ) → Reply

abbrev pub Answer : Type 0
Answer = List Effect × Reply

-- What a read before the write may fail with.
pub data Failure : Type 0 where
  permission_denied invalid_input conflict not_found unavailable : Failure

pub data Pending : Type 0 where
  failed : Failure → Pending
  waits : (uuid : Bytes) → Pending

pub data Admission : Type 0 where
  admitted over_rate canceled at_capacity : Admission

pub data Record : Type 0 where
  runs : Record
  replays : (status : ℕ) → Record
  record_refuses : Refusal → Record

-- `privileged` and `pending` are asked twice: before the lock of the target (false) and in it.
pub record World : Type 0 where
  pub admission : Admission
  pub idempotency : Record
  pub spend : Bool
  pub check : Bytes → String → Option Failure
  pub privileged : Bool → Option Failure
  pub pending : Bool → Pending
  pub lock_free : Bytes → Bool
  pub premise : String
  pub bind : Option Refusal
  pub set_password : Option ℕ
  pub first_clear : Bool
  pub handler : ℕ

abbrev pub after : Effect → Answer → Answer
after e (es, r) = (e ∷ es, r)

abbrev pub refuse : Refusal → Answer
refuse r = ([], refused r)

-- `identityRefusal`
unfoldable pub identity_refusal : Failure → Refusal
identity_refusal permission_denied =
    deny "scope" "denied_protected" "target is not permitted for machine writes"
identity_refusal invalid_input =
    deny "scope" "denied_protected" "target is not permitted for machine writes"
identity_refusal conflict = reject 409 "conflict" "target already has a password"
identity_refusal not_found = record {
  status = 404;
  code = "not_found";
  message = "entry not found";
  reason = "request_rejected";
  outcome = "target_not_found";
}
identity_refusal unavailable = record {
  status = 503;
  code = "unavailable";
  message = "machine write identity check unavailable";
  reason = "upstream_error";
  outcome = "rejected";
}

abbrev pub unavailable_for : String → String → Refusal
unavailable_for reason message = record {
  status = 503;
  code = "unavailable";
  message = message;
  reason = reason;
  outcome = "rejected";
}

abbrev pub rate_limited : String → Refusal
rate_limited message = record {
  status = 429;
  code = "machine_rate_limited";
  message = message;
  reason = "rate";
  outcome = "rejected";
}

abbrev pub unless_failed : Option Failure → Answer → Answer
unless_failed none k = k
unless_failed (some f) k = refuse (identity_refusal f)

-- The loop over the names with a class.
unfoldable pub read_entries : World → List WriteDn → Answer → Answer
unfolding identity_refusal
read_entries w [] k = k
read_entries w (d ∷ ds) k =
    let rest = read_entries w ds k in
    if d.class == ""
    then rest
    else after (read_entry d.raw d.class) (unless_failed (w.check d.raw d.class) rest)

unfoldable pub ask_privileged : World → Bool → Bytes → Answer → Answer
unfolding identity_refusal
ask_privileged w again dn k = after (read_privileged dn) (unless_failed (w.privileged again) k)

-- runAs: the connection of the write identity, or a refusal.
unfoldable pub run_as : World → Identity → Answer → Answer
run_as w id k = elim (w.bind) [ some r ↦ refuse r | none ↦ after (bound id.bind_dn) k ]

-- `cleanupPending`: at most two attempts, and the answer is a success either way. `cleared` is one
-- attempt, with the connection that it opens and closes for itself.
unfoldable pub cleanup_pending : World → Bytes → Bytes → Answer
cleanup_pending w dn tag =
    if w.first_clear
    then (cleared dn tag ∷ [], answered 200)
    else (cleared dn tag ∷ cleared dn tag ∷ [], answered 200)

unfoldable pub set_password : World → Bytes → Bytes → Bytes → Answer
unfolding cleanup_pending
set_password w dn tag password = after (sent_password dn password) (elim (w.set_password) [
  | some status ↦ ([], answered status)
  | none ↦ cleanup_pending w dn tag
])

-- The reads and the write under the lock of the target.
unfoldable pub in_lock : World → Identity → Bytes → Bytes → Bytes → Bytes → Answer
unfolding ask_privileged run_as set_password identity_refusal
in_lock w id dn tag password uuid = ask_privileged w true dn (
    after (read_pending dn tag) (elim (w.pending true) [
      | failed f ↦ refuse (identity_refusal f)
      | waits again ↦
          if again == uuid
          then after read_premise (
              if w.premise == ""
              then run_as w id (set_password w dn tag password)
              else refuse
                  (unavailable_for "upstream_error" "machine password premise check failed"))
          else refuse (identity_refusal conflict)
    ]))

-- The reservation, which a defer frees on every way out.
unfoldable pub with_lock : World → Bytes → Answer → Answer
with_lock w uuid k =
    if w.lock_free uuid
    then (locked uuid ∷ (k.0 ++ unlocked uuid ∷ []), k.1)
    else refuse (rate_limited "another password change for this target is in progress")

unfoldable pub write_password : World → Identity → Bytes → Bytes → Bytes → Answer
unfolding ask_privileged with_lock in_lock identity_refusal
write_password w id dn tag password = ask_privileged w false dn (
    after (read_pending dn tag) (elim (w.pending false) [
      | failed f ↦ refuse (identity_refusal f)
      | waits uuid ↦ with_lock w uuid (in_lock w id dn tag password uuid)
    ]))

-- The existing handler with the connection of the write identity; the context that it gets carries
-- the seed of a new group and the tag of a user that waits for its password.
abbrev pub handle : World → Identity → Option Bytes → Option Bytes → Answer
handle w id seed tag = run_as w id (handled seed tag ∷ [], answered w.handler)

unfoldable pub seed_of : Config → WriteOp → Option Bytes
seed_of cfg op = if op.id == "createGroup" then some cfg.group_seed_dn else none

unfoldable pub tag_of : Parsed → Bytes → Option Bytes
tag_of p tag = if p.pending then some tag else none

unfoldable pub execute_as : Config → World → WriteOp → Parsed → Bytes → Identity → Answer
unfolding read_entries write_password ask_privileged run_as target_of seed_of tag_of
execute_as cfg w op p tag id =
    if op.id == "createGroup" && cfg.group_seed_dn == []
    then refuse (unavailable_for "upstream_error" "machine group seed is not configured")
    else if op.id == "setPassword"
    then if w.spend
      then after spent (read_entries w p.dns (write_password w id (target_of p.dns) tag p.password))
      else refuse (rate_limited "machine password budget exhausted")
    else let handler = handle w id (seed_of cfg op) (tag_of p tag) in
      read_entries w p.dns
        (if op.id == "lockUser" then ask_privileged w false (target_of p.dns) handler else handler)

-- `execute`
unfoldable pub execute : Config → World → WriteOp → Parsed → Bytes → Answer
unfolding execute_as write_bind_identity
execute cfg w op p tag = elim (write_bind_identity cfg op.compartment) [
  | none ↦ refuse (unavailable_for "bind_failed" "machine write identity is not configured")
  | some id ↦ execute_as cfg w op p tag id
]
