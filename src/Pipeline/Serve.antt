-- ===== src/Pipeline/Serve.antt =====
-- A machine write from its admission to its end (serve, step3Admit and step7Idempotency of
-- ui/backend/internal/httpapi/machine_write_pipeline.go, machineIdempotencySubject of
-- machine_idempotency.go).
use Prim.Native.Nat.{◌/◌, ◌%◌}
use ldapium.Prelude.{
  ℕ, zero, suc, ◌+◌, ◌||◌, not, Option, none, some, [], ◌∷◌, ◌++◌, ltb, if◌then◌else◌, length, take,
}
use ldapium.Prelude.Bytes.{Bytes, codes}
use ldapium.Prelude.Eq.{bytes_eq, text_eq, nat_eq, ◌==◌}
use ldapium.Idempotency.Keyring.{Digest}
use ldapium.Pipeline.{
  WriteOp, Refusal, Checked, passed, denied, Config, Request, deny, reject, step2_scope,
}
use ldapium.Pipeline.Parameters.{Parsed}
use ldapium.Pipeline.Authorize.{steps_4_to_6}
use ldapium.Pipeline.Execute.{
  Answer, Admission, Record, World, after, refuse, unavailable_for, rate_limited, execute, acquired,
  released, begun, replayed, runs, replays, record_refuses, admitted, over_rate, canceled,
  at_capacity,
}

-- strconv.Itoa of a length.
digits : ℕ → ℕ → Bytes → Bytes
digits zero n acc = acc
digits (suc fuel) n acc =
    let rest = digits fuel (n / 10) ((48 + n % 10) ∷ acc) in
    if ltb n 10 then (48 + n) ∷ acc else rest

unfoldable pub itoa : ℕ → Bytes
unfolding digits
itoa n = digits (suc n) n []

-- `machineIdempotencySubject` of a machine principal.
unfoldable pub idempotency_subject : Bytes → Bytes → Option Bytes
unfolding itoa
idempotency_subject issuer client =
    if client == [] || issuer == []
    then none
    else some (codes "machine:" ++ (itoa (length issuer) ++ (b':' ∷ (issuer ++ client))))

unfoldable pub credential_pending_tag : Digest → Bytes → Bytes
credential_pending_tag d subject = d.hex (take 8 (d.sha256 subject))

abbrev pub key_required : Refusal
key_required =
    reject 428 "idempotency_key_required" "Idempotency-Key is required for machine writes"

abbrev pub no_principal : Refusal
no_principal = record {
  status = 403;
  code = "scope_denied";
  message = "machine write principal is unavailable";
  reason = "";
  outcome = "rejected";
}

unfoldable pub recorded : Record → Answer → Answer
recorded runs k = k
recorded (replays status) k = ([], replayed status)
recorded (record_refuses r) k = refuse r

-- The last step, with the request as it was authorized. `begun` is the call of the middleware with
-- this subject, which may itself refuse before it looks the record up.
unfoldable pub step7_idempotency : Digest → Config → World → Request → WriteOp → Parsed → Answer
unfolding idempotency_subject recorded execute credential_pending_tag
step7_idempotency d cfg w req op p =
    if length req.idempotency_keys == 0
    then refuse key_required
    else if not cfg.has_idempotency
    then refuse (unavailable_for "upstream_error" "machine write idempotency is unavailable")
    else elim (idempotency_subject cfg.issuer req.client) [
      | none ↦ refuse no_principal
      | some subject ↦
          after (begun subject)
            (recorded w.idempotency (execute cfg w op p (credential_pending_tag d subject)))
    ]

-- `step3Admit`, for what the limiter answered.
unfoldable pub step3_admit : Admission → Checked (Unit {0})
step3_admit admitted = passed tt
step3_admit over_rate = denied (rate_limited "client write budget exhausted")
step3_admit canceled = denied (unavailable_for "canceled" "machine write concurrency limit reached")
step3_admit at_capacity =
    denied (unavailable_for "capacity" "machine write concurrency limit reached")

-- The steps after the admission.
unfoldable pub admitted_steps : Digest → Config → World → Request → WriteOp → Answer
unfolding steps_4_to_6 step7_idempotency
admitted_steps d cfg w req op = elim (cfg.policy_of req.client) [
  | none ↦ refuse (deny "scope" "denied_guard" "no write subtree for this client")
  | some pol ↦ elim (steps_4_to_6 cfg req op pol) [
    | denied r ↦ refuse r
    | passed (p, csn) ↦ step7_idempotency d cfg w req op p
  ]
]

-- `serve`, whose defer releases the slot.
unfoldable pub serve : Digest → Config → World → Request → WriteOp → Answer
unfolding step2_scope step3_admit admitted_steps
serve d cfg w req op = elim (step2_scope cfg req op) [
  | denied r ↦ refuse r
  | passed u ↦ elim (step3_admit w.admission) [
    | denied r ↦ refuse r
    | passed v ↦ let k = admitted_steps d cfg w req op in (acquired ∷ (k.0 ++ released ∷ []), k.1)
  ]
]
