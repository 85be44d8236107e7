-- ===== src/Pipeline/Slot.antt =====
-- Between its admission and its end a machine write neither takes nor gives back the slot of the
-- write limiter (ui/backend/internal/httpapi/machine_write_pipeline.go).
use ldapium.Prelude.{
  ◌≡◌, refl, Bool, true, false, List, [], ◌∷◌, arith, all, all-append, Option-cases, inl, inr,
}
use ldapium.Prelude.Bytes.{Bytes}
use ldapium.Prelude.Eq.{bytes_eq, text_eq, nat_eq}
use ldapium.Idempotency.Keyring.{Digest}
use ldapium.Pipeline.{WriteOp, WriteDn, Identity, Config, Request, write_bind_identity}
use ldapium.Pipeline.Results.{Checked-cases}
use ldapium.Pipeline.Parameters.{Parsed}
use ldapium.Pipeline.Authorize.{target_of, steps_4_to_6}
use ldapium.Pipeline.Execute.{
  Effect, acquired, released, unlocked, read_pending, Answer, after, refuse, identity_refusal,
  Pending, failed, waits, Record, runs, replays, record_refuses, World, read_entries,
  ask_privileged, run_as, cleanup_pending, set_password, in_lock, with_lock, write_password, handle,
  execute_as, seed_of, tag_of, execute,
}
use ldapium.Pipeline.Serve.{
  idempotency_subject, recorded, credential_pending_tag, step7_idempotency, admitted_steps,
}

-- Everything but taking and giving back the slot.
abbrev pub is_outside : Effect → Bool
is_outside acquired = false
is_outside released = false
is_outside _ = true

abbrev pub Outside : Answer → Type 0
Outside k = all is_outside k.0 ≡ true

read_entries-Outside :
    (w : World) (ds : List WriteDn) (k : Answer) → Outside k → Outside (read_entries w ds k)
unfolding read_entries all
read_entries-Outside w [] k h = h
read_entries-Outside w (d ∷ ds) k h = ground (arith, read_entries-Outside w ds k h)

ask_privileged-Outside :
    (w : World) (again : Bool) (dn : Bytes) (k : Answer)
    → Outside k
    → Outside (ask_privileged w again dn k)
unfolding ask_privileged all
ask_privileged-Outside w again dn k h = ground (arith, h)

set_password-Outside :
    (w : World) (dn tag password : Bytes) → Outside (set_password w dn tag password)
unfolding set_password cleanup_pending all
set_password-Outside w dn tag password = ground arith

run_as-Outside : (w : World) (id : Identity) (k : Answer) → Outside k → Outside (run_as w id k)
unfolding run_as all
run_as-Outside w id k h = ground (arith, h)

in_lock-Outside :
    (w : World) (id : Identity) (dn tag password uuid : Bytes)
    → Outside (in_lock w id dn tag password uuid)
unfolding in_lock all
in_lock-Outside w id dn tag password uuid = ask_privileged-Outside w true dn _ (
    ground (
      arith,
      run_as-Outside w id (set_password w dn tag password) (set_password-Outside w dn tag password),
    ))

with_lock-Outside :
    (w : World) (uuid : Bytes) (k : Answer) → Outside k → Outside (with_lock w uuid k)
unfolding with_lock all
with_lock-Outside w uuid k h = ground (arith, h, all-append is_outside k.0 (unlocked uuid ∷ []))

pending-Outside :
    (w : World) (id : Identity) (dn tag password : Bytes) (p : Pending)
    → Outside (
        after (read_pending dn tag) (elim p [
          | failed f ↦ refuse (identity_refusal f)
          | waits uuid ↦ with_lock w uuid (in_lock w id dn tag password uuid)
        ]))
unfolding all
pending-Outside w id dn tag password (failed f) = refl
pending-Outside w id dn tag password (waits uuid) =
    with_lock-Outside w uuid _ (in_lock-Outside w id dn tag password uuid)

write_password-Outside :
    (w : World) (id : Identity) (dn tag password : Bytes)
    → Outside (write_password w id dn tag password)
unfolding write_password all
write_password-Outside w id dn tag password =
    ask_privileged-Outside w false dn _ (pending-Outside w id dn tag password (w.pending false))

execute_as-Outside :
    (cfg : Config) (w : World) (op : WriteOp) (p : Parsed) (tag : Bytes) (id : Identity)
    → Outside (execute_as cfg w op p tag id)
unfolding execute_as all run_as
execute_as-Outside cfg w op p tag id =
    let plain =
      read_entries-Outside w p.dns (handle w id (seed_of cfg op) (tag_of p tag))
        (run_as-Outside w id _ refl) in
    let lock =
      read_entries-Outside w p.dns
        (ask_privileged w false (target_of p.dns) (handle w id (seed_of cfg op) (tag_of p tag)))
        (ask_privileged-Outside w false (target_of p.dns)
          (handle w id (seed_of cfg op) (tag_of p tag)) (run_as-Outside w id _ refl)) in
    let password =
      read_entries-Outside w p.dns (write_password w id (target_of p.dns) tag p.password)
        (write_password-Outside w id (target_of p.dns) tag p.password) in
    ground (arith, plain, lock, password)

execute-Outside :
    (cfg : Config) (w : World) (op : WriteOp) (p : Parsed) (tag : Bytes)
    → Outside (execute cfg w op p tag)
unfolding execute all
execute-Outside cfg w op p tag = elim (Option-cases (write_bind_identity cfg op.compartment)) [
  | inl e ↦ rw (e, execute) refl
  | inr (id, e) ↦ rw (e, execute) (execute_as-Outside cfg w op p tag id)
]

recorded-Outside : (r : Record) (k : Answer) → Outside k → Outside (recorded r k)
unfolding recorded all
recorded-Outside runs k h = h
recorded-Outside (replays status) k h = refl
recorded-Outside (record_refuses r) k h = refl

step7-Outside :
    (d : Digest) (cfg : Config) (w : World) (req : Request) (op : WriteOp) (p : Parsed)
    → Outside (step7_idempotency d cfg w req op p)
unfolding step7_idempotency all
step7-Outside d cfg w req op p = elim (Option-cases (idempotency_subject cfg.issuer req.client)) [
  | inl e ↦ ground (arith, e)
  | inr (subject, e) ↦ ground (
    arith,
    e,
    recorded-Outside w.idempotency (execute cfg w op p (credential_pending_tag d subject))
        (execute-Outside cfg w op p (credential_pending_tag d subject)),
  )
]

pub admitted_steps-Outside :
    (d : Digest) (cfg : Config) (w : World) (req : Request) (op : WriteOp)
    → Outside (admitted_steps d cfg w req op)
unfolding admitted_steps all
admitted_steps-Outside d cfg w req op = elim (Option-cases (cfg.policy_of req.client)) [
  | inl e ↦ ground (arith, e)
  | inr (pol, e) ↦ elim (Checked-cases (steps_4_to_6 cfg req op pol)) [
    | inl (r, f) ↦ ground (arith, e, f)
    | inr ((p, csn), f) ↦ ground (arith, e, f, step7-Outside d cfg w req op p)
  ]
]
