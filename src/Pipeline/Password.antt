-- ===== src/Pipeline/Password.antt =====
-- When a machine sends a password
-- (ui/backend/internal/httpapi/machine_write_pipeline.go, execute and setPassword).
use ldapium.Prelude.{
  ◌≡◌, refl, ap, sym, ◌∙◌, true, false, ◌&&◌, none, some, List, [], ◌∷◌, ◌++◌, arith, any, all,
  any-append, if-both, Bool-cases, Option-cases, ◌⊎◌, inl, inr,
}
use ldapium.Prelude.Bytes.{Bytes}
use ldapium.Prelude.Eq.{bytes_eq, text_eq, ◌==◌}
use ldapium.Pipeline.{WriteOp, Identity, Config, write_bind_identity}
use ldapium.Pipeline.Parameters.{Parsed}
use ldapium.Pipeline.Authorize.{target_of}
use ldapium.Pipeline.Execute.{
  Effect, spent, read_premise, read_privileged, read_pending, cleared, locked, unlocked, bound,
  sent_password, Answer, Failure, Pending, failed, waits, World, read_entries, ask_privileged,
  run_as, cleanup_pending, set_password, in_lock, with_lock, write_password, seed_of, tag_of,
  execute_as, execute, after,
}
use ldapium.Pipeline.Sends.{
  is_clear, is_sent, sends, read_entries-EndsWith, ask_privileged-sends, append_assoc,
  other_op-sends_none, with_lock-sends,
}

-- What the write sends last.
record IsWrite (w : World) (id : Identity) (dn tag password : Bytes) (es : List Effect)
    : Type 0 where
  back : List Effect
  trace : es ≡ bound id.bind_dn ∷ sent_password dn password ∷ back
  clears : all is_clear back ≡ true

send-IsWrite :
    (w : World) (id : Identity) (dn tag password : Bytes)
    → sends (run_as w id (set_password w dn tag password)) ≡ true
    → IsWrite w id dn tag password (run_as w id (set_password w dn tag password)).0
unfolding run_as set_password cleanup_pending any all
send-IsWrite w id dn tag password h = elim (Option-cases w.bind) [
  | inr (r, e) ↦ let absurd : ⊥ = ground (arith, e, h) in elim absurd [ ]
  | inl e ↦ elim (Option-cases w.set_password) [
    | inr (status, f) ↦ rw (e, f) (record { back = []; trace = refl; clears = refl })
    | inl f ↦ elim (Bool-cases w.first_clear) [
      | inl g ↦ rw (e, f, g) (record { back = cleared dn tag ∷ []; trace = refl; clears = refl })
      | inr g ↦
          rw (e, f, g)
            (record { back = cleared dn tag ∷ cleared dn tag ∷ []; trace = refl; clears = refl })
    ]
  ]
]

-- In the lock: the checks are asked again, the entry is the same one, and the premise holds.
record IsLockedWrite (w : World) (id : Identity) (dn tag password uuid : Bytes) (es : List Effect)
    : Type 0 where
  privileged_again : w.privileged true ≡ none
  pending_again : w.pending true ≡ waits uuid
  premise_holds : w.premise ≡ ""
  write : List Effect
  is_write : IsWrite w id dn tag password write
  trace : es ≡ read_privileged dn ∷ read_pending dn tag ∷ read_premise ∷ write

Pending-cases :
    (p : Pending) → ((f : Failure) × (p ≡ failed f)) ⊎ ((uuid : Bytes) × (p ≡ waits uuid))
Pending-cases (failed f) = inl (f, refl)
Pending-cases (waits uuid) = inr (uuid, refl)

in_lock-IsLockedWrite :
    (w : World) (id : Identity) (dn tag password uuid : Bytes)
    → sends (in_lock w id dn tag password uuid) ≡ true
    → IsLockedWrite w id dn tag password uuid (in_lock w id dn tag password uuid).0
unfolding in_lock any ask_privileged
in_lock-IsLockedWrite w id dn tag password uuid h =
    let (fine, splits, still) = ask_privileged-sends w true dn _ h in
    let write = run_as w id (set_password w dn tag password) in
    elim (Pending-cases (w.pending true)) [
      | inl (f, e) ↦ let absurd : ⊥ = ground (arith, e, still) in elim absurd [ ]
      | inr (again, e) ↦ elim (Bool-cases (again == uuid)) [
        | inr f ↦ let absurd : ⊥ = ground (arith, e, f, still) in elim absurd [ ]
        | inl f ↦ elim (Bool-cases (w.premise == "")) [
          | inr g ↦ let absurd : ⊥ = ground (arith, e, f, g, still) in elim absurd [ ]
          | inl g ↦
              let sent : sends write ≡ true = ground (arith, e, f, g, still) in
              record {
                privileged_again = fine;
                pending_again = e ∙ ap (λ (u : Bytes). waits u) ((bytes_eq.decides again uuid).0 f);
                premise_holds = (text_eq.decides w.premise "").0 g;
                write = write.0;
                is_write = send-IsWrite w id dn tag password sent;
                trace = rw (fine, e, f, g) refl;
              }
        ]
      ]
    ]

-- The only way to send a password: `es` are the effects of a write.
pub record IsPasswordWrite (cfg : Config) (w : World) (op : WriteOp) (dn tag password : Bytes)
    (es : List Effect) : Type 0 where
  pub is_op : op.id ≡ "setPassword"
  pub in_budget : w.spend ≡ true
  pub identity : Identity
  pub is_identity : write_bind_identity cfg op.compartment ≡ some identity
  pub uuid : Bytes
  pub privileged_before : w.privileged false ≡ none
  pub pending_before : w.pending false ≡ waits uuid
  pub target_free : w.lock_free uuid ≡ true
  pub privileged_again : w.privileged true ≡ none
  pub pending_again : w.pending true ≡ waits uuid
  pub premise_holds : w.premise ≡ ""
  pub front : List Effect
  pub back : List Effect
  pub clears : all is_clear back ≡ true
  pub only_one : any is_sent front ≡ false
  pub trace :
      es
      ≡ front
        ++ (locked uuid
            ∷ read_privileged dn
            ∷ read_pending dn tag
            ∷ read_premise
            ∷ bound identity.bind_dn
            ∷ sent_password dn password
            ∷ (back ++ unlocked uuid ∷ []))

write_password-IsPasswordWrite :
    (cfg : Config) (w : World) (op : WriteOp) (id : Identity) (dn tag password : Bytes)
    → op.id ≡ "setPassword"
    → w.spend ≡ true
    → write_bind_identity cfg op.compartment ≡ some id
    → sends (write_password w id dn tag password) ≡ true
    → IsPasswordWrite cfg w op dn tag password (write_password w id dn tag password).0
unfolding write_password any ask_privileged
write_password-IsPasswordWrite cfg w op id dn tag password is_op budget is_id h =
    let (fine, splits, still) = ask_privileged-sends w false dn _ h in
    elim (Pending-cases (w.pending false)) [
      | inl (f, e) ↦ let absurd : ⊥ = ground (arith, e, still) in elim absurd [ ]
      | inr (uuid, e) ↦
          let k = in_lock w id dn tag password uuid in
          let (free, inside, taken) = with_lock-sends w uuid k (ground (arith, e, still)) in
          let l = in_lock-IsLockedWrite w id dn tag password uuid inside in
          let opened : (write_password w id dn tag password).0
              ≡ read_privileged dn ∷ read_pending dn tag ∷ (with_lock w uuid k).0 =
            rw (fine, e, write_password) refl in
          record {
            is_op = is_op;
            in_budget = budget;
            identity = id;
            is_identity = is_id;
            uuid = uuid;
            privileged_before = fine;
            pending_before = e;
            target_free = free;
            privileged_again = l.privileged_again;
            pending_again = l.pending_again;
            premise_holds = l.premise_holds;
            front = read_privileged dn ∷ read_pending dn tag ∷ [];
            only_one = refl;
            back = l.is_write.back;
            clears = l.is_write.clears;
            trace =
                opened
                ∙ ap (λ (x : List Effect). read_privileged dn ∷ read_pending dn tag ∷ x)
                    (taken
                      ∙ ap (λ (x : List Effect). locked uuid ∷ (x ++ unlocked uuid ∷ []))
                          (l.trace
                            ∙ ap
                                (λ (x : List Effect).
                                  read_privileged dn ∷ read_pending dn tag ∷ read_premise ∷ x)
                                l.is_write.trace));
          }
    ]

-- More effects before.
IsPasswordWrite-front :
    (cfg : Config) (w : World) (op : WriteOp) (dn tag password : Bytes)
    (before es es' : List Effect)
    → any is_sent before ≡ false
    → es' ≡ before ++ es
    → IsPasswordWrite cfg w op dn tag password es
    → IsPasswordWrite cfg w op dn tag password es'
IsPasswordWrite-front cfg w op dn tag password before es es' none_before e p = record {
  is_op = p.is_op;
  in_budget = p.in_budget;
  identity = p.identity;
  is_identity = p.is_identity;
  uuid = p.uuid;
  privileged_before = p.privileged_before;
  pending_before = p.pending_before;
  target_free = p.target_free;
  privileged_again = p.privileged_again;
  pending_again = p.pending_again;
  premise_holds = p.premise_holds;
  back = p.back;
  clears = p.clears;
  front = before ++ p.front;
  only_one = ground (arith, any-append is_sent before p.front, none_before, p.only_one);
  trace = e ∙ ap (λ (x : List Effect). before ++ x) p.trace ∙ sym (append_assoc before p.front _);
}

set_password-IsPasswordWrite :
    (cfg : Config) (w : World) (op : WriteOp) (p : Parsed) (tag : Bytes) (id : Identity)
    → op.id ≡ "setPassword"
    → w.spend ≡ true
    → write_bind_identity cfg op.compartment ≡ some id
    → let k = write_password w id (target_of p.dns) tag p.password in
      sends (read_entries w p.dns k) ≡ true
      → IsPasswordWrite cfg w op
          (target_of p.dns)
          tag
          p.password
          (spent ∷ (read_entries w p.dns k).0)
unfolding any
set_password-IsPasswordWrite cfg w op p tag id is_op budget is_id h =
    let k = write_password w id (target_of p.dns) tag p.password in
    let ends = read_entries-EndsWith w p.dns k h in
    IsPasswordWrite-front cfg w op (target_of p.dns) tag p.password (spent ∷ ends.front) k.0 _
      ends.quiet (ap (λ (x : List Effect). spent ∷ x) ends.splits)
      (write_password-IsPasswordWrite cfg w op id (target_of p.dns) tag p.password is_op budget
        is_id ends.still)

execute_as-IsPasswordWrite :
    (cfg : Config) (w : World) (op : WriteOp) (p : Parsed) (tag : Bytes) (id : Identity)
    → write_bind_identity cfg op.compartment ≡ some id
    → sends (execute_as cfg w op p tag id) ≡ true
    → IsPasswordWrite cfg w op (target_of p.dns) tag p.password (execute_as cfg w op p tag id).0
unfolding execute_as any
execute_as-IsPasswordWrite cfg w op p tag id is_id h =
    elim (Bool-cases (op.id == "createGroup" && cfg.group_seed_dn == [])) [
      | inl e ↦ let absurd : ⊥ = ground (arith, e, h) in elim absurd [ ]
      | inr e ↦ elim (Bool-cases (op.id == "setPassword")) [
        | inr f ↦
            let quiet =
              other_op-sends_none w id (target_of p.dns) p.dns (op.id == "lockUser")
                (seed_of cfg op) (tag_of p tag) (ground (arith, e, f, h)) in
            elim quiet [ ]
        | inl f ↦ elim (Bool-cases w.spend) [
          | inr g ↦ let absurd : ⊥ = ground (arith, e, f, g, h) in elim absurd [ ]
          | inl g ↦
              let k = read_entries w p.dns (write_password w id (target_of p.dns) tag p.password) in
              rw (e, f)
                (if-both
                  (λ (r : Answer). IsPasswordWrite cfg w op (target_of p.dns) tag p.password r.0)
                  w.spend (after spent k) _
                  (λ _.
                    set_password-IsPasswordWrite cfg w op p tag id
                      ((text_eq.decides op.id "setPassword").0 f) g is_id
                      (ground (arith, e, f, g, h)))
                  (λ n. let absurd : ⊥ = ground (arith, g, n) in elim absurd [ ]))
        ]
      ]
    ]

-- A machine sends a password only for setPassword, within the budget, when the target was not
-- privileged and waited for its first password, when both hold still, of the same entry, while the
-- target is locked, and when the premise holds: the send stands in the lock, after these checks,
-- on a connection of the identity of the operation, nothing before it sends one, and only the removal
-- of the pending marker stands between it and the release of the lock.
pub execute-IsPasswordWrite :
    (cfg : Config) (w : World) (op : WriteOp) (p : Parsed) (tag : Bytes)
    → sends (execute cfg w op p tag) ≡ true
    → IsPasswordWrite cfg w op (target_of p.dns) tag p.password (execute cfg w op p tag).0
unfolding execute any
execute-IsPasswordWrite cfg w op p tag h =
    elim (Option-cases (write_bind_identity cfg op.compartment)) [
      | inl e ↦ let absurd : ⊥ = ground (arith, e, h) in elim absurd [ ]
      | inr (id, e) ↦
          rw (e, execute) (execute_as-IsPasswordWrite cfg w op p tag id e (ground (arith, e, h)))
    ]
