-- ===== src/Pipeline/Sends.antt =====
-- Which parts of a machine write can send a password
-- (ui/backend/internal/httpapi/machine_write_pipeline.go, execute).
use ldapium.Prelude.{
  ◌≡◌, ◌≢◌, refl, ap, Bool, true, false, none, List, [], ◌∷◌, ◌++◌, arith, any, any-append,
  if◌then◌else◌, Bool-cases, Option, Option-cases, inl, inr,
}
use ldapium.Prelude.Bytes.{Bytes}
use ldapium.Prelude.Eq.{bytes_eq, text_eq, ◌==◌}
use ldapium.Pipeline.{WriteDn, Identity}
use ldapium.Pipeline.Execute.{
  Effect, read_entry, read_privileged, cleared, locked, unlocked, sent_password, Answer, World,
  read_entries, ask_privileged, run_as, with_lock, handle,
}

abbrev pub is_sent : Effect → Bool
is_sent (sent_password dn password) = true
is_sent _ = false

abbrev pub is_clear : Effect → Bool
is_clear (cleared dn tag) = true
is_clear _ = false

abbrev pub sends : Answer → Bool
sends k = any is_sent k.0

pub append_assoc : (xs ys zs : List Effect) → (xs ++ ys) ++ zs ≡ xs ++ (ys ++ zs)
append_assoc [] ys zs = refl
append_assoc (x ∷ xs) ys zs = ap (λ (l : List Effect). x ∷ l) (append_assoc xs ys zs)

-- Effects that end with those of an answer.
pub record EndsWith (es : List Effect) (k : Answer) : Type 0 where
  pub front : List Effect
  pub splits : es ≡ front ++ k.0
  pub still : sends k ≡ true
  pub quiet : any is_sent front ≡ false

pub read_entries-EndsWith :
    (w : World) (ds : List WriteDn) (k : Answer)
    → sends (read_entries w ds k) ≡ true
    → EndsWith (read_entries w ds k).0 k
unfolding read_entries any
read_entries-EndsWith w [] k h = record { front = []; splits = refl; still = h; quiet = refl }
read_entries-EndsWith w (d ∷ ds) k h = elim (Bool-cases (d.class == "")) [
  | inl e ↦ rw e (read_entries-EndsWith w ds k (ground (arith, e, h)))
  | inr e ↦ elim (Option-cases (w.check d.raw d.class)) [
    | inr (f, g) ↦ let absurd : ⊥ = ground (arith, e, g, h) in elim absurd [ ]
    | inl g ↦
        let rest = read_entries-EndsWith w ds k (ground (arith, e, g, h)) in
        rw (e, g)
          (record {
            front = read_entry d.raw d.class ∷ rest.front;
            splits = ap (λ (l : List Effect). read_entry d.raw d.class ∷ l) rest.splits;
            still = rest.still;
            quiet = rest.quiet;
          })
  ]
]

pub ask_privileged-sends :
    (w : World) (again : Bool) (dn : Bytes) (k : Answer)
    → sends (ask_privileged w again dn k) ≡ true
    → (w.privileged again ≡ none)
      × ((ask_privileged w again dn k).0 ≡ read_privileged dn ∷ k.0)
      × (sends k ≡ true)
unfolding ask_privileged any
ask_privileged-sends w again dn k h = elim (Option-cases (w.privileged again)) [
  | inl e ↦ (e, rw (e, ask_privileged) refl, ground (arith, e, h))
  | inr (f, e) ↦ let absurd : ⊥ = ground (arith, e, h) in elim absurd [ ]
]

handle-no_password :
    (w : World) (id : Identity) (seed tag : Option Bytes) → sends (handle w id seed tag) ≡ false
unfolding run_as any
handle-no_password w id seed tag = ground arith

pub with_lock-sends :
    (w : World) (uuid : Bytes) (k : Answer)
    → sends (with_lock w uuid k) ≡ true
    → (w.lock_free uuid ≡ true)
      × (sends k ≡ true)
      × ((with_lock w uuid k).0 ≡ locked uuid ∷ (k.0 ++ unlocked uuid ∷ []))
unfolding with_lock any
with_lock-sends w uuid k h = elim (Bool-cases (w.lock_free uuid)) [
  | inr e ↦ let absurd : ⊥ = ground (arith, e, h) in elim absurd [ ]
  | inl e ↦ (e, ground (arith, e, h, any-append is_sent k.0 (unlocked uuid ∷ [])), rw e refl)
]

pub other_op-sends_none :
    (w : World) (id : Identity) (dn : Bytes) (ds : List WriteDn) (lock : Bool)
    (seed tag : Option Bytes)
    → sends (
        read_entries w ds
          (if lock then ask_privileged w false dn (handle w id seed tag) else handle w id seed tag))
      ≢ true
other_op-sends_none w id dn ds lock seed tag h =
    let rest =
      if lock then ask_privileged w false dn (handle w id seed tag) else handle w id seed tag in
    let still : sends rest ≡ true = (read_entries-EndsWith w ds rest h).still in
    elim (Bool-cases lock) [
      | inl e ↦
          let asked = ask_privileged-sends w false dn (handle w id seed tag) (rw e at still) in
          let absurd : ⊥ = ground (arith, asked.2, handle-no_password w id seed tag) in
          elim absurd [ ]
      | inr e ↦
          let again : sends (handle w id seed tag) ≡ true = rw e at still in
          let absurd : ⊥ = ground (arith, again, handle-no_password w id seed tag) in
          elim absurd [ ]
    ]
