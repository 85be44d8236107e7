-- ===== src/Idempotency/Store/Sweep.antt =====
-- What the table holds at a key after a removal or a sweep (ui/backend/internal/idempotency/store.go).
use ldapium.Prelude.{ℕ, ◌≡◌, refl, not, none, some, List, [], ◌∷◌, arith, if◌then◌else◌}
use ldapium.Prelude.Bytes.{Bytes}
use ldapium.Prelude.Eq.{nat_eq, bytes_eq, bytes_beq_iff}
use ldapium.Prelude.Assoc.{lookup, IsMap, lookup-delete, kept}
use ldapium.Idempotency.Store.{
  Store, Entry, Handle, is_expired, remove_locked, sweep_from, sweep_locked, held,
}

-- A record is held only if it is the one in the table.
pub held_lem :
    (h : Handle) (s : Store) (e : Entry)
    → held h s ≡ some e
    → (lookup h.id s.recs ≡ some e) × (e.ref ≡ h.ref)
unfolding held
held_lem h s e p = ground arith

pub remove_locked_free :
    (id : Bytes) (e : Entry) (s : Store) → lookup id (remove_locked id e s).recs ≡ none
unfolding remove_locked
remove_locked_free id e s = ground (arith, lookup-delete id id s.recs, bytes_beq_iff id id)

-- What a sweep leaves at a key.
lookup-sweep_from :
    (now : ℕ) (m : List (Bytes × Entry)) (s : Store) (j : Bytes)
    → IsMap m
    → lookup j (sweep_from now m s).recs ≡ elim (lookup j m) [
      | none ↦ lookup j s.recs
      | some e ↦ if is_expired now e then none else lookup j s.recs
    ]
unfolding sweep_from lookup remove_locked
lookup-sweep_from now [] s j d = refl
lookup-sweep_from now ((id, e) ∷ m) s j d = ground (
  arith,
  lookup-sweep_from now m (if is_expired now e then remove_locked id e s else s) j d.1,
  lookup-delete id j s.recs,
  bytes_beq_iff id j,
  d.0,
)

pub lookup-sweep_locked :
    (now : ℕ) (s : Store) (j : Bytes)
    → IsMap s.recs
    → lookup j (sweep_locked now s).recs ≡ kept (λ _ e. not (is_expired now e)) j (lookup j s.recs)
unfolding sweep_locked
lookup-sweep_locked now s j d = ground (arith, lookup-sweep_from now s.recs s j d)
