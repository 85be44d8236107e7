-- ===== src/Passwords/Sweep.antt =====
-- The sweep prunes every entry (ui/backend/internal/httpapi/password_limiter.go).
use ldapium.Prelude.{ℕ, ◌≤◌, ◌≡◌, refl, sym, none, List, [], ◌∷◌, length, retain, arith}
use ldapium.Prelude.Bytes.{Bytes}
use ldapium.Prelude.Eq.{bytes_eq, bytes_beq_iff}
use ldapium.Prelude.Assoc.{lookup, IsMap}
use ldapium.Passwords.{Attempts, no_attempts, pruned, sweep}
use ldapium.Passwords.Entries.{attempts_of, idle_lem}

module _ (window now : ℕ) where
  pub sweep-none :
      (j : Bytes) (es : List (Bytes × Attempts))
      → lookup j es ≡ none
      → lookup j (sweep window now es) ≡ none
  unfolding sweep lookup
  sweep-none j [] h = refl
  sweep-none j ((k, a) ∷ es) h = ground (arith, h, sweep-none j es)

  pub sweep-IsMap : (es : List (Bytes × Attempts)) → IsMap es → IsMap (sweep window now es)
  unfolding sweep
  sweep-IsMap [] m = tt
  sweep-IsMap ((k, a) ∷ es) m = ground (arith, sweep-IsMap es m.1, sweep-none k es m.0)

  pub length-sweep_le : (es : List (Bytes × Attempts)) → length (sweep window now es) ≤ length es
  unfolding sweep
  length-sweep_le [] = omega arith
  length-sweep_le ((k, a) ∷ es) = ground (arith, length-sweep_le es)

  pruned_nothing : pruned window now no_attempts ≡ no_attempts
  unfolding pruned retain
  pruned_nothing = refl

  pub attempts_of-sweep :
      (j : Bytes) (es : List (Bytes × Attempts))
      → IsMap es
      → attempts_of j (sweep window now es) ≡ pruned window now (attempts_of j es)
  unfolding sweep lookup
  attempts_of-sweep j [] m = sym pruned_nothing
  attempts_of-sweep j ((k, a) ∷ es) m = ground (
    arith,
    bytes_beq_iff k j,
    sweep-none k es m.0,
    idle_lem (pruned window now a),
    attempts_of-sweep j es m.1,
  )
