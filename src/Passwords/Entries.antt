-- ===== src/Passwords/Entries.antt =====
-- What the entries say of a key (ui/backend/internal/httpapi/password_limiter.go).
use ldapium.Prelude.{
  ℕ, ◌+◌, ◌≤◌, ◌≡◌, refl, true, some, List, [], ◌∷◌, if◌then◌else◌, length, length-retain_le,
  or_else, arith,
}
use ldapium.Prelude.Bytes.{Bytes}
use ldapium.Prelude.Eq.{bytes_eq, text_eq, nat_eq, ◌==◌}
use ldapium.Prelude.Assoc.{
  lookup, put, IsMap, lookup-put, lookup-delete, put-IsMap, delete-IsMap, length-put_old,
  length-delete_le,
}
use ldapium.Passwords.{Attempts, no_attempts, is_idle, store, pruned, is_recent}

-- The attempts of a key: none where it has no entry.
abbrev pub attempts_of : Bytes → List (Bytes × Attempts) → Attempts
attempts_of key es = or_else no_attempts (lookup key es)

no_fails : (fs : List ℕ) → (length fs == 0) ≡ true → fs ≡ []
no_fails [] h = refl
no_fails (f ∷ fs) h = ground (arith, h)

pub idle_lem : (a : Attempts) → is_idle a ≡ true → a ≡ no_attempts
idle_lem a h = ground (arith, h, no_fails a.fails)

pub attempts_of-put :
    (key j : Bytes) (a : Attempts) (es : List (Bytes × Attempts))
    → attempts_of j (put key a es) ≡ (if key == j then a else attempts_of j es)
attempts_of-put key j a es = ground (arith, lookup-put key j a es)

pub attempts_of-store :
    (key j : Bytes) (a : Attempts) (es : List (Bytes × Attempts))
    → attempts_of j (store key a es) ≡ (if key == j then a else attempts_of j es)
unfolding store
attempts_of-store key j a es =
    ground (arith, lookup-put key j a es, lookup-delete key j es, idle_lem a)

pub store-IsMap :
    (key : Bytes) (a : Attempts) (es : List (Bytes × Attempts)) → IsMap es → IsMap (store key a es)
unfolding store
store-IsMap key a es m = ground (arith, put-IsMap key a es m, delete-IsMap key es m)

pub length-store_le :
    (key : Bytes) (a b : Attempts) (es : List (Bytes × Attempts))
    → lookup key es ≡ some b
    → length (store key a es) ≤ length es
unfolding store
length-store_le key a b es h = ground (arith, length-put_old key a b es h, length-delete_le key es)

-- How many attempts count against the limit.
abbrev pub held : Attempts → ℕ
held a = length a.fails + a.inflight

pub held-pruned_le : (window now : ℕ) (a : Attempts) → held (pruned window now a) ≤ held a
unfolding pruned
held-pruned_le window now a = ground (arith, length-retain_le (is_recent window now) a.fails)
