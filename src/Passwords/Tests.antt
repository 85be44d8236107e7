-- ===== src/Passwords/Tests.antt =====
-- Runs of the password limiter and the witnesses of its theorems
-- (ui/backend/internal/httpapi/password_limiter.go).
use ldapium.Prelude.{ℕ, ◌≡◌, refl, true, some, List, [], ◌∷◌, retain}
use ldapium.Prelude.Bytes.{Bytes}
use ldapium.Prelude.Eq.{bytes_eq}
use ldapium.Prelude.Assoc.{lookup, put}
use ldapium.Passwords.{
  Attempts, PasswordLimiter, System, Call, begins, finishes, run, new_password_limiter,
}
use ldapium.Passwords.Concurrency.{IsConsistent, run-new_password_limiter}

abbrev account : Bytes
account = 7 ∷ []

abbrev limiter : PasswordLimiter
limiter = record { limit = 2; window = 10; max_entries = 3; entries = [] }

abbrev new_system : System
new_system = record { limiter = limiter; handles = [] }

-- Two wrong passwords; the second closure is called twice.
abbrev calls : List (ℕ × Call)
calls =
    (1, begins account)
    ∷ (2, finishes 0 "rejected")
    ∷ (3, begins account)
    ∷ (4, finishes 1 "rejected")
    ∷ (5, finishes 1 "success")
    ∷ []

abbrev two_wrong : Attempts
two_wrong = record { fails = 2 ∷ 4 ∷ []; inflight = 0 }

abbrev locked : PasswordLimiter
locked = record limiter { entries = (account, two_wrong) ∷ [] }

runs :
    run calls new_system
    ≡ record { limiter = locked; handles = (account, true) ∷ (account, true) ∷ [] }
unfolding run lookup put retain
runs = refl

is_new : new_password_limiter 2 10 3 ≡ some limiter
unfolding new_password_limiter
is_new = refl

run-new_password_limiter_example : IsConsistent 2 3 (run calls new_system)
run-new_password_limiter_example = run-new_password_limiter 2 10 3 limiter calls is_new

abbrev no_one : Bytes → ℕ
no_one key = 0
