-- ===== src/Targets/Tests.antt =====
-- Runs of the reservations and the witness of their theorem
-- (ui/backend/internal/httpapi/machine_write_cred_limiter.go).
use ldapium.Prelude.{◌≤◌, ◌≡◌, ◌↔◌, refl, true, false, List, [], ◌∷◌}
use ldapium.Prelude.Bytes.{Bytes}
use ldapium.Prelude.Eq.{bytes_eq, ◌==◌}
use ldapium.Prelude.Assoc.{lookup, put, delete}
use ldapium.Passwords.Invariant.{outstanding}
use ldapium.Targets.{no_targets, lock, held, Call, locks, frees, run}
use ldapium.Targets.Exclusion.{one_writer_per_target}

abbrev target : Bytes
target = 7 ∷ []

-- The first closure is called again after the target was reserved anew.
abbrev calls : List Call
calls = locks target ∷ frees 0 ∷ locks target ∷ frees 0 ∷ locks target ∷ []

still_held :
    run calls no_targets
    ≡ record { active = (target, tt) ∷ []; releases = (target, true) ∷ (target, false) ∷ [] }
unfolding run lookup put delete
still_held = refl

one_held : held (run calls no_targets) ≡ 1
unfolding run lookup put delete held
one_held = refl

one_writer_per_target_example :
    (outstanding target (run calls no_targets).releases ≤ 1)
    × (((lock target (run calls no_targets)).1 ≡ true)
        ↔ (((target == []) ≡ false) × (outstanding target (run calls no_targets).releases ≡ 0)))
one_writer_per_target_example = one_writer_per_target calls target
