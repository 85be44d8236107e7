-- ===== src/Throttle/Tests.antt =====
-- Runs of the throttle and the witness of its theorem
-- (ui/backend/internal/httpapi/machine_limiter.go).
use ldapium.Prelude.{ℕ, ◌≤◌, ◌≡◌, refl, false, none, some, List, [], ◌∷◌, length}
use ldapium.Prelude.Bytes.{Bytes, codes}
use ldapium.Prelude.Eq.{bytes_eq}
use ldapium.Limiter.Table.{new_bounded}
use ldapium.Limiter.Login.{Netip}
use ldapium.Throttle.{Throttle, refused, admit, run, Call, admits, new_throttle}
use ldapium.Throttle.Reservations.{throttle_bounded}

-- Addresses that are keys as they are written.
abbrev as_written : Netip
as_written = record {
  Addr = Bytes;
  parse_addr = λ ip. none;
  without_zone = λ a. a;
  unmap = λ a. a;
  is6 = λ a. false;
  string = λ a. a;
  masked64 = λ a. a;
}

abbrev throttle : Throttle
throttle = record { fails = new_bounded 2 60 1; max = 1; ttl = 9; res = []; last_id = 0 }

is_new : new_throttle 2 60 1 9 ≡ some throttle
unfolding new_throttle
is_new = refl

-- The second source is refused while the first holds the only place.
abbrev calls : List (ℕ × Call as_written)
calls = (1, admits (codes "a")) ∷ (2, admits (codes "b")) ∷ []

throttle_bounded_example :
    (length (run as_written calls throttle).res ≤ (run as_written calls throttle).max)
    × ((now : ℕ) (ip : Bytes) (secs : ℕ)
        → (admit as_written now ip (run as_written calls throttle)).1 ≡ refused secs
        → 1 ≤ secs)
throttle_bounded_example = throttle_bounded as_written 2 60 1 9 throttle calls is_new
