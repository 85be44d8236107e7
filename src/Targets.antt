-- ===== src/Targets.antt =====
-- ui/backend/internal/httpapi/machine_write_cred_limiter.go: one password write at a time per target
-- entry. The release closure of a reservation is a handle: its position among those given out, with
-- the flag of its `sync.Once`. The mutex is held for each body, so each is one step.
pub mod Exclusion
mod Tests
use ldapium.Prelude.{
  ℕ, Bool, true, false, ◌||◌, Option, none, some, is_some, List, [], ◌∷◌, ◌++◌, if◌then◌else◌,
  get_elem?, length,
}
use ldapium.Prelude.Bytes.{Bytes}
use ldapium.Prelude.Eq.{bytes_eq, ◌==◌}
use ldapium.Prelude.Assoc.{lookup, put, delete}
use ldapium.Passwords.{mark_done}

-- The map `active` of the limiter and the closures that it gave out.
pub record Targets : Type 0 where
  pub active : List (Bytes × Unit {0})
  pub releases : List (Bytes × Bool)

abbrev pub no_targets : Targets
no_targets = record { active = []; releases = [] }

-- Whether the target was reserved; a refused request gets no closure.
unfoldable pub lock : Bytes → Targets → Targets × Bool
lock uuid l = if (uuid == []) || is_some (lookup uuid l.active) then (l, false) else (
  record { active = put uuid tt l.active; releases = l.releases ++ (uuid, false) ∷ [] },
  true,
)

-- A call of the closure with the number.
unfoldable pub release : ℕ → Targets → Targets
unfolding mark_done
release i l = elim (get_elem? l.releases i) [
  | none ↦ l
  | some (uuid, done) ↦
      if done
      then l
      else record { active = delete uuid l.active; releases = mark_done i l.releases }
]

unfoldable pub held : Targets → ℕ
held l = length l.active

pub data Call : Type 0 where
  locks : Bytes → Call
  frees : ℕ → Call

unfoldable pub run : List Call → Targets → Targets
unfolding lock release
run [] l = l
run (locks uuid ∷ cs) l = run cs (lock uuid l).0
run (frees i ∷ cs) l = run cs (release i l)
