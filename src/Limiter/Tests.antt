-- ===== src/Limiter/Tests.antt =====
-- The limiter theorems at concrete inputs, and runs of the code.
use ldapium.Prelude.{ℕ, ◌≡◌, refl, subst, true, false, none, some, List, [], ◌∷◌, arith, all}
use ldapium.Prelude.Bytes.{codes}
use ldapium.Prelude.Eq.{bytes_eq}
use ldapium.Prelude.Assoc.{lookup, put, delete}
use ldapium.Limiter.Table.{
  Limiter, new_bounded, drop_old, last, nth, member, without, remove, earlier, refile, prune_to,
  prune, sweep_from, sweep, maybe_sweep, drop_expired_from, drop_expired, evict_least, reclassify,
  make_room, place,
}
use ldapium.Limiter.Table.Invariant.{Inv}
use ldapium.Limiter.Table.Survives.{BlockedAt}
use ldapium.Limiter.Login.Victim.{Room, evicts_fewest}
use ldapium.Limiter.Login.{
  Netip, limiter_key, allow, append_failure, record_failure, Call, allows, records, counts, admits,
  step, run,
}
use ldapium.Limiter.Login.Invariant.{run-new_bounded}
use ldapium.Limiter.Login.Room.{blocked_stays_blocked}

-- Addresses that are used as they are.
abbrev verbatim : Netip
verbatim = record {
  Addr = ℕ;
  parse_addr = λ ip. none;
  without_zone = λ a. a;
  unmap = λ a. a;
  is6 = λ a. false;
  string = λ a. [];
  masked64 = λ a. [];
}

-- Two failures of one source fill the one slot of the table.
abbrev attack : List (ℕ × Call)
attack = (5, records (codes "a")) ∷ (6, records (codes "a")) ∷ []

full : Limiter
full = run verbatim attack (new_bounded 2 10 1)

abbrev attacked : Limiter
attacked = record {
  limit = 2;
  window = 10;
  max_entries = 1;
  failures = (codes "a", record { fails = 5 ∷ 6 ∷ [] }) ∷ [];
  evictable = [];
  seen = codes "a" ∷ [];
  next_sweep = 15;
  next_unblock = some 15;
}

full-runs : full ≡ attacked
unfolding full run step record_failure append_failure new_bounded maybe_sweep sweep sweep_from
    make_room limiter_key lookup put without member refile prune prune_to drop_old earlier nth
full-runs = refl

run-new_bounded_example : Inv 2 10 1 (run verbatim attack (new_bounded 2 10 1))
run-new_bounded_example = run-new_bounded verbatim 2 10 1 attack (omega arith)

attacked-Inv : Inv 2 10 1 attacked
attacked-Inv = subst (Inv 2 10 1) full-runs (unfold full in run-new_bounded_example)

attacked-blocked : BlockedAt 2 10 14 (limiter_key verbatim (codes "a")) attacked
unfolding limiter_key lookup drop_old all
attacked-blocked =
    (record { fails = 5 ∷ 6 ∷ [] }, refl, record { enough = omega arith; fresh = refl })

abbrev flood : List (ℕ × Call)
flood =
    (7, records (codes "b"))
    ∷ (8, allows (codes "c"))
    ∷ (9, admits (codes "a") 0)
    ∷ (9, counts (codes "a"))
    ∷ []

blocked_stays_blocked_example :
    (allow verbatim 14 (codes "a") (run verbatim flood attacked)).1.0 ≡ false
blocked_stays_blocked_example =
    blocked_stays_blocked verbatim 2 10 1 14 14 (codes "a") flood attacked (omega arith)
      attacked-Inv attacked-blocked (omega arith) (omega arith)

b_refused : (allow verbatim 7 (codes "b") attacked).1.0 ≡ false
unfolding allow limiter_key lookup maybe_sweep make_room drop_expired drop_expired_from reclassify
    last
b_refused = refl

-- Two sources below the limit fill the two slots of the table.
abbrev attempts : List (ℕ × Call)
attempts = (5, records (codes "a")) ∷ (6, records (codes "b")) ∷ (7, records (codes "a")) ∷ []

-- The second failure of `a` moves it behind `b`, which goes.
b_goes :
    (make_room 8 true (maybe_sweep 8 (run verbatim attempts (new_bounded 3 10 2)))).0.evictable
    ≡ codes "a" ∷ []
unfolding run step record_failure append_failure new_bounded maybe_sweep sweep sweep_from make_room
    limiter_key lookup put delete without member refile place prune prune_to drop_old earlier nth
    last drop_expired drop_expired_from reclassify evict_least remove
b_goes = refl

evicts_fewest_example :
    let l = maybe_sweep 8 (run verbatim attempts (new_bounded 3 10 2)) in
    let dropped = drop_expired 8 l in Room l dropped (reclassify 8 dropped) (make_room 8 true l)
evicts_fewest_example = evicts_fewest verbatim 3 10 2 8 attempts
