-- ===== src/Limiter/Table.antt =====
-- ui/backend/internal/httpapi/login_limiter.go: the bounded table of failures per source.
-- Each method runs under the limiter's mutex; the clock's value is an argument, in nanoseconds.
-- An entry is found by its key: `evictable` and `seen` hold keys where the code holds pointers to
-- entries, so an entry's `hidx >= 0` is membership in `evictable` and `selem` its place in `seen`.
-- `evictable` is container/heap by what it promises: Push, Fix and Remove keep a least element at
-- index 0, if every change of an element is followed by its Fix. Here the keys stand in the order
-- of `Less`, Push and Fix put one key in its place by the entries as the table has them then, and
-- the others stay; which of several equal ones is first is the library's choice. A key whose entry
-- changed without a Fix is out of order. `t.Before(now.Add(-window))` is `t + window < now`.
pub mod Entries
pub mod Invariant
pub mod Untracked
pub mod Blocked
pub mod Survives
pub mod Ordered
pub mod Rooted
use ldapium.Prelude.{
  ℕ, suc, ◌+◌, ◌-◌, ◌%◌, ◌/◌, Bool, true, false, ◌&&◌, ◌||◌, not, Option, none, some, List, [], ◌∷◌,
  ◌++◌, ltb, leb, or_else, is_some, if◌then◌else◌, length, retain, any, get_elem?,
}
use ldapium.Prelude.Bytes.{Bytes}
use ldapium.Prelude.Eq.{bytes_eq, nat_eq, ◌==◌}
use ldapium.Prelude.Assoc.{lookup, put, delete}

pub record Entry : Type 0 where
  pub fails : List ℕ

pub record Limiter : Type 0 where
  pub limit : ℕ
  pub window : ℕ
  pub max_entries : ℕ
  pub failures : List (Bytes × Entry)
  pub evictable : List Bytes
  pub seen : List Bytes
  pub next_sweep : ℕ
  pub next_unblock : Option ℕ

abbrev pub default_max_entries : ℕ
default_max_entries = 10000

-- A limit, window or cap of 0 stands for any that is not positive.
unfoldable pub new_bounded : ℕ → ℕ → ℕ → Limiter
new_bounded limit window max = record {
  limit = limit;
  window = window;
  max_entries = if leb max 0 then default_max_entries else max;
  failures = [];
  evictable = [];
  seen = [];
  next_sweep = 0;
  next_unblock = none;
}

unfoldable pub new_login : ℕ → ℕ → Limiter
unfolding new_bounded
new_login limit window = new_bounded limit window default_max_entries

abbrev pub is_old : ℕ → ℕ → ℕ → Bool
is_old window now t = ltb (t + window) now

-- The loop of `prune`: the failures before the cutoff go.
unfoldable pub drop_old : ℕ → ℕ → List ℕ → List ℕ
drop_old window now [] = []
drop_old window now (t ∷ ts) =
    let rest = drop_old window now ts in if is_old window now t then rest else t ∷ ts

-- e.fails[len(e.fails)-1]; an entry of the table has a failure.
unfoldable pub last : List ℕ → ℕ
last [] = 0
last (t ∷ []) = t
last (t ∷ u ∷ ts) = last (u ∷ ts)

-- e.fails[i]
unfoldable pub nth : List ℕ → ℕ → ℕ
nth ts i = or_else 0 (get_elem? ts i)

unfoldable pub member : Bytes → List Bytes → Bool
member k [] = false
member k (j ∷ js) = j == k || member k js

unfoldable pub without : Bytes → List Bytes → List Bytes
without k [] = []
without k (j ∷ js) = let rest = without k js in if j == k then rest else j ∷ rest

unfoldable pub remove : Bytes → Limiter → Limiter
remove k l = record l {
  failures = delete k l.failures;
  evictable = without k l.evictable;
  seen = without k l.seen;
}

-- l.nextUnblock.IsZero() || unblock.Before(l.nextUnblock)
unfoldable pub earlier : ℕ → Option ℕ → Option ℕ
earlier t none = some t
earlier t (some u) = if ltb t u then some t else some u

abbrev pub fails_at : Bytes → Limiter → List ℕ
fails_at k l = elim (lookup k l.failures) [ none ↦ [] | some e ↦ e.fails ]

-- `Less` of the heap.
abbrev pub less : List ℕ → List ℕ → Bool
less a b = if length a == length b then ltb (last a) (last b) else ltb (length a) (length b)

-- The place of an entry with these failures among the others: after those that are less.
unfoldable pub place : Limiter → List ℕ → Bytes → List Bytes → List Bytes
place l fails k [] = k ∷ []
place l fails k (j ∷ js) =
    let rest = place l fails k js in if less (fails_at j l) fails then j ∷ rest else k ∷ j ∷ js

abbrev pub heap_push : Bytes → List ℕ → Limiter → List Bytes
heap_push k fails l = place l fails k l.evictable

abbrev pub heap_fix : Bytes → List ℕ → Limiter → List Bytes
heap_fix k fails l = place l fails k (without k l.evictable)

-- `fails` are the failures of the entry at `k`.
unfoldable pub refile : Bytes → List ℕ → Limiter → Limiter
unfolding place without
refile k fails l =
    if ltb (length fails) l.limit
    then record l {
      evictable = if member k l.evictable then heap_fix k fails l else heap_push k fails l;
    }
    else record l {
      evictable = without k l.evictable;
      next_unblock = earlier (nth fails (length fails - l.limit) + l.window) l.next_unblock;
    }

-- `prune`, with the failures that its loop leaves.
unfoldable pub prune_to : Bytes → List ℕ → Limiter → Limiter
prune_to k [] l = remove k l
prune_to k (t ∷ ts) l =
    refile k (t ∷ ts) (record l { failures = put k (record { fails = t ∷ ts }) l.failures })

unfoldable pub prune : ℕ → Bytes → Entry → Limiter → Limiter
unfolding prune_to
prune now k e l = prune_to k (drop_old l.window now e.fails) l

-- The loop of `sweep`, over the entries that it still has to visit.
unfoldable pub sweep_from : ℕ → List (Bytes × Entry) → Limiter → Limiter
sweep_from now [] l = l
sweep_from now ((k, e) ∷ rest) l = sweep_from now rest (prune now k e l)

unfoldable pub sweep : ℕ → Limiter → Limiter
unfolding sweep_from
sweep now l = sweep_from now l.failures (record l { next_unblock = none })

unfoldable pub maybe_sweep : ℕ → Limiter → Limiter
unfolding sweep
maybe_sweep now l =
    if ltb now l.next_sweep then l else record (sweep now l) { next_sweep = now + l.window }

-- The loop of `dropExpired` removes the front of `seen` as long as it is wholly expired.
unfoldable pub drop_expired_from : ℕ → List Bytes → Limiter → Limiter
drop_expired_from now [] l = l
drop_expired_from now (k ∷ ks) l =
    let rest = drop_expired_from now ks (remove k l) in
    if is_old l.window now (last (fails_at k l)) then rest else l

unfoldable pub drop_expired : ℕ → Limiter → Limiter
unfolding drop_expired_from
drop_expired now l = drop_expired_from now l.seen l

abbrev pub after : ℕ → Option ℕ → Bool
after now none = true
after now (some u) = ltb u now

abbrev pub has_room : Limiter → Bool
has_room l = ltb (length l.failures) l.max_entries

-- The root of the heap goes, l.evictable[0].
unfoldable pub evict_least : Bool → List Bytes → Limiter → Limiter × Bool
evict_least evict [] l = (l, false)
evict_least evict (k ∷ ks) l = (if evict then remove k l else l, true)

-- Only blocked entries remain and one may have dropped below the limit.
unfoldable pub reclassify : ℕ → Limiter → Limiter
reclassify now l = elim l.evictable [
  | [] ↦ if after now l.next_unblock then sweep now l else l
  | k ∷ ks ↦ l
]

unfoldable pub make_room : ℕ → Bool → Limiter → Limiter × Bool
unfolding evict_least
make_room now evict l =
    if has_room l
    then (l, true)
    else let dropped = drop_expired now l in
      if has_room dropped
      then (dropped, true)
      else let swept = reclassify now dropped in
        if has_room swept then (swept, true) else evict_least evict swept.evictable swept
