-- ===== src/Limiter/Login.antt =====
-- ui/backend/internal/httpapi/login_limiter.go: who may try to log in, and what a failure records.
pub mod Invariant
pub mod Blocked
pub mod Room
pub mod Victim
use ldapium.Prelude.{
  ℕ, suc, ◌+◌, ◌-◌, ◌%◌, ◌/◌, Bool, true, false, ◌&&◌, ◌||◌, not, Option, none, some, List, [], ◌∷◌,
  ◌++◌, ltb, leb, or_else, is_some, if◌then◌else◌, length, retain, any, get_elem?,
}
use ldapium.Prelude.Bytes.{Bytes}
use ldapium.Prelude.Eq.{bytes_eq, nat_eq, ◌==◌}
use ldapium.Prelude.Assoc.{lookup, put, delete}
use ldapium.Limiter.Table.{
  Entry, Limiter, drop_old, nth, refile, prune, without, maybe_sweep, make_room,
}

-- `net/netip`, as far as `limiterKey` uses it.
pub record Netip : Type 1 where
  pub Addr : Type 0
  pub parse_addr : Bytes → Option Addr
  pub without_zone : Addr → Addr
  pub unmap : Addr → Addr
  pub is6 : Addr → Bool
  pub string : Addr → Bytes
  pub masked64 : Addr → Bytes

module _ (n : Netip) where
  open n use {Addr, parse_addr, without_zone, unmap, is6, string, masked64}

  limiter_key_of : Addr → Bytes
  limiter_key_of addr = if is6 addr then masked64 addr else string addr

  unfoldable pub limiter_key : Bytes → Bytes
  unfolding limiter_key_of
  limiter_key ip = elim (parse_addr ip) [
    | none ↦ ip
    | some addr ↦ limiter_key_of (unmap (without_zone addr))
  ]

-- The failures of an entry after `prune`: its loop's, or nil when the entry was removed.
abbrev pub recent : ℕ → Limiter → Entry → List ℕ
recent now l e = drop_old l.window now e.fails

-- window - now.Sub(t), at least 0.
abbrev pub wait_for : ℕ → ℕ → ℕ → ℕ
wait_for window now t = window + t - now

allow_known : ℕ → Bytes → Entry → Limiter → Limiter × (Bool × ℕ)
allow_known now key e l =
    let fails = recent now l e in
    (
      prune now key e l,
      if ltb (length fails) l.limit
          then (true, 0)
          else (false, wait_for l.window now (nth fails 0)),
    )

allow_new : ℕ → Limiter → Limiter × (Bool × ℕ)
allow_new now l =
    let (l', room) = make_room now false l in (l', if room then (true, 0) else (false, l.window))

pub allow_at : ℕ → Bytes → Limiter → Limiter × (Bool × ℕ)
unfolding allow_known allow_new
allow_at now key l = elim (lookup key l.failures) [
  | none ↦ allow_new now l
  | some e ↦ allow_known now key e l
]

-- `failed` and `reserved` against the limit, and the wait.
abbrev pub decide : ℕ → ℕ → List ℕ → Limiter → Bool × ℕ
decide now reserved fails l =
    if ltb (length fails + reserved) l.limit
    then (true, 0)
    else if ltb (length fails) l.limit
    then (false, 0)
    else (false, wait_for l.window now (nth fails (length fails - l.limit)))

-- No entry, or one that `prune` removed.
admit_new : ℕ → ℕ → Limiter → Limiter × (Bool × ℕ)
admit_new now reserved l =
    let (l', room) = make_room now false l in
    (l', if room then decide now reserved [] l' else (false, l.window))

admit_known : ℕ → ℕ → List ℕ → Limiter → Limiter × (Bool × ℕ)
unfolding admit_new
admit_known now reserved [] l = admit_new now reserved l
admit_known now reserved (t ∷ ts) l = (l, decide now reserved (t ∷ ts) l)

pub admit_at : ℕ → Bytes → ℕ → Limiter → Limiter × (Bool × ℕ)
unfolding admit_new admit_known
admit_at now key reserved l = elim (lookup key l.failures) [
  | none ↦ admit_new now reserved l
  | some e ↦ admit_known now reserved (recent now l e) (prune now key e l)
]

-- The entry is written with the new failure, goes to the back of `seen`, and is re-filed.
unfoldable pub append_failure : ℕ → Bytes → List ℕ → Limiter → Limiter
append_failure now key fails l = refile key (fails ++ now ∷ []) (record l {
  failures = put key (record { fails = fails ++ now ∷ [] }) l.failures;
  seen = without key l.seen ++ key ∷ [];
})

record_new : ℕ → Bytes → Limiter → Limiter
record_new now key l =
    let (l', room) = make_room now true l in if room then append_failure now key [] l' else l'

record_known : ℕ → Bytes → List ℕ → Limiter → Limiter
unfolding record_new
record_known now key [] l = record_new now key l
record_known now key (t ∷ ts) l = append_failure now key (t ∷ ts) l

pub record_at : ℕ → Bytes → Limiter → Limiter
unfolding record_new record_known
record_at now key l = elim (lookup key l.failures) [
  | none ↦ record_new now key l
  | some e ↦ record_known now key (recent now l e) (prune now key e l)
]

module _ (n : Netip) where
  unfoldable pub allow : ℕ → Bytes → Limiter → Limiter × (Bool × ℕ)
  unfolding allow_at
  allow now ip l =
      if leb l.limit 0 then (l, (true, 0)) else allow_at now (limiter_key n ip) (maybe_sweep now l)

  unfoldable pub admit : ℕ → Bytes → ℕ → Limiter → Limiter × (Bool × ℕ)
  unfolding admit_at
  admit now ip reserved l =
      if leb l.limit 0
      then (l, (true, 0))
      else admit_at now (limiter_key n ip) reserved (maybe_sweep now l)

  -- `FailureCount`: prunes the entry, and creates none.
  unfoldable pub failure_count : ℕ → Bytes → Limiter → Limiter × ℕ
  failure_count now ip l = elim (lookup (limiter_key n ip) l.failures) [
    | none ↦ (l, 0)
    | some e ↦ (prune now (limiter_key n ip) e l, length (recent now l e))
  ]

  unfoldable pub record_failure : ℕ → Bytes → Limiter → Limiter
  unfolding record_at
  record_failure now ip l =
      if leb l.limit 0 then l else record_at now (limiter_key n ip) (maybe_sweep now l)

unfoldable pub entry_count : Limiter → ℕ
entry_count l = length l.failures

-- A duration in nanoseconds as whole seconds, rounded up.
unfoldable pub ceil_seconds : ℕ → ℕ
ceil_seconds d = if d % 1000000000 == 0 then d / 1000000000 else d / 1000000000 + 1

-- What a caller can ask, at a time.
pub data Call : Type 0 where
  allows records counts : Bytes → Call
  admits : Bytes → ℕ → Call

unfoldable pub step : Netip → ℕ → Call → Limiter → Limiter
step n now (allows ip) l = (allow n now ip l).0
step n now (records ip) l = record_failure n now ip l
step n now (counts ip) l = (failure_count n now ip l).0
step n now (admits ip reserved) l = (admit n now ip reserved l).0

unfoldable pub run : Netip → List (ℕ × Call) → Limiter → Limiter
unfolding step
run n [] l = l
run n ((now, c) ∷ cs) l = run n cs (step n now c l)
