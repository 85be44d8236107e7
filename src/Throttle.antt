-- ===== src/Throttle.antt =====
-- ui/backend/internal/httpapi/machine_limiter.go: the throttle of machine requests per address,
-- which counts the reservations of requests under way beside the failures of the login limiter's
-- table. The mutex is held for each body, so each is one step; a ticket's release runs once.
pub mod Reservations
mod Tests
use ldapium.Prelude.{
  ℕ, suc, ◌+◌, Bool, true, false, ◌&&◌, ◌||◌, Option, none, some, or_else, List, [], ◌∷◌, ◌++◌, ltb,
  leb, if◌then◌else◌, length, retain,
}
use ldapium.Prelude.Bytes.{Bytes}
use ldapium.Prelude.Eq.{bytes_eq, nat_eq, ◌==◌}
use ldapium.Prelude.Assoc.{lookup, put, delete}
use ldapium.Limiter.Table.{Limiter, new_bounded, default_max_entries}
use ldapium.Limiter.Login
use ldapium.Limiter.Login.{Netip, limiter_key, ceil_seconds, record_failure}

pub record Reservation : Type 0 where
  pub id : ℕ
  pub expires : ℕ

-- What a request under way holds; its `failed` is the argument of the release.
pub record Ticket : Type 0 where
  pub ip : Bytes
  pub key : Bytes
  pub ticket_id : ℕ

pub record Throttle : Type 0 where
  pub fails : Limiter
  pub max : ℕ
  pub ttl : ℕ
  pub res : List (Bytes × List Reservation)
  pub last_id : ℕ

-- `none` is the disabled throttle.
unfoldable pub new_throttle : ℕ → ℕ → ℕ → ℕ → Option Throttle
new_throttle limit window max_entries ttl =
    let max = if max_entries == 0 then default_max_entries else max_entries in
    if (limit == 0) || (window == 0)
    then none
    else some (record {
      fails = new_bounded limit window max;
      max = max;
      ttl = ttl;
      res = [];
      last_id = 0;
    })

abbrev pub is_live : ℕ → Reservation → Bool
is_live now r = ltb now r.expires

-- The reservations without the expired ones of the key, and how many it has left.
unfoldable pub live_of :
    ℕ
    → Bytes
    → List Reservation
    → List (Bytes × List Reservation)
    → List (Bytes × List Reservation) × ℕ
live_of now key rs res =
    let kept = retain (is_live now) rs in
    if length rs == 0
    then (res, 0)
    else if length kept == 0
    then (delete key res, 0)
    else (put key kept res, length kept)

unfoldable pub live_at :
    ℕ → Bytes → List (Bytes × List Reservation) → List (Bytes × List Reservation) × ℕ
unfolding live_of
live_at now key res = elim (lookup key res) [ none ↦ (res, 0) | some rs ↦ live_of now key rs res ]

unfoldable pub sweep : ℕ → List (Bytes × List Reservation) → List (Bytes × List Reservation)
sweep now [] = []
sweep now ((key, rs) ∷ res) =
    let others = sweep now res in
    let kept = retain (is_live now) rs in
    if length rs == 0
    then (key, rs) ∷ others
    else if length kept == 0
    then others
    else (key, kept) ∷ others

-- `refused` carries the seconds of Retry-After.
pub data Reply : Type 0 where
  issued : Ticket → Reply
  refused : ℕ → Reply

abbrev pub at_least_one : ℕ → ℕ
at_least_one secs = if ltb secs 1 then 1 else secs

unfoldable pub issue : ℕ → Bytes → Bytes → Throttle → Throttle × Reply
issue now ip key t =
    let r : Reservation = record { id = suc t.last_id; expires = now + t.ttl } in
    (
      record t {
        last_id = suc t.last_id;
        res = put key (or_else [] (lookup key t.res) ++ r ∷ []) t.res;
      },
      issued (record { ip = ip; key = key; ticket_id = suc t.last_id }),
    )

module _ (n : Netip) where
  -- The question to the table of failures, with the live reservations.
  unfoldable pub ask : ℕ → Bytes → Bytes → ℕ → Throttle → Throttle × Reply
  unfolding issue
  ask now ip key live t =
      let a = Login.admit n now ip live t.fails in
      let asked : Throttle = record t { fails = a.0 } in
      if (a.1).0
      then issue now ip key asked
      else (asked, refused (at_least_one (ceil_seconds (a.1).1)))

  unfoldable pub admit : ℕ → Bytes → Throttle → Throttle × Reply
  unfolding ask live_at sweep
  admit now ip t =
      let key = limiter_key n ip in
      let live = live_at now key t.res in
      let swept = sweep now live.0 in
      if (live.1 == 0) && leb t.max (length live.0)
      then if leb t.max (length swept)
        then (record t { res = swept }, refused 1)
        else ask now ip key live.1 (record t { res = swept })
      else ask now ip key live.1 (record t { res = live.0 })

  unfoldable pub without_id : ℕ → List Reservation → List Reservation
  without_id i [] = []
  without_id i (r ∷ rs) = if r.id == i then rs else r ∷ without_id i rs

  unfoldable pub give_back :
      Ticket → List (Bytes × List Reservation) → List (Bytes × List Reservation)
  unfolding without_id
  give_back k res =
      let rs = without_id k.ticket_id (or_else [] (lookup k.key res)) in
      if length rs == 0 then delete k.key res else put k.key rs res

  unfoldable pub release : ℕ → Ticket → Bool → Throttle → Throttle
  unfolding give_back
  release now k failed t =
      let given : Throttle = record t { res = give_back k t.res } in
      if failed then record given { fails = record_failure n now k.ip t.fails } else given

  pub data Call : Type 0 where
    admits : Bytes → Call
    releases : Ticket → Bool → Call

  unfoldable pub run : List (ℕ × Call) → Throttle → Throttle
  unfolding admit release
  run [] t = t
  run ((now, admits ip) ∷ cs) t = run cs (admit now ip t).0
  run ((now, releases k failed) ∷ cs) t = run cs (release now k failed t)
