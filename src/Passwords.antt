-- ===== src/Passwords.antt =====
-- ui/backend/internal/httpapi/password_limiter.go: the limit on wrong passwords per account, which
-- counts the attempts in flight. Every call holds the mutex, so each is one step. A `finish` closure
-- is a handle: its position among those given out, with the flag of its `sync.Once`.
pub mod Entries
pub mod Sweep
pub mod Invariant
pub mod Calls
pub mod Concurrency
pub mod Refusal
mod Tests
use ldapium.Prelude.{
  ℕ, zero, suc, ◌+◌, ◌-◌, Bool, true, false, ◌&&◌, ◌||◌, not, Option, none, some, List, [], ◌∷◌,
  ◌++◌, String, ltb, leb, if◌then◌else◌, length, retain, get_elem?, or_else,
}
use ldapium.Prelude.Bytes.{Bytes}
use ldapium.Prelude.Eq.{bytes_eq, text_eq, nat_eq, ◌==◌}
use ldapium.Prelude.Assoc.{lookup, put, delete}

-- passwordLimiterEntry
pub record Attempts : Type 0 where
  pub fails : List ℕ
  pub inflight : ℕ

-- passwordLimiter
pub record PasswordLimiter : Type 0 where
  pub limit : ℕ
  pub window : ℕ
  pub max_entries : ℕ
  pub entries : List (Bytes × Attempts)

abbrev pub no_attempts : Attempts
no_attempts = record { fails = []; inflight = 0 }

-- `none` is the nil limiter, which lets everything through.
unfoldable pub new_password_limiter : ℕ → ℕ → ℕ → Option PasswordLimiter
new_password_limiter limit window max =
    if (limit == 0) || (window == 0) || (max == 0)
    then none
    else some (record { limit = limit; window = window; max_entries = max; entries = [] })

-- `t.After(now.Add(-window))`
abbrev pub is_recent : ℕ → ℕ → ℕ → Bool
is_recent window now t = ltb now (t + window)

unfoldable pub pruned : ℕ → ℕ → Attempts → Attempts
pruned window now a = record a { fails = retain (is_recent window now) a.fails }

abbrev pub is_idle : Attempts → Bool
is_idle a = (length a.fails == 0) && (a.inflight == 0)

-- An entry is deleted when nothing is left of it.
unfoldable pub store : Bytes → Attempts → List (Bytes × Attempts) → List (Bytes × Attempts)
store key a es = if is_idle a then delete key es else put key a es

unfoldable pub prune_entry :
    ℕ → ℕ → Bytes → Attempts → List (Bytes × Attempts) → List (Bytes × Attempts)
unfolding store pruned
prune_entry window now key a es = store key (pruned window now a) es

unfoldable pub sweep : ℕ → ℕ → List (Bytes × Attempts) → List (Bytes × Attempts)
unfolding pruned
sweep window now [] = []
sweep window now ((key, a) ∷ es) =
    let rest = sweep window now es in
    if is_idle (pruned window now a) then rest else (key, pruned window now a) ∷ rest

-- `admitted` stands for the closure that is given out, `refused` for the wait.
pub data Reply : Type 0 where
  admitted : Reply
  refused : ℕ → Reply

unfoldable pub retry_after : ℕ → ℕ → List ℕ → ℕ
retry_after window now [] = if window == 0 then 1 else window
retry_after window now (t ∷ ts) = let wait = (t + window) - now in if wait == 0 then 1 else wait

unfoldable pub prune_known : ℕ → Bytes → PasswordLimiter → List (Bytes × Attempts)
unfolding prune_entry
prune_known now key l = elim (lookup key l.entries) [
  | none ↦ l.entries
  | some a ↦ prune_entry l.window now key a l.entries
]

-- The test of the limit, with the key's entry in place.
unfoldable pub reserve : ℕ → Bytes → Attempts → PasswordLimiter → PasswordLimiter × Reply
unfolding retry_after
reserve now key a l =
    if leb l.limit (length a.fails + a.inflight)
    then (l, refused (retry_after l.window now a.fails))
    else (
      record l { entries = put key (record a { inflight = suc a.inflight }) l.entries },
      admitted,
    )

unfoldable pub add_entry : Bytes → PasswordLimiter → PasswordLimiter
add_entry key l = record l { entries = put key no_attempts l.entries }

unfoldable pub begin_new : ℕ → Bytes → PasswordLimiter → PasswordLimiter × Reply
unfolding sweep reserve add_entry
begin_new now key l =
    if ltb (length l.entries) l.max_entries
    then reserve now key no_attempts (add_entry key l)
    else let swept : PasswordLimiter = record l { entries = sweep l.window now l.entries } in
      if ltb (length swept.entries) l.max_entries
      then reserve now key no_attempts (add_entry key swept)
      else (swept, refused l.window)

unfoldable pub begin_pruned : ℕ → Bytes → PasswordLimiter → PasswordLimiter × Reply
unfolding begin_new reserve
begin_pruned now key l = elim (lookup key l.entries) [
  | none ↦ begin_new now key l
  | some a ↦ reserve now key a l
]

unfoldable pub begin : ℕ → Bytes → PasswordLimiter → PasswordLimiter × Reply
unfolding begin_pruned prune_known
begin now key l = begin_pruned now key (record l { entries = prune_known now key l })

-- The entry after an attempt with an outcome: "success", "rejected" or another.
unfoldable pub settle : ℕ → String → Attempts → Attempts
settle now outcome a =
    if outcome == "success"
    then record a { fails = []; inflight = a.inflight - 1 }
    else if outcome == "rejected"
    then record a { fails = a.fails ++ now ∷ []; inflight = a.inflight - 1 }
    else record a { inflight = a.inflight - 1 }

-- What the closure does the first time.
unfoldable pub finish : ℕ → String → Bytes → PasswordLimiter → PasswordLimiter
unfolding settle store
finish now outcome key l = elim (lookup key l.entries) [
  | none ↦ l
  | some a ↦ record l { entries = store key (settle now outcome a) l.entries }
]

-- The limiter and the closures that it gave out: their keys, and whether they ran.
pub record System : Type 0 where
  pub limiter : PasswordLimiter
  pub handles : List (Bytes × Bool)

pub data Call : Type 0 where
  begins : Bytes → Call
  finishes : ℕ → String → Call

unfoldable pub mark_done : ℕ → List (Bytes × Bool) → List (Bytes × Bool)
mark_done i [] = []
mark_done zero ((k, done) ∷ hs) = (k, true) ∷ hs
mark_done (suc i) (h ∷ hs) = h ∷ mark_done i hs

abbrev pub give_handle : Bytes → Reply → List (Bytes × Bool) → List (Bytes × Bool)
give_handle key admitted hs = hs ++ (key, false) ∷ []
give_handle key (refused wait) hs = hs

unfoldable pub begin_call : ℕ → Bytes → System → System × Reply
unfolding begin
begin_call now key s =
    let r = begin now key s.limiter in
    (record { limiter = r.0; handles = give_handle key r.1 s.handles }, r.1)

-- `once.Do`
unfoldable pub finish_call : ℕ → ℕ → String → System → System
unfolding finish mark_done
finish_call now i outcome s = elim (get_elem? s.handles i) [
  | none ↦ s
  | some (key, done) ↦
      if done
      then s
      else record { limiter = finish now outcome key s.limiter; handles = mark_done i s.handles }
]

unfoldable pub step : ℕ → Call → System → System
unfolding begin_call finish_call
step now (begins key) s = (begin_call now key s).0
step now (finishes i outcome) s = finish_call now i outcome s

unfoldable pub run : List (ℕ × Call) → System → System
unfolding step
run [] s = s
run ((now, c) ∷ cs) s = run cs (step now c s)
