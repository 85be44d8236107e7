-- ===== src/Passwords/Invariant.antt =====
-- The invariant of the limiter and its closures: what every call keeps
-- (ui/backend/internal/httpapi/password_limiter.go).
use ldapium.Prelude.{
  ℕ, suc, ◌+◌, ◌≤◌, ◌<◌, ◌≡◌, ap, ◌∙◌, Bool, ◌&&◌, not, to_ℕ, none, some, Option-cases, Bool-cases,
  inl, inr, List, [], ◌∷◌, leb, if◌then◌else◌, length, arith,
}
use ldapium.Prelude.Bytes.{Bytes}
use ldapium.Prelude.Eq.{bytes_eq, text_eq, nat_eq, bytes_beq_iff, ◌==◌}
use ldapium.Prelude.Assoc.{
  lookup, put, IsMap, put-IsMap, lookup-put, length-put_old, length-put_new,
}
use ldapium.Passwords.{
  Attempts, PasswordLimiter, no_attempts, store, pruned, prune_entry, sweep, Reply, admitted,
  refused, prune_known, reserve, add_entry,
}
use ldapium.Passwords.Entries.{
  attempts_of, attempts_of-put, attempts_of-store, store-IsMap, length-store_le, held,
  held-pruned_le,
}
use ldapium.Passwords.Sweep.{sweep-IsMap, length-sweep_le, attempts_of-sweep}

-- The closures of the key that have not run.
unfoldable pub outstanding : Bytes → List (Bytes × Bool) → ℕ
outstanding key [] = 0
outstanding key ((k, done) ∷ hs) = to_ℕ ((k == key) && not done) + outstanding key hs

-- For every key the attempts in flight are the closures that have not run, and with the recent
-- failures they are at most the limit; the map is bounded and its keys are distinct.
pub record Inv (limit max : ℕ) (n : Bytes → ℕ) (l : PasswordLimiter) : Type 0 where
  pub limit_is : l.limit ≡ limit
  pub max_is : l.max_entries ≡ max
  pub distinct : IsMap l.entries
  pub bounded : length l.entries ≤ max
  pub counted : (key : Bytes) → (attempts_of key l.entries).inflight ≡ n key
  pub limited : (key : Bytes) → held (attempts_of key l.entries) ≤ limit

-- One more attempt of the key.
abbrev pub one_more : Bytes → (Bytes → ℕ) → Bytes → ℕ
one_more key n j = if key == j then suc (n j) else n j

abbrev pub after_reply : Reply → Bytes → (Bytes → ℕ) → Bytes → ℕ
after_reply admitted key n = one_more key n
after_reply (refused w) key n = n

module _ (limit max : ℕ) (n : Bytes → ℕ) where
  pub with_entries_lem :
      (es : List (Bytes × Attempts)) (l : PasswordLimiter)
      → Inv limit max n l
      → IsMap es
      → length es ≤ length l.entries
      → ((key : Bytes) → (attempts_of key es).inflight ≡ (attempts_of key l.entries).inflight)
      → ((key : Bytes) → held (attempts_of key es) ≤ held (attempts_of key l.entries))
      → Inv limit max n (record l { entries = es })
  with_entries_lem es l v m len f h = record {
    limit_is = v.limit_is;
    max_is = v.max_is;
    distinct = m;
    bounded = omega (arith, len, v.bounded);
    counted = λ key. f key ∙ v.counted key;
    limited = λ key. omega (arith, h key, v.limited key);
  }

  pub sweep-Inv :
      (now : ℕ) (l : PasswordLimiter)
      → Inv limit max n l
      → Inv limit max n (record l { entries = sweep l.window now l.entries })
  unfolding pruned
  sweep-Inv now l v =
      with_entries_lem (sweep l.window now l.entries) l v
        (sweep-IsMap l.window now l.entries v.distinct) (length-sweep_le l.window now l.entries)
        (λ key.
          ap (λ (a : Attempts). a.inflight)
            (attempts_of-sweep l.window now key l.entries v.distinct))
        (λ key. omega (
          arith,
          ap held (attempts_of-sweep l.window now key l.entries v.distinct),
          held-pruned_le l.window now (attempts_of key l.entries),
        ))

  pub prune_known-Inv :
      (now : ℕ) (key : Bytes) (l : PasswordLimiter)
      → Inv limit max n l
      → Inv limit max n (record l { entries = prune_known now key l })
  unfolding prune_known prune_entry pruned
  prune_known-Inv now key l v = elim (Option-cases (lookup key l.entries)) [
    | inl e ↦ rw (e, prune_known) v
    | inr (a, e) ↦
        rw (e, prune_known)
          (with_entries_lem (store key (pruned l.window now a) l.entries) l v
            (store-IsMap key (pruned l.window now a) l.entries v.distinct)
            (length-store_le key (pruned l.window now a) a l.entries e)
            (λ j. ground (
              arith,
              e,
              bytes_beq_iff key j,
              attempts_of-store key j (pruned l.window now a) l.entries,
            ))
            (λ j. ground (
              arith,
              e,
              bytes_beq_iff key j,
              held-pruned_le l.window now a,
              attempts_of-store key j (pruned l.window now a) l.entries,
            )))
  ]

  pub put-Inv :
      (key : Bytes) (a : Attempts) (m : Bytes → ℕ) (l : PasswordLimiter)
      → Inv limit max n l
      → length (put key a l.entries) ≤ max
      → held a ≤ limit
      → ((j : Bytes) → m j ≡ (if key == j then a.inflight else n j))
      → Inv limit max m (record l { entries = put key a l.entries })
  put-Inv key a m l v len h f = record {
    limit_is = v.limit_is;
    max_is = v.max_is;
    distinct = put-IsMap key a l.entries v.distinct;
    bounded = len;
    counted = λ j. ground (arith, attempts_of-put key j a l.entries, v.counted j, f j);
    limited = λ j. ground (arith, attempts_of-put key j a l.entries, v.limited j, h);
  }

  pub reserve-Inv :
      (now : ℕ) (key : Bytes) (a : Attempts) (l : PasswordLimiter)
      → Inv limit max n l
      → lookup key l.entries ≡ some a
      → Inv limit max (after_reply (reserve now key a l).1 key n) (reserve now key a l).0
  unfolding reserve
  reserve-Inv now key a l v h = elim (Bool-cases (leb l.limit (length a.fails + a.inflight))) [
    | inl e ↦ rw e v
    | inr e ↦ rw e (
        put-Inv key (record a { inflight = suc a.inflight }) (one_more key n) l v
          (ground (
            arith,
            v.bounded,
            length-put_old key (record a { inflight = suc a.inflight }) a l.entries h,
          ))
          (ground (arith, e, v.limit_is))
          (λ j. ground (arith, h, bytes_beq_iff key j, v.counted j)))
  ]

  pub add_entry-Inv :
      (key : Bytes) (l : PasswordLimiter)
      → Inv limit max n l
      → lookup key l.entries ≡ none
      → length l.entries < max
      → Inv limit max n (add_entry key l)
  unfolding add_entry
  add_entry-Inv key l v h r =
      put-Inv key no_attempts n l v (ground (arith, r, length-put_new key no_attempts l.entries h))
        (omega arith) (λ j. ground (arith, h, bytes_beq_iff key j, v.counted j))

  pub reserve_added :
      (now : ℕ) (key : Bytes) (l : PasswordLimiter)
      → Inv limit max n l
      → lookup key l.entries ≡ none
      → length l.entries < max
      → let r = reserve now key no_attempts (add_entry key l) in
        Inv limit max (after_reply r.1 key n) r.0
  unfolding add_entry
  reserve_added now key l v h r =
      reserve-Inv now key no_attempts (add_entry key l) (add_entry-Inv key l v h r)
        (ground (arith, bytes_beq_iff key key, lookup-put key key no_attempts l.entries))
