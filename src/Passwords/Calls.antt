-- ===== src/Passwords/Calls.antt =====
-- `begin` and `finish` keep the invariant
-- (ui/backend/internal/httpapi/password_limiter.go).
use ldapium.Prelude.{
  ℕ, ◌-◌, ◌≤◌, ◌<◌, ◌≡◌, ◌∙◌, none, Option-cases, Bool-cases, inl, inr, [], ◌∷◌, String, ltb,
  if◌then◌else◌, length, length-append, arith,
}
use ldapium.Prelude.Bytes.{Bytes}
use ldapium.Prelude.Eq.{bytes_eq, text_eq, nat_eq, bytes_beq_iff, ◌==◌}
use ldapium.Prelude.Assoc.{lookup}
use ldapium.Passwords.{
  Attempts, PasswordLimiter, sweep, prune_known, begin_new, begin_pruned, begin, settle, finish,
}
use ldapium.Passwords.Entries.{attempts_of-store, store-IsMap, length-store_le, held}
use ldapium.Passwords.Sweep.{sweep-none}
use ldapium.Passwords.Invariant.{
  Inv, after_reply, sweep-Inv, prune_known-Inv, reserve-Inv, reserve_added,
}

-- One attempt fewer.
abbrev pub one_less : Bytes → (Bytes → ℕ) → Bytes → ℕ
one_less key n j = if key == j then n j - 1 else n j

module _ (limit max : ℕ) where
  begin_new-Inv :
      (n : Bytes → ℕ) (now : ℕ) (key : Bytes) (l : PasswordLimiter)
      → Inv limit max n l
      → lookup key l.entries ≡ none
      → Inv limit max (after_reply (begin_new now key l).1 key n) (begin_new now key l).0
  unfolding begin_new
  begin_new-Inv n now key l v h =
      let l' : PasswordLimiter = record l { entries = sweep l.window now l.entries } in
      elim (Bool-cases (ltb (length l.entries) l.max_entries)) [
        | inl e ↦ rw e (reserve_added limit max n now key l v h (ground (arith, e, v.max_is)))
        | inr e ↦ elim (Bool-cases (ltb (length l'.entries) l.max_entries)) [
          | inl f ↦
              rw (e, f)
                (reserve_added limit max n now key l' (sweep-Inv limit max n now l v)
                  (sweep-none l.window now key l.entries h) (ground (arith, f, v.max_is)))
          | inr f ↦ rw (e, f) (sweep-Inv limit max n now l v)
        ]
      ]

  begin_pruned-Inv :
      (n : Bytes → ℕ) (now : ℕ) (key : Bytes) (l : PasswordLimiter)
      → Inv limit max n l
      → Inv limit max (after_reply (begin_pruned now key l).1 key n) (begin_pruned now key l).0
  unfolding begin_pruned
  begin_pruned-Inv n now key l v = elim (Option-cases (lookup key l.entries)) [
    | inl e ↦ rw (e, begin_pruned) (begin_new-Inv n now key l v e)
    | inr (a, e) ↦ rw (e, begin_pruned) (reserve-Inv limit max n now key a l v e)
  ]

  pub begin-Inv :
      (n : Bytes → ℕ) (now : ℕ) (key : Bytes) (l : PasswordLimiter)
      → Inv limit max n l
      → Inv limit max (after_reply (begin now key l).1 key n) (begin now key l).0
  unfolding begin
  begin-Inv n now key l v =
      begin_pruned-Inv n now key (record l { entries = prune_known now key l })
        (prune_known-Inv limit max n now key l v)

  settled-inflight :
      (now : ℕ) (outcome : String) (a : Attempts) → (settle now outcome a).inflight ≡ a.inflight - 1
  unfolding settle
  settled-inflight now outcome a = ground arith

  settled-held_le :
      (now : ℕ) (outcome : String) (a : Attempts)
      → 0 < a.inflight
      → held (settle now outcome a) ≤ held a
  unfolding settle
  settled-held_le now outcome a h = ground (arith, h, length-append a.fails (now ∷ []))

  pub finish-Inv :
      (n : Bytes → ℕ) (now : ℕ) (outcome : String) (key : Bytes) (l : PasswordLimiter)
      → Inv limit max n l
      → 0 < n key
      → Inv limit max (one_less key n) (finish now outcome key l)
  unfolding finish
  finish-Inv n now outcome key l v r = elim (Option-cases (lookup key l.entries)) [
    | inl e ↦ ground (arith, r, e, v.counted key)
    | inr (a, e) ↦
        let a' = settle now outcome a in
        rw (e, finish)
          (record {
            limit_is = v.limit_is;
            max_is = v.max_is;
            distinct = store-IsMap key a' l.entries v.distinct;
            bounded = ground (arith, v.bounded, length-store_le key a' a l.entries e);
            counted = λ j. ground (
              arith,
              e,
              bytes_beq_iff key j,
              v.counted j,
              settled-inflight now outcome a,
              attempts_of-store key j a' l.entries,
            );
            limited = λ j. ground (
              arith,
              e,
              r,
              bytes_beq_iff key j,
              v.counted key,
              v.limited j,
              settled-held_le now outcome a,
              attempts_of-store key j a' l.entries,
            );
          })
  ]

  pub Inv-equal :
      (n m : Bytes → ℕ) (l : PasswordLimiter)
      → ((j : Bytes) → n j ≡ m j)
      → Inv limit max n l
      → Inv limit max m l
  Inv-equal n m l h v = record {
    limit_is = v.limit_is;
    max_is = v.max_is;
    distinct = v.distinct;
    bounded = v.bounded;
    counted = λ j. v.counted j ∙ h j;
    limited = v.limited;
  }
