-- ===== src/Passwords/Concurrency.antt =====
-- Attempts in flight and the closures that end them
-- (ui/backend/internal/httpapi/password_limiter.go).
use ldapium.Prelude.{
  ℕ, zero, suc, ◌≤◌, ◌<◌, ◌≡◌, refl, sym, ap, subst, Bool, true, false, some, Option-cases, inl,
  inr, List, [], ◌∷◌, ◌++◌, String, get_elem?, arith,
}
use ldapium.Prelude.Bytes.{Bytes}
use ldapium.Prelude.Eq.{bytes_eq, text_eq, nat_eq, bytes_beq_iff, beq_refl}
use ldapium.Prelude.Assoc.{lookup, IsMap}
use ldapium.Passwords.{
  Attempts, PasswordLimiter, Reply, admitted, refused, begin, finish, System, give_handle,
  mark_done, begin_call, finish_call, Call, begins, finishes, step, run, new_password_limiter,
}
use ldapium.Passwords.Entries.{attempts_of, held}
use ldapium.Passwords.Invariant.{Inv, outstanding, one_more, after_reply}
use ldapium.Passwords.Calls.{one_less, begin-Inv, finish-Inv, Inv-equal}

pub outstanding-give :
    (j key : Bytes) (hs : List (Bytes × Bool))
    → outstanding j (hs ++ (key, false) ∷ []) ≡ one_more key (λ k. outstanding k hs) j
unfolding outstanding
outstanding-give j key [] = ground arith
outstanding-give j key ((k, d) ∷ hs) = ground (arith, outstanding-give j key hs)

outstanding-give_handle :
    (j key : Bytes) (r : Reply) (hs : List (Bytes × Bool))
    → after_reply r key (λ k. outstanding k hs) j ≡ outstanding j (give_handle key r hs)
outstanding-give_handle j key admitted hs = sym (outstanding-give j key hs)
outstanding-give_handle j key (refused w) hs = refl

pub outstanding_pos :
    (key : Bytes) (i : ℕ) (hs : List (Bytes × Bool))
    → get_elem? hs i ≡ some (key, false)
    → 0 < outstanding key hs
unfolding outstanding
outstanding_pos key i [] h = cc
outstanding_pos key zero ((k, d) ∷ hs) h = ground (arith, h, beq_refl key)
outstanding_pos key (suc i) ((k, d) ∷ hs) h = ground (arith, outstanding_pos key i hs h)

pub outstanding-mark_done :
    (j key : Bytes) (i : ℕ) (hs : List (Bytes × Bool))
    → get_elem? hs i ≡ some (key, false)
    → one_less key (λ k. outstanding k hs) j ≡ outstanding j (mark_done i hs)
unfolding outstanding mark_done
outstanding-mark_done j key i [] h = cc
outstanding-mark_done j key zero ((k, d) ∷ hs) h = ground (arith, h)
outstanding-mark_done j key (suc i) ((k, d) ∷ hs) h =
    ground
      (arith, bytes_beq_iff key j, outstanding_pos key i hs h, outstanding-mark_done j key i hs h)

module _ (limit max : ℕ) where
  abbrev pub IsConsistent : System → Type 0
  IsConsistent s = Inv limit max (λ key. outstanding key s.handles) s.limiter

  begin_call-IsConsistent :
      (now : ℕ) (key : Bytes) (s : System) → IsConsistent s → IsConsistent (begin_call now key s).0
  unfolding begin_call
  begin_call-IsConsistent now key s v =
      Inv-equal limit max
        (after_reply (begin now key s.limiter).1 key (λ k. outstanding k s.handles))
        (λ k. outstanding k (give_handle key (begin now key s.limiter).1 s.handles))
        (begin now key s.limiter).0
        (λ j. outstanding-give_handle j key (begin now key s.limiter).1 s.handles)
        (begin-Inv limit max (λ k. outstanding k s.handles) now key s.limiter v)

  finish_call-IsConsistent :
      (now i : ℕ) (outcome : String) (s : System)
      → IsConsistent s
      → IsConsistent (finish_call now i outcome s)
  unfolding finish_call
  finish_call-IsConsistent now i outcome s v = elim (Option-cases (get_elem? s.handles i)) [
    | inl e ↦ rw (e, finish_call) v
    | inr ((key, true), e) ↦ rw (e, finish_call) v
    | inr ((key, false), e) ↦
        rw (e, finish_call)
          (Inv-equal limit max (one_less key (λ k. outstanding k s.handles))
            (λ k. outstanding k (mark_done i s.handles)) (finish now outcome key s.limiter)
            (λ j. outstanding-mark_done j key i s.handles e)
            (finish-Inv limit max (λ k. outstanding k s.handles) now outcome key s.limiter v
              (outstanding_pos key i s.handles e)))
  ]

  run-IsConsistent : (cs : List (ℕ × Call)) (s : System) → IsConsistent s → IsConsistent (run cs s)
  unfolding run step
  run-IsConsistent [] s v = v
  run-IsConsistent ((now, begins key) ∷ cs) s v =
      run-IsConsistent cs (begin_call now key s).0 (begin_call-IsConsistent now key s v)
  run-IsConsistent ((now, finishes i outcome) ∷ cs) s v =
      run-IsConsistent cs (finish_call now i outcome s) (finish_call-IsConsistent now i outcome s v)

pub new_password_limiter-empty :
    (limit window max : ℕ) (l : PasswordLimiter)
    → new_password_limiter limit window max ≡ some l
    → l.entries ≡ []
unfolding new_password_limiter
new_password_limiter-empty limit window max l h = ground (arith, h)

-- From a new limiter, in any order of attempts and of calls of their closures, some of them called
-- twice and some never: for every key the attempts in flight are exactly the closures given out for
-- it that have not run, and with its recorded failures they are at most the limit; at most
-- `max` keys are tracked.
pub run-new_password_limiter :
    (limit window max : ℕ) (l : PasswordLimiter) (cs : List (ℕ × Call))
    → new_password_limiter limit window max ≡ some l
    → IsConsistent limit max (run cs (record { limiter = l; handles = [] }))
unfolding new_password_limiter outstanding lookup
run-new_password_limiter limit window max l cs h =
    run-IsConsistent limit max cs (record { limiter = l; handles = [] })
      (record {
        limit_is = ground (arith, h);
        max_is = ground (arith, h);
        distinct = subst IsMap (sym (new_password_limiter-empty limit window max l h)) tt;
        bounded = ground (arith, h);
        counted = λ key.
            ap (λ (es : List (Bytes × Attempts)). (attempts_of key es).inflight)
              (new_password_limiter-empty limit window max l h);
        limited = λ key.
            subst (λ (es : List (Bytes × Attempts)). held (attempts_of key es) ≤ limit)
              (sym (new_password_limiter-empty limit window max l h)) (omega arith);
      })
