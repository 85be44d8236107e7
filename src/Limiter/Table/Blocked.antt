-- ===== src/Limiter/Table/Blocked.antt =====
-- A blocked source's entry survives every operation of the table until the time at which it may drop
-- below the limit (ui/backend/internal/httpapi/login_limiter.go).
use ldapium.Prelude.{
  ℕ, ◌+◌, ◌≤◌, ◌<◌, ◌≡◌, refl, sym, subst, ap, ◌∙◌, Bool, true, false, not, List, [], ◌∷◌, ◌++◌,
  arith, length, length-append, all, all-append, and-true,
}
use ldapium.Prelude.Eq.{bytes_eq}
use ldapium.Limiter.Table.{drop_old, is_old, last}

abbrev pub is_fresh : ℕ → ℕ → ℕ → Bool
is_fresh window until t = not (is_old window until t)

-- At `until` at least `limit` failures are still inside the window, and they are the latest ones.
pub record IsBlocked (limit window until : ℕ) (ts : List ℕ) : Type 0 where
  pub enough : limit ≤ length (drop_old window until ts)
  pub fresh : all (is_fresh window until) (drop_old window until ts) ≡ true

drop_old-again :
    (window now until : ℕ) (ts : List ℕ)
    → now ≤ until
    → drop_old window until (drop_old window now ts) ≡ drop_old window until ts
unfolding drop_old
drop_old-again window now until [] h = refl
drop_old-again window now until (t ∷ ts) h = ground (arith, drop_old-again window now until ts h)

pub length-drop_old_le :
    (window until : ℕ) (ts : List ℕ) → length (drop_old window until ts) ≤ length ts
unfolding drop_old
length-drop_old_le window until [] = omega arith
length-drop_old_le window until (t ∷ ts) = ground (arith, length-drop_old_le window until ts)

drop_old-append :
    (window until n : ℕ) (ts : List ℕ)
    → 0 < length (drop_old window until ts)
    → drop_old window until (ts ++ n ∷ []) ≡ drop_old window until ts ++ n ∷ []
unfolding drop_old
drop_old-append window until n [] h = elim h [ ]
drop_old-append window until n (t ∷ ts) h = ground (arith, drop_old-append window until n ts)

last_fresh :
    (window until : ℕ) (t : ℕ) (ts : List ℕ)
    → all (is_fresh window until) (t ∷ ts) ≡ true
    → is_old window until (last (t ∷ ts)) ≡ false
unfolding all last
last_fresh window until t [] h = ground arith
last_fresh window until t (u ∷ ts) h = last_fresh window until u ts (and-true _ _ h).1

last-drop_old :
    (window until : ℕ) (ts : List ℕ)
    → 0 < length (drop_old window until ts)
    → last (drop_old window until ts) ≡ last ts
unfolding drop_old last
last-drop_old window until [] h = elim h [ ]
last-drop_old window until (t ∷ []) h = ground arith
last-drop_old window until (t ∷ u ∷ ts) h = ground (arith, last-drop_old window until (u ∷ ts))

module _ (limit window until : ℕ) (positive : 0 < limit) where
  pub IsBlocked-drop_old :
      (now : ℕ) (ts : List ℕ)
      → now ≤ until
      → IsBlocked limit window until ts
      → IsBlocked limit window until (drop_old window now ts)
  IsBlocked-drop_old now ts h b = record {
    enough = rw (drop_old-again window now until ts h) b.enough;
    fresh = rw (drop_old-again window now until ts h) b.fresh;
  }

  pub IsBlocked-append :
      (now : ℕ) (ts : List ℕ)
      → until ≤ now + window
      → IsBlocked limit window until ts
      → IsBlocked limit window until (ts ++ now ∷ [])
  unfolding all
  IsBlocked-append now ts h b =
      let more = drop_old-append window until now ts (omega (arith, b.enough)) in
      record {
        enough =
            rw more (omega (arith, length-append (drop_old window until ts) (now ∷ []), b.enough));
        fresh = rw more (
            ground (
              arith,
              all-append (is_fresh window until) (drop_old window until ts) (now ∷ []),
              b.fresh,
            ));
      }

  pub IsBlocked-length : (ts : List ℕ) → IsBlocked limit window until ts → limit ≤ length ts
  IsBlocked-length ts b = omega (arith, length-drop_old_le window until ts, b.enough)

  pub IsBlocked-last :
      (now : ℕ) (ts : List ℕ)
      → now ≤ until
      → IsBlocked limit window until ts
      → is_old window now (last ts) ≡ false
  IsBlocked-last now ts h b = ground (arith, at_end (drop_old window until ts) refl)
    where
      at_end : (us : List ℕ) → drop_old window until ts ≡ us → is_old window until (last ts) ≡ false
      at_end [] e = absurd (omega (arith, ap length e, b.enough))
      at_end (u ∷ us) e =
          let same : last (u ∷ us) ≡ last ts =
            ap last (sym e) ∙ last-drop_old window until ts (omega (arith, b.enough)) in
          rw (← same) (
            last_fresh window until u us
              (subst (λ (v : List ℕ). all (is_fresh window until) v ≡ true) e b.fresh))
