-- ===== src/Targets/Exclusion.antt =====
-- At most one reservation of a target is in force
-- (ui/backend/internal/httpapi/machine_write_cred_limiter.go).
use ldapium.Prelude.{
  ℕ, ◌≤◌, ◌≡◌, ◌↔◌, refl, subst, true, false, Bool-cases, Option-cases, inl, inr, ◌||◌, not, to_ℕ,
  is_some, List, [], ◌∷◌, arith, get_elem?,
}
use ldapium.Prelude.Bytes.{Bytes}
use ldapium.Prelude.Eq.{bytes_eq, bytes_beq_iff, beq_refl, ◌==◌}
use ldapium.Prelude.Assoc.{lookup, lookup-put, lookup-delete}
use ldapium.Passwords.Invariant.{outstanding}
use ldapium.Passwords.Concurrency.{outstanding-give, outstanding-mark_done}
use ldapium.Targets.{Targets, no_targets, lock, release, Call, locks, frees, run}

-- A target is active exactly while one closure of it has not run.
abbrev pub IsExclusive : Targets → Type 0
IsExclusive l = (uuid : Bytes) → outstanding uuid l.releases ≡ to_ℕ (is_some (lookup uuid l.active))

lock-IsExclusive : (uuid : Bytes) (l : Targets) → IsExclusive l → IsExclusive (lock uuid l).0
unfolding lock
lock-IsExclusive uuid l v u = elim (Bool-cases ((uuid == []) || is_some (lookup uuid l.active))) [
  | inl h ↦ rw h (v u)
  | inr h ↦ elim (Bool-cases (uuid == u)) [
    | inl e ↦
        subst
          (λ (k : Bytes).
            outstanding k ((lock uuid l).0).releases
            ≡ to_ℕ (is_some (lookup k ((lock uuid l).0).active)))
          ((bytes_beq_iff uuid u).0 e)
          (rw h (
            ground (
              arith,
              h,
              v uuid,
              beq_refl uuid,
              outstanding-give uuid uuid l.releases,
              lookup-put uuid uuid tt l.active,
            )))
    | inr e ↦
        rw h (
          ground (arith, e, v u, outstanding-give u uuid l.releases, lookup-put uuid u tt l.active))
  ]
]

release-IsExclusive : (i : ℕ) (l : Targets) → IsExclusive l → IsExclusive (release i l)
unfolding release
release-IsExclusive i l v u = elim (Option-cases (get_elem? l.releases i)) [
  | inl e ↦ rw (e, release) (v u)
  | inr ((uuid, true), e) ↦ rw (e, release) (v u)
  | inr ((uuid, false), e) ↦
      rw (e, release)
        (ground (
          arith,
          v u,
          bytes_beq_iff uuid u,
          outstanding-mark_done u uuid i l.releases e,
          lookup-delete uuid u l.active,
        ))
]

run-IsExclusive : (cs : List Call) (l : Targets) → IsExclusive l → IsExclusive (run cs l)
unfolding run
run-IsExclusive [] l v = v
run-IsExclusive (locks uuid ∷ cs) l v =
    run-IsExclusive cs (lock uuid l).0 (lock-IsExclusive uuid l v)
run-IsExclusive (frees i ∷ cs) l v = run-IsExclusive cs (release i l) (release-IsExclusive i l v)

no_targets-IsExclusive : IsExclusive no_targets
unfolding outstanding lookup
no_targets-IsExclusive uuid = refl

lock_answer :
    (uuid : Bytes) (l : Targets)
    → (lock uuid l).1 ≡ not ((uuid == []) || is_some (lookup uuid l.active))
unfolding lock
lock_answer uuid l = ground arith

-- After any calls of `lock` and of the closures it gave, in any order and any number of times: at
-- most one closure of a target has not run, and the next `lock` of a target that is not empty
-- succeeds exactly if none has.
pub one_writer_per_target :
    (cs : List Call) (uuid : Bytes)
    → (outstanding uuid (run cs no_targets).releases ≤ 1)
      × (((lock uuid (run cs no_targets)).1 ≡ true)
          ↔ (((uuid == []) ≡ false) × (outstanding uuid (run cs no_targets).releases ≡ 0)))
one_writer_per_target cs uuid =
    let l = run cs no_targets in
    let v = run-IsExclusive cs no_targets no_targets-IsExclusive uuid in
    (
      ground (arith, v),
      (
        (λ h. ground (arith, h, v, lock_answer uuid l)),
        (λ h. ground (arith, h, v, lock_answer uuid l)),
      ),
    )
