-- ===== src/Backup/Places.antt =====
-- Places in the list of jobs (ui/backend/internal/backup/manager_jobs.go): what the loops that
-- look for a job find, after a change of one job, a new one, or a filter.
use ldapium.Prelude.{
  ℕ, zero, suc, ◌≡◌, refl, ap, ◌≢◌, inl, inr, Bool, true, false, none, some, List, [], ◌∷◌, ◌++◌,
  arith, length, retain, if◌then◌else◌, Bool-cases, Option-cases,
}
use ldapium.Prelude.Bytes.{Bytes}
use ldapium.Prelude.Eq.{bytes_eq, ◌==◌}
use ldapium.Backup.{Job}
use ldapium.Backup.Records.{has_id}
use ldapium.Backup.Retention.{ids}
use ldapium.Backup.Retention.Kept.{Implies}
use ldapium.Backup.Manager.{set_job, find_job}

pub find_job-no :
    (p : Job → Bool) (j : Job) (jobs : List Job) (i : ℕ) (k : Job)
    → p j ≡ false
    → find_job p (j ∷ jobs) ≡ some (i, k)
    → (n : ℕ) × (i ≡ suc n) × (find_job p jobs ≡ some (n, k))
unfolding find_job
find_job-no p j jobs i k e f = elim (Option-cases (find_job p jobs)) [
  | inl g ↦ let absurd : ⊥ = ground (arith, e, f, g) in elim absurd [ ]
  | inr ((n, x), g) ↦ (n, ground (arith, e, f, g), ground (arith, e, f, g))
]

pub find_job-yes :
    (p : Job → Bool) (j : Job) (jobs : List Job) (i : ℕ) (k : Job)
    → p j ≡ true
    → find_job p (j ∷ jobs) ≡ some (i, k)
    → (i ≡ zero) × (k ≡ j)
unfolding find_job
find_job-yes p j jobs i k e f = ground (arith, e, f)

-- A found job passes the test.
pub find_job-passes :
    (p : Job → Bool) (jobs : List Job) (i : ℕ) (k : Job)
    → find_job p jobs ≡ some (i, k)
    → p k ≡ true
unfolding find_job
find_job-passes p [] i k f = cc
find_job-passes p (j ∷ jobs) i k f = elim (Bool-cases (p j)) [
  | inl e ↦ ground (arith, e, find_job-yes p j jobs i k e f)
  | inr e ↦ let (n, _, below) = find_job-no p j jobs i k e f in find_job-passes p jobs n k below
]

-- A found job that passes another test is among those that pass it.
pub found-retained :
    (p q : Job → Bool) (jobs : List Job) (i : ℕ) (k : Job)
    → find_job p jobs ≡ some (i, k)
    → q k ≡ true
    → retain q jobs ≢ []
unfolding find_job retain
found-retained p q [] i k f h g = cc
found-retained p q (j ∷ jobs) i k f h g = elim (Bool-cases (p j)) [
  | inl e ↦ ground (arith, e, h, g, find_job-yes p j jobs i k e f)
  | inr e ↦
      let (n, _, below) = find_job-no p j jobs i k e f in
      let none_left : retain q jobs ≡ [] = ground (arith, g) in
      found-retained p q jobs n k below h none_left
]

-- Where one job passes a test, a found job that passes it is this job.
pub found-only :
    (p q : Job → Bool) (jobs : List Job) (i : ℕ) (k x : Job)
    → find_job p jobs ≡ some (i, k)
    → q k ≡ true
    → retain q jobs ≡ x ∷ []
    → k ≡ x
unfolding find_job retain
found-only p q [] i k x f h g = cc
found-only p q (j ∷ jobs) i k x f h g = elim (Bool-cases (p j)) [
  | inl e ↦ ground (arith, e, h, g, find_job-yes p j jobs i k e f)
  | inr e ↦
      let (n, _, below) = find_job-no p j jobs i k e f in
      elim (Bool-cases (q j)) [
        | inl r ↦
            let none_left : retain q jobs ≡ [] = ground (arith, g, r) in
            let absurd : ⊥ = found-retained p q jobs n k below h none_left in elim absurd [ ]
        | inr r ↦ found-only p q jobs n k x below h (ground (arith, g, r))
      ]
]

-- The one job that passes a test is replaced where it was found.
pub retain-set_job :
    (p q : Job → Bool) (jobs : List Job) (i : ℕ) (k k' x : Job)
    → find_job p jobs ≡ some (i, k)
    → q k ≡ true
    → retain q jobs ≡ x ∷ []
    → retain q (set_job i k' jobs) ≡ (if q k' then k' ∷ [] else [])
unfolding find_job retain set_job
retain-set_job p q [] i k k' x f h g = cc
retain-set_job p q (j ∷ jobs) i k k' x f h g = elim (Bool-cases (p j)) [
  | inl e ↦
      let (at, is) = find_job-yes p j jobs i k e f in
      let none_left : retain q jobs ≡ [] = ground (arith, g, h, is) in
      rw at (ground (arith, none_left))
  | inr e ↦
      let (n, at, below) = find_job-no p j jobs i k e f in
      elim (Bool-cases (q j)) [
        | inl r ↦
            let none_left : retain q jobs ≡ [] = ground (arith, g, r) in
            let absurd : ⊥ = found-retained p q jobs n k below h none_left in elim absurd [ ]
        | inr r ↦
            rw at
              (ground (arith, r, retain-set_job p q jobs n k k' x below h (ground (arith, g, r))))
      ]
]

pub find_job-set_job :
    (p : Job → Bool) (jobs : List Job) (i : ℕ) (k k' : Job)
    → find_job p jobs ≡ some (i, k)
    → p k' ≡ true
    → find_job p (set_job i k' jobs) ≡ some (i, k')
unfolding find_job set_job
find_job-set_job p [] i k k' f h = cc
find_job-set_job p (j ∷ jobs) i k k' f h = elim (Bool-cases (p j)) [
  | inl e ↦ let (at, is) = find_job-yes p j jobs i k e f in rw at (ground (arith, h))
  | inr e ↦
      let (n, at, below) = find_job-no p j jobs i k e f in
      rw at (ground (arith, e, find_job-set_job p jobs n k k' below h))
]

pub set_job-found :
    (p : Job → Bool) (jobs : List Job) (i : ℕ) (k : Job)
    → find_job p jobs ≡ some (i, k)
    → set_job i k jobs ≡ jobs
unfolding find_job set_job
set_job-found p [] i k f = cc
set_job-found p (j ∷ jobs) i k f = elim (Bool-cases (p j)) [
  | inl e ↦ let (at, is) = find_job-yes p j jobs i k e f in rw (at, is) refl
  | inr e ↦
      let (n, at, below) = find_job-no p j jobs i k e f in
      rw at (ap (λ l. j ∷ l) (set_job-found p jobs n k below))
]

-- A filter that keeps the found job leaves it the first.
pub find_job-retain :
    (p q : Job → Bool) (jobs : List Job) (i : ℕ) (k : Job)
    → find_job p jobs ≡ some (i, k)
    → q k ≡ true
    → (n : ℕ) × (find_job p (retain q jobs) ≡ some (n, k))
unfolding find_job retain
find_job-retain p q [] i k f h = cc
find_job-retain p q (j ∷ jobs) i k f h = elim (Bool-cases (p j)) [
  | inl e ↦ let (at, is) = find_job-yes p j jobs i k e f in (zero, ground (arith, e, h, is))
  | inr e ↦
      let (n, at, below) = find_job-no p j jobs i k e f in
      let (m, later) = find_job-retain p q jobs n k below h in
      elim (Bool-cases (q j)) [
        | inl r ↦ (suc m, ground (arith, r, e, later))
        | inr r ↦ (m, ground (arith, r, later))
      ]
]

-- A job added at the end, where no other passes the test.
pub find_job-append :
    (p : Job → Bool) (jobs rest : List Job) (k : Job)
    → find_job p jobs ≡ none
    → p k ≡ true
    → find_job p (jobs ++ k ∷ rest) ≡ some (length jobs, k)
unfolding find_job
find_job-append p [] rest k f h = ground (arith, h)
find_job-append p (j ∷ jobs) rest k f h = elim (Bool-cases (p j)) [
  | inl e ↦ let absurd : ⊥ = ground (arith, e, f) in elim absurd [ ]
  | inr e ↦ elim (Option-cases (find_job p jobs)) [
    | inl g ↦ ground (arith, e, find_job-append p jobs rest k g h)
    | inr ((n, x), g) ↦ let absurd : ⊥ = ground (arith, e, f, g) in elim absurd [ ]
  ]
]

pub fresh-not_found :
    (id : Bytes) (jobs : List Job)
    → has_id id (ids jobs) ≡ false
    → find_job (λ j. j.job_id == id) jobs ≡ none
unfolding has_id find_job
fresh-not_found id [] h = refl
fresh-not_found id (j ∷ jobs) h = ground (arith, h, fresh-not_found id jobs)

pub retain-append :
    (q : Job → Bool) (xs ys : List Job) → retain q (xs ++ ys) ≡ retain q xs ++ retain q ys
unfolding retain
retain-append q [] ys = refl
retain-append q (x ∷ xs) ys = ground (arith, retain-append q xs ys)

pub set_job-append :
    (xs ys : List Job) (j k : Job) → set_job (length xs) k (xs ++ j ∷ ys) ≡ xs ++ k ∷ ys
unfolding set_job
set_job-append [] ys j k = refl
set_job-append (x ∷ xs) ys j k = ap (λ (l : List Job). x ∷ l) (set_job-append xs ys j k)

-- Where no job passes a test, none that also passes another is found.
pub not_retained-not_found :
    (p q : Job → Bool) (jobs : List Job)
    → ((x : Job) → p x ≡ true → q x ≡ true)
    → retain q jobs ≡ []
    → find_job p jobs ≡ none
unfolding retain find_job
not_retained-not_found p q [] w h = refl
not_retained-not_found p q (j ∷ jobs) w h =
    ground (arith, h, w j, not_retained-not_found p q jobs w)

pub retained-passes :
    (q : Job → Bool) (jobs rest : List Job) (x : Job) → retain q jobs ≡ x ∷ rest → q x ≡ true
unfolding retain
retained-passes q [] rest x h = cc
retained-passes q (j ∷ jobs) rest x h = elim (Bool-cases (q j)) [
  | inl e ↦ ground (arith, e, h)
  | inr e ↦ retained-passes q jobs rest x (ground (arith, e, h))
]

pub found-Implies :
    (p q r : Job → Bool) (jobs : List Job) (i : ℕ) (k : Job)
    → find_job p jobs ≡ some (i, k)
    → Implies q r jobs
    → q k ≡ true
    → r k ≡ true
unfolding find_job
found-Implies p q r [] i k f h e = cc
found-Implies p q r (j ∷ jobs) i k f h e = elim (Bool-cases (p j)) [
  | inl t ↦ ground (arith, e, h.0, find_job-yes p j jobs i k t f)
  | inr t ↦
      let (n, _, below) = find_job-no p j jobs i k t f in found-Implies p q r jobs n k below h.1 e
]
