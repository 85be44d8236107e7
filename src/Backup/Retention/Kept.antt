-- ===== src/Backup/Retention/Kept.antt =====
-- What `pruneJobs` keeps (ui/backend/internal/backup/jobs_store.go): it is a filter of the jobs
-- that lets every running job pass.
use ldapium.Prelude.{
  ℕ, ◌-◌, ◌≡◌, refl, Bool, true, ◌||◌, not, List, [], ◌∷◌, ◌++◌, String, arith, ltb, length, map,
  retain, drop, Bool-cases, inl, inr,
}
use ldapium.Prelude.Bytes.{Bytes}
use ldapium.Prelude.Eq.{bytes_eq, beq_refl}
use ldapium.Backup.{Job, is_running}
use ldapium.Backup.Records.{has_id}
use ldapium.Backup.Retention.{
  max_job_history, ids, latest_succeeded, protected_ids, is_protected, is_expired, oldest_first,
  prune_by_count, prune_old, prune_jobs,
}

pub has_id-append :
    (id : Bytes) (xs ys : List Bytes) → has_id id (xs ++ ys) ≡ (has_id id xs || has_id id ys)
unfolding has_id
has_id-append id [] ys = refl
has_id-append id (x ∷ xs) ys = ground (arith, has_id-append id xs ys)

module _ {ℓ} {A : Type ℓ} where
  -- On a list, what passes one test passes another.
  abbrev pub Implies : (A → Bool) → (A → Bool) → List A → Type 0
  Implies p q [] = Unit {0}
  Implies p q (x ∷ xs) = (p x ≡ true → q x ≡ true) × Implies p q xs

  pub Implies-trans :
      (p q r : A → Bool)
      → ((x : A) → q x ≡ true → r x ≡ true)
      → (xs : List A) → Implies p q xs
      → Implies p r xs
  Implies-trans p q r f [] h = tt
  Implies-trans p q r f (x ∷ xs) h = ((λ e. f x (h.0 e)), Implies-trans p q r f xs h.1)

  pub retain-retain :
      (p q : A → Bool)
      → ((x : A) → p x ≡ true → q x ≡ true)
      → (xs : List A) → retain p (retain q xs) ≡ retain p xs
  unfolding retain
  retain-retain p q h [] = refl
  retain-retain p q h (x ∷ xs) = ground (arith, h x, retain-retain p q h xs)

  -- The same where the condition holds of the elements of the list.
  pub retain-retain_on :
      (p q : A → Bool) (xs : List A) → Implies p q xs → retain p (retain q xs) ≡ retain p xs
  unfolding retain
  retain-retain_on p q [] h = refl
  retain-retain_on p q (x ∷ xs) h = ground (arith, h.0, retain-retain_on p q xs h.1)

-- What passes a test is found by its identifier among what passes it.
pub ids-retain :
    (q : Job → Bool) (jobs : List Job) → Implies q (λ j. has_id j.job_id (ids (retain q jobs))) jobs
unfolding retain has_id
ids-retain q [] = tt
ids-retain q (j ∷ jobs) = (
  (λ h. ground (arith, h, beq_refl j.job_id)),
  Implies-trans q (λ x. has_id x.job_id (ids (retain q jobs)))
      (λ x. has_id x.job_id (ids (retain q (j ∷ jobs)))) (λ x h. ground (arith, h)) jobs
      (ids-retain q jobs),
)

pub running-is_protected : (jobs : List Job) → Implies is_running (is_protected jobs) jobs
unfolding is_protected protected_ids
running-is_protected jobs =
    Implies-trans is_running (λ x. has_id x.job_id (ids (retain is_running jobs)))
      (is_protected jobs)
      (λ x h. ground (
        arith,
        h,
        has_id-append x.job_id (ids (retain is_running jobs))
            (map (λ (e : String × Job). e.1.job_id) (latest_succeeded [] jobs)),
      ))
      jobs (ids-retain is_running jobs)

-- A filter of the jobs that keeps the running and the other protected ones.
pub record IsKept (jobs kept : List Job) : Type 0 where
  pub test : Job → Bool
  pub is_filter : kept ≡ retain test jobs
  pub keeps_running : Implies is_running test jobs
  pub keeps_protected : Implies (is_protected jobs) test jobs

Implies-both :
    (p q r : Job → Bool) (xs : List Job) → Implies p q xs → Implies q r xs → Implies p r xs
Implies-both p q r [] h k = tt
Implies-both p q r (x ∷ xs) h k = ((λ e. k.0 (h.0 e)), Implies-both p q r xs h.1 k.1)

Implies-of :
    (p q : Job → Bool) → ((x : Job) → p x ≡ true → q x ≡ true) → (xs : List Job) → Implies p q xs
Implies-of p q f [] = tt
Implies-of p q f (x ∷ xs) = (f x, Implies-of p q f xs)

-- A filter that keeps the protected jobs keeps the running ones.
protected-IsKept :
    (test : Job → Bool) (jobs : List Job)
    → Implies (is_protected jobs) test jobs
    → IsKept jobs (retain test jobs)
protected-IsKept test jobs h = record {
  test = test;
  is_filter = refl;
  keeps_running =
      Implies-both is_running (is_protected jobs) test jobs (running-is_protected jobs) h;
  keeps_protected = h;
}

-- What the part for the count keeps, by identifiers.
abbrev pub kept_ids : (Job → Bool) → List Job → List Bytes
kept_ids keeps retained =
    ids (retain keeps retained)
    ++ ids (
        drop (length retained - max_job_history)
          (oldest_first (retain (λ j. not (keeps j)) retained)))

pub kept-kept_ids :
    (keeps q : Job → Bool) (jobs : List Job)
    → ((x : Job) → keeps x ≡ true → q x ≡ true)
    → Implies keeps (λ j. has_id j.job_id (kept_ids keeps (retain q jobs))) jobs
kept-kept_ids keeps q jobs w =
    let retained = retain q jobs in
    Implies-trans keeps (λ x. has_id x.job_id (ids (retain keeps jobs)))
      (λ j. has_id j.job_id (kept_ids keeps retained))
      (λ x f. ground (
        arith,
        f,
        retain-retain keeps q w jobs,
        has_id-append x.job_id (ids (retain keeps retained)) (
            ids (
              drop (length retained - max_job_history)
                (oldest_first (retain (λ j. not (keeps j)) retained)))),
      ))
      jobs (ids-retain keeps jobs)

pub prune_jobs-IsKept : (jobs : List Job) (now : ℕ) → IsKept jobs (prune_jobs jobs now).0
unfolding prune_jobs prune_old prune_by_count retain
prune_jobs-IsKept [] now = protected-IsKept (λ j. true) [] tt
prune_jobs-IsKept (j ∷ jobs) now =
    let all_jobs = j ∷ jobs in
    let keeps = is_protected all_jobs in
    let q : Job → Bool = λ x. keeps x || not (is_expired now x) in
    elim (Bool-cases (ltb max_job_history (length (retain q all_jobs)))) [
      | inl e ↦ rw e (
          protected-IsKept (λ x. has_id x.job_id (kept_ids keeps (retain q all_jobs))) all_jobs
            (kept-kept_ids keeps q all_jobs (λ x f. ground (arith, f))))
      | inr e ↦
          rw e
            (protected-IsKept q all_jobs (Implies-of keeps q (λ x f. ground (arith, f)) all_jobs))
    ]
