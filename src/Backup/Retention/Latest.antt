-- ===== src/Backup/Retention/Latest.antt =====
-- `pruneJobs` keeps the latest success of each kind
-- (ui/backend/internal/backup/jobs_store.go).
use mathlib.Core.List.{Memᴰ}
use ldapium.Prelude.{
  ℕ, ◌≡◌, refl, ap, sym, ◌∙◌, subst, ◌⊎◌, inl, inr, Bool, true, false, none, some, List, [], ◌∷◌,
  String, arith, map, retain, if◌then◌else◌, Bool-cases, Option-cases,
}
use ldapium.Prelude.Eq.{bytes_eq, text_eq, nat_eq, ◌==◌, beq_refl}
use ldapium.Prelude.Assoc.{lookup, put, lookup-put}
use ldapium.Backup.{Job, is_running}
use ldapium.Backup.Records.{has_id}
use ldapium.Backup.Retention.{
  Latest, is_newer, note_succeeded, counts_as_success, latest_succeeded, ids, protected_ids,
  is_protected, prune_jobs,
}
use ldapium.Backup.Retention.Kept.{Implies, has_id-append, retain-retain_on, prune_jobs-IsKept}

not_newer_trans : (a b c : Job) → is_newer a b ≡ false → is_newer b c ≡ false → is_newer a c ≡ false
unfolding is_newer
not_newer_trans a b c h k = ground (arith, h, k)

not_newer_refl : (a : Job) → is_newer a a ≡ false
unfolding is_newer
not_newer_refl a = ground arith

newer-not_newer : (a b : Job) → is_newer a b ≡ true → is_newer b a ≡ false
unfolding is_newer
newer-not_newer a b h = ground (arith, h)

-- A job of a kind that is at least as new as a given one.
record IsCovered (latest : Latest) (kind : String) (j : Job) : Type 0 where
  by : Job
  found : lookup kind latest ≡ some by
  as_new : is_newer j by ≡ false

put-IsCovered : (latest : Latest) (kind : String) (j : Job) → IsCovered (put kind j latest) kind j
put-IsCovered latest kind j = record {
  by = j;
  found = lookup-put kind kind j latest ∙ rw (beq_refl kind) refl;
  as_new = not_newer_refl j;
}

put_newer-IsCovered :
    (latest : Latest) (kind k : String) (j x old : Job)
    → IsCovered latest kind x
    → lookup k latest ≡ some old
    → is_newer j old ≡ true
    → IsCovered (put k j latest) kind x
put_newer-IsCovered latest kind k j x old c f newer = elim (Bool-cases (k == kind)) [
  | inl e ↦
      let same : k ≡ kind = (text_eq.decides k kind).0 e in
      let is_old : c.by ≡ old = ground (arith, c.found, f, same) in
      record {
        by = j;
        found = lookup-put k kind j latest ∙ rw e refl;
        as_new =
            not_newer_trans x old j (subst (λ (y : Job). is_newer x y ≡ false) is_old c.as_new)
              (newer-not_newer j old newer);
      }
  | inr e ↦ record {
    by = c.by;
    found = lookup-put k kind j latest ∙ rw e c.found;
    as_new = c.as_new;
  }
]

put_first-IsCovered :
    (latest : Latest) (kind k : String) (j x : Job)
    → IsCovered latest kind x
    → lookup k latest ≡ none
    → IsCovered (put k j latest) kind x
put_first-IsCovered latest kind k j x c f = elim (Bool-cases (k == kind)) [
  | inl e ↦
      let same : k ≡ kind = (text_eq.decides k kind).0 e in
      let absurd : ⊥ = ground (arith, c.found, f, same) in elim absurd [ ]
  | inr e ↦ record {
    by = c.by;
    found = lookup-put k kind j latest ∙ rw e c.found;
    as_new = c.as_new;
  }
]

note-keeps :
    (j x : Job) (kind : String) (latest : Latest)
    → IsCovered latest kind x
    → IsCovered (note_succeeded j latest) kind x
unfolding note_succeeded
note-keeps j x kind latest c = elim (Option-cases (lookup j.kind latest)) [
  | inl f ↦ rw (f, note_succeeded) (put_first-IsCovered latest kind j.kind j x c f)
  | inr (old, f) ↦ elim (Bool-cases (is_newer j old)) [
    | inl n ↦ rw (f, note_succeeded, n) (put_newer-IsCovered latest kind j.kind j x old c f n)
    | inr n ↦ rw (f, note_succeeded, n) c
  ]
]

note-covers : (j : Job) (latest : Latest) → IsCovered (note_succeeded j latest) j.kind j
unfolding note_succeeded
note-covers j latest = elim (Option-cases (lookup j.kind latest)) [
  | inl f ↦ rw (f, note_succeeded) (put-IsCovered latest j.kind j)
  | inr (old, f) ↦ elim (Bool-cases (is_newer j old)) [
    | inl n ↦ rw (f, note_succeeded, n) (put-IsCovered latest j.kind j)
    | inr n ↦ rw (f, note_succeeded, n) (record { by = old; found = f; as_new = n })
  ]
]

later-covers :
    (jobs : List Job) (kind : String) (x : Job) (latest : Latest)
    → IsCovered latest kind x
    → IsCovered (latest_succeeded latest jobs) kind x
unfolding latest_succeeded
later-covers [] kind x latest c = c
later-covers (j ∷ jobs) kind x latest c = elim (Bool-cases (counts_as_success j)) [
  | inl e ↦ rw e (later-covers jobs kind x (note_succeeded j latest) (note-keeps j x kind latest c))
  | inr e ↦ rw e (later-covers jobs kind x latest c)
]

success-IsCovered :
    (jobs : List Job) (j : Job) (latest : Latest)
    → Memᴰ j jobs
    → counts_as_success j ≡ true
    → IsCovered (latest_succeeded latest jobs) j.kind j
unfolding latest_succeeded
success-IsCovered [] j latest m h = elim m [ ]
success-IsCovered (k ∷ jobs) j latest (Memᴰ.head same) h =
    let counts : counts_as_success k ≡ true = ground (arith, h, same) in
    let here : IsCovered (note_succeeded k latest) j.kind j = rw same (note-covers k latest) in
    rw counts (later-covers jobs j.kind j (note_succeeded k latest) here)
success-IsCovered (k ∷ jobs) j latest (Memᴰ.tail m) h =
    success-IsCovered jobs j (if counts_as_success k then note_succeeded k latest else latest) m h

-- Where an entry comes from.
pub record IsSuccess (kind : String) (k : Job) (jobs : List Job) : Type 0 where
  pub is_there : Memᴰ k jobs
  pub counts : counts_as_success k ≡ true
  pub of_kind : k.kind ≡ kind

note-origin :
    (j k : Job) (kind : String) (latest : Latest)
    → lookup kind (note_succeeded j latest) ≡ some k
    → (lookup kind latest ≡ some k) ⊎ ((k ≡ j) × (j.kind ≡ kind))
unfolding note_succeeded
note-origin j k kind latest h =
    ground (arith, h, lookup-put j.kind kind j latest, text_eq.decides j.kind kind)

latest-origin :
    (jobs : List Job) (k : Job) (kind : String) (latest : Latest)
    → lookup kind (latest_succeeded latest jobs) ≡ some k
    → (lookup kind latest ≡ some k) ⊎ IsSuccess kind k jobs
unfolding latest_succeeded
latest-origin [] k kind latest h = inl h
latest-origin (j ∷ jobs) k kind latest h =
    let further : IsSuccess kind k jobs → IsSuccess kind k (j ∷ jobs) =
      λ s. record { is_there = Memᴰ.tail s.is_there; counts = s.counts; of_kind = s.of_kind } in
    elim (Bool-cases (counts_as_success j)) [
      | inr e ↦
          elim (latest-origin jobs k kind latest (
            subst
              (λ b.
                lookup kind (latest_succeeded (if b then note_succeeded j latest else latest) jobs)
                ≡ some k)
              e h)) [ inl o ↦ inl o | inr s ↦ inr (further s) ]
      | inl e ↦
          elim (latest-origin jobs k kind (note_succeeded j latest) (
            subst
              (λ b.
                lookup kind (latest_succeeded (if b then note_succeeded j latest else latest) jobs)
                ≡ some k)
              e h)) [
                | inr s ↦ inr (further s)
                | inl o ↦ elim (note-origin j k kind latest o) [
                  | inl before ↦ inl before
                  | inr (same, kinds) ↦ inr (record {
                    is_there = Memᴰ.head same;
                    counts = ground (arith, e, same);
                    of_kind = ap (λ (x : Job). x.kind) same ∙ kinds;
                  })
                ]
              ]
    ]

has_id-latest :
    (latest : Latest) (kind : String) (k : Job)
    → lookup kind latest ≡ some k
    → has_id k.job_id (map (λ (e : String × Job). e.1.job_id) latest) ≡ true
unfolding lookup has_id
has_id-latest [] kind k h = cc
has_id-latest ((x, j) ∷ latest) kind k h =
    ground (arith, h, beq_refl k.job_id, has_id-latest latest kind k)

latest-is_protected :
    (jobs : List Job) (kind : String) (k : Job)
    → lookup kind (latest_succeeded [] jobs) ≡ some k
    → is_protected jobs k ≡ true
unfolding is_protected protected_ids
latest-is_protected jobs kind k h = ground (
  arith,
  has_id-latest (latest_succeeded [] jobs) kind k h,
  has_id-append k.job_id (ids (retain is_running jobs))
      (map (λ (e : String × Job). e.1.job_id) (latest_succeeded [] jobs)),
)

there-retained :
    (p q : Job → Bool) (jobs : List Job) (k : Job)
    → Memᴰ k jobs
    → Implies p q jobs
    → p k ≡ true
    → Memᴰ k (retain q jobs)
unfolding retain
there-retained p q [] k m i h = elim m [ ]
there-retained p q (j ∷ jobs) k (Memᴰ.head same) i h =
    let here : q j ≡ true = i.0 (ap p (sym same) ∙ h) in rw here (Memᴰ.head same)
there-retained p q (j ∷ jobs) k (Memᴰ.tail m) i h =
    let later = there-retained p q jobs k m i.1 h in
    elim (Bool-cases (q j)) [ inl e ↦ rw e (Memᴰ.tail later) | inr e ↦ rw e later ]

-- Pruning never removes a running job, and for every job that has succeeded it leaves one of its
-- kind that has succeeded and is at least as new.
pub prune_jobs_lem :
    (jobs : List Job) (now : ℕ)
    → let kept = (prune_jobs jobs now).0 in
      (retain is_running kept ≡ retain is_running jobs)
      × ((j : Job)
          → Memᴰ j jobs
          → counts_as_success j ≡ true
          → (k : Job) × IsSuccess j.kind k kept × (is_newer j k ≡ false))
unfolding lookup
prune_jobs_lem jobs now =
    let filter = prune_jobs-IsKept jobs now in
    (
      ap (λ (l : List Job). retain is_running l) filter.is_filter
          ∙ retain-retain_on is_running filter.test jobs filter.keeps_running,
      (λ j m h.
          let c = success-IsCovered jobs j [] m h in
          elim (latest-origin jobs c.by j.kind [] c.found) [
            | inl absent ↦ let absurd : ⊥ = ground (arith, absent) in elim absurd [ ]
            | inr s ↦ (
              c.by,
              record {
                is_there =
                    subst (λ (l : List Job). Memᴰ c.by l) (sym filter.is_filter)
                      (there-retained (is_protected jobs) filter.test jobs c.by s.is_there
                        filter.keeps_protected (latest-is_protected jobs j.kind c.by c.found));
                counts = s.counts;
                of_kind = s.of_kind;
              },
              c.as_new,
            )
          ]),
    )
