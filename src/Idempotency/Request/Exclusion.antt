-- ===== src/Idempotency/Request/Exclusion.antt =====
-- While a request runs, no other one with its key does
-- (ui/backend/internal/httpapi/idempotency.go).
use ldapium.Prelude.{ℕ, ◌≡◌, ◌≢◌, refl, sym, ap, subst, ◌∙◌, Bool, false, List, All}
use ldapium.Prelude.Bytes.{Bytes}
use ldapium.Idempotency.Store.{
  Store, Handle, Result, Decision, kind_new, kind_replay, kind_conflict, kind_reused,
  kind_unknown_key, kind_capacity, begin,
}
use ldapium.Idempotency.Store
use ldapium.Idempotency.Store.Counts.{Inv}
use ldapium.Idempotency.Store.Replay.{at_most_once}
use ldapium.Idempotency.Request.{
  Request, ApiError, Settings, keyed, prepare, parts_of, Admission, refuses, runs, admission_of,
  admit, idempotent, Event, run,
}
use ldapium.Idempotency.Request.Calls.{is_end, all_calls, run-all_calls, all_calls-unfinished}

pub idempotent-keyed :
    (cfg : Settings) (now : ℕ) (password : Bool) (req : Request) (s : Store)
    (subject key canon : Bytes)
    → prepare cfg password req ≡ keyed subject key canon
    → idempotent cfg now password req s ≡ (
      (begin cfg.digest now subject key (parts_of req canon) s).1,
      admission_of (begin cfg.digest now subject key (parts_of req canon) s).0,
    )
unfolding idempotent admit
idempotent-keyed cfg now password req s subject key canon e = rw (e, idempotent, admit) refl

pub admission_of-runs : (d : Decision) (h : Handle) → admission_of d ≡ runs h → d ≡ kind_new h
unfolding admission_of
admission_of-runs (kind_new g) h e = cc
admission_of-runs (kind_replay r) h e = cc
admission_of-runs kind_conflict h e = cc
admission_of-runs kind_reused h e = cc
admission_of-runs kind_unknown_key h e = cc
admission_of-runs kind_capacity h e = cc

admission_of-refuses :
    (d : Decision)
    → ((g : Handle) → d ≢ kind_new g)
    → ((r : Result) → d ≢ kind_replay r)
    → (e : ApiError) × (admission_of d ≡ refuses e)
unfolding admission_of
admission_of-refuses (kind_new g) n r = elim (n g refl) [ ]
admission_of-refuses (kind_replay x) n r = elim (r x refl) [ ]
admission_of-refuses kind_conflict n r = (_, refl)
admission_of-refuses kind_reused n r = (_, refl)
admission_of-refuses kind_unknown_key n r = (_, refl)
admission_of-refuses kind_capacity n r = (_, refl)

-- The decision behind an admission.
pub runs-kind_new :
    (cfg : Settings) (now : ℕ) (password : Bool) (req : Request) (s : Store) (h : Handle)
    (subject key canon : Bytes)
    → prepare cfg password req ≡ keyed subject key canon
    → (idempotent cfg now password req s).1 ≡ runs h
    → (begin cfg.digest now subject key (parts_of req canon) s).0 ≡ kind_new h
runs-kind_new cfg now password req s h subject key canon e p = admission_of-runs _ h (
    ap (λ (x : Store × Admission). x.1)
      (sym (idempotent-keyed cfg now password req s subject key canon e))
    ∙ p)

-- A request that the middleware told to run, with a subject and a key: whatever else arrives, ends,
-- is swept or rotated, at any times, until the handler of that request ends, every other request
-- with the subject and the key that is in order is answered with an error. It does not run, it is
-- given no result, and it leaves the table as it is.
pub one_execution :
    (cfg : Settings) (unknown_text : Bytes) (now : ℕ) (password : Bool) (req : Request) (s : Store)
    (h : Handle) (subject key canon : Bytes)
    → Inv s
    → prepare cfg password req ≡ keyed subject key canon
    → (idempotent cfg now password req s).1 ≡ runs h
    → (es : List (ℕ × Event)) → All (λ e. is_end h e.1 ≡ false) es
    → (later : ℕ) (password' : Bool) (other : Request) (canon' : Bytes)
    → prepare cfg password' other ≡ keyed subject key canon'
    → let s' = run cfg unknown_text es (idempotent cfg now password req s).0 in
      (e : ApiError) × (idempotent cfg later password' other s' ≡ (s', refuses e))
one_execution cfg unknown_text now password req s h subject key canon v ready running es quiet later
      password' other canon' ready' =
    let d = cfg.digest in
    let parts = parts_of req canon in
    let started = idempotent-keyed cfg now password req s subject key canon ready in
    let s1 = (begin d now subject key parts s).1 in
    let s' = run cfg unknown_text es (idempotent cfg now password req s).0 in
    let same : s' ≡ Store.run d (all_calls cfg unknown_text es) s1 =
      ap (λ (x : Store × Admission). run cfg unknown_text es x.0) started
      ∙ run-all_calls cfg unknown_text es s1 in
    let (not_new, not_replay, still) =
      at_most_once d now subject key parts s h v
        (runs-kind_new cfg now password req s h subject key canon ready running)
        (all_calls cfg unknown_text es) (all_calls-unfinished cfg unknown_text h es quiet) later
        (parts_of other canon') in
    let asked = begin d later subject key (parts_of other canon') s' in
    let move = λ (P : Store → Type 0). subst P (sym same) in
    let (e, refused) =
      admission_of-refuses asked.0
        (move
          (λ (t : Store).
            (g : Handle) → (begin d later subject key (parts_of other canon') t).0 ≢ kind_new g)
          not_new)
        (move
          (λ (t : Store).
            (r : Result) → (begin d later subject key (parts_of other canon') t).0 ≢ kind_replay r)
          not_replay) in
    let stays : asked.1 ≡ s' =
      move (λ (t : Store). (begin d later subject key (parts_of other canon') t).1 ≡ t) still in
    (
      e,
      idempotent-keyed cfg later password' other s' subject key canon' ready' ∙ cc (stays, refused),
    )
