-- ===== src/Idempotency/Request/Calls.antt =====
-- A run of the server is a run of the table of records
-- (ui/backend/internal/httpapi/idempotency.go).
use ldapium.Prelude.{
  ℕ, ◌≡◌, refl, sym, ap, ◌∙◌, Bool, false, Option, none, some, List, [], ◌∷◌, ◌++◌, All,
}
use ldapium.Prelude.Bytes.{Bytes}
use ldapium.Idempotency.Keyring.{Digest}
use ldapium.Idempotency.Store.{Store, Handle, Result, Call, begins, completes, releases, begin}
use ldapium.Idempotency.Store
use ldapium.Idempotency.Store.AtMostOnce.{finishes, same_handle}
use ldapium.Idempotency.Outcome.{to_record, settle, run_idempotent}
use ldapium.Idempotency.Request.{
  Request, Settings, Prepared, unkeyed, malformed, keyed, prepare, parts_of, admit, idempotent,
  Event, arrives, ends, sweeps, rotates, step, run,
}

-- The handle whose handler ends.
abbrev pub is_end : Handle → Event → Bool
is_end h (ends password g outcome) = same_handle h g
is_end h (arrives password req) = false
is_end h sweeps = false
is_end h (rotates k) = false

abbrev begin_calls : ℕ → Request → Prepared → List (ℕ × Call)
begin_calls now req unkeyed = []
begin_calls now req (malformed e) = []
begin_calls now req (keyed subject key canon) = (now, begins subject key (parts_of req canon)) ∷ []

abbrev end_call : Handle → Option Result → Call
end_call h none = releases h
end_call h (some r) = completes h r

pub run-append :
    (d : Digest) (xs ys : List (ℕ × Call)) (s : Store)
    → Store.run d (xs ++ ys) s ≡ Store.run d ys (Store.run d xs s)
unfolding Store.run
run-append d [] ys s = refl
run-append d (x ∷ xs) ys s = run-append d xs ys (Store.step d x.0 x.1 s)

All-append :
    (P : ℕ × Call → Type 0) (xs ys : List (ℕ × Call)) → All P xs → All P ys → All P (xs ++ ys)
All-append P [] ys p q = q
All-append P (x ∷ xs) ys (here, p) q = (here, All-append P xs ys p q)

module _ (cfg : Settings) (unknown_text : Bytes) where
  unfoldable pub calls : ℕ → Event → List (ℕ × Call)
  calls now (arrives password req) = begin_calls now req (prepare cfg password req)
  calls now (ends password h outcome) =
      (now, end_call h (to_record unknown_text password outcome)) ∷ []
  calls now sweeps = (now, Call.sweeps) ∷ []
  calls now (rotates k) = (now, Call.rotates k) ∷ []

  unfoldable pub all_calls : List (ℕ × Event) → List (ℕ × Call)
  all_calls [] = []
  all_calls ((now, e) ∷ es) = calls now e ++ all_calls es

  admit-begin_calls :
      (now : ℕ) (req : Request) (s : Store) (p : Prepared)
      → (admit cfg now req s p).0 ≡ Store.run cfg.digest (begin_calls now req p) s
  unfolding admit Store.run Store.step
  admit-begin_calls now req s unkeyed = refl
  admit-begin_calls now req s (malformed e) = refl
  admit-begin_calls now req s (keyed subject key canon) = refl

  settle-end_call :
      (now : ℕ) (h : Handle) (o : Option Result) (s : Store)
      → settle unknown_text now h o s ≡ Store.step cfg.digest now (end_call h o) s
  unfolding settle Store.step
  settle-end_call now h none s = refl
  settle-end_call now h (some r) s = refl

  step-calls :
      (now : ℕ) (e : Event) (s : Store)
      → step cfg unknown_text now e s ≡ Store.run cfg.digest (calls now e) s
  unfolding step calls Store.run
  step-calls now (arrives password req) s =
      unfold idempotent in admit-begin_calls now req s (prepare cfg password req)
  step-calls now (ends password h outcome) s =
      unfold run_idempotent in settle-end_call now h (to_record unknown_text password outcome) s
  step-calls now sweeps s = unfold Store.step in refl
  step-calls now (rotates k) s = unfold Store.step in refl

  pub run-all_calls :
      (es : List (ℕ × Event)) (s : Store)
      → run cfg unknown_text es s ≡ Store.run cfg.digest (all_calls es) s
  unfolding run all_calls
  run-all_calls [] s = unfold Store.run in refl
  run-all_calls ((now, e) ∷ es) s =
      run-all_calls es (step cfg unknown_text now e s)
      ∙ ap (Store.run cfg.digest (all_calls es)) (step-calls now e s)
      ∙ sym (run-append cfg.digest (calls now e) (all_calls es) s)

  begin_calls-quiet :
      (T : ℕ → Type 0) (h : Handle) (now : ℕ) (req : Request) (p : Prepared)
      → T now
      → All (λ c. T c.0 × (finishes h c.1 ≡ false)) (begin_calls now req p)
  begin_calls-quiet T h now req unkeyed t = tt
  begin_calls-quiet T h now req (malformed e) t = tt
  begin_calls-quiet T h now req (keyed subject key canon) t = ((t, refl), tt)

  end_call-quiet :
      (h g : Handle) (o : Option Result)
      → same_handle h g ≡ false
      → finishes h (end_call g o) ≡ false
  end_call-quiet h g none q = q
  end_call-quiet h g (some r) q = q

  calls-quiet :
      (T : ℕ → Type 0) (h : Handle) (now : ℕ) (e : Event)
      → T now
      → is_end h e ≡ false
      → All (λ c. T c.0 × (finishes h c.1 ≡ false)) (calls now e)
  unfolding calls
  calls-quiet T h now (arrives password req) t q =
      begin_calls-quiet T h now req (prepare cfg password req) t
  calls-quiet T h now (ends password g outcome) t q =
      ((t, end_call-quiet h g (to_record unknown_text password outcome) q), tt)
  calls-quiet T h now sweeps t q = ((t, refl), tt)
  calls-quiet T h now (rotates k) t q = ((t, refl), tt)

  -- No call finishes the handle if no event does, and the calls come at the times of the events.
  pub all_calls-quiet :
      (T : ℕ → Type 0) (h : Handle) (es : List (ℕ × Event))
      → All (λ e. T e.0 × (is_end h e.1 ≡ false)) es
      → All (λ c. T c.0 × (finishes h c.1 ≡ false)) (all_calls es)
  unfolding all_calls
  all_calls-quiet T h [] q = tt
  all_calls-quiet T h ((now, e) ∷ es) (here, q) =
      All-append (λ c. T c.0 × (finishes h c.1 ≡ false)) (calls now e) (all_calls es)
        (calls-quiet T h now e here.0 here.1) (all_calls-quiet T h es q)

  only_quiet :
      (h : Handle) (cs : List (ℕ × Call))
      → All (λ c. Unit {0} × (finishes h c.1 ≡ false)) cs
      → All (λ c. finishes h c.1 ≡ false) cs
  only_quiet h [] q = tt
  only_quiet h (c ∷ cs) (here, q) = (here.1, only_quiet h cs q)

  always :
      (h : Handle) (es : List (ℕ × Event))
      → All (λ e. is_end h e.1 ≡ false) es
      → All (λ e. Unit {0} × (is_end h e.1 ≡ false)) es
  always h [] q = tt
  always h (e ∷ es) (here, q) = ((tt, here), always h es q)

  pub all_calls-unfinished :
      (h : Handle) (es : List (ℕ × Event))
      → All (λ e. is_end h e.1 ≡ false) es
      → All (λ c. finishes h c.1 ≡ false) (all_calls es)
  all_calls-unfinished h es q =
      only_quiet h (all_calls es) (all_calls-quiet (λ now. Unit {0}) h es (always h es q))
