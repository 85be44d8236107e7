-- ===== src/Idempotency/Outcome/Errors.antt =====
-- `isOutcomeUnknown` judges the leaves of an error tree (ui/backend/internal/httpapi/idempotency.go).
use ldapium.Prelude.{ℕ, ◌≡◌, refl, Bool, true, List, [], ◌∷◌, ◌++◌, arith, any, any-append}
use ldapium.Idempotency.Outcome.{
  GoError, GoErrors, absent, ldap_error, joins, wraps, leaf, none_left, child, is_client_side,
  is_outcome_unknown, some_unknown,
}

-- A server's or client's result code, or a place of the tree that carries none.
pub data Cause : Type 0 where
  result_code : ℕ → Cause
  silent : Cause

-- The causes at the leaves, in order; a join of nothing is a silent leaf.
unfoldable mutual
  pub causes : GoError → List Cause
  causes absent = silent ∷ []
  causes (ldap_error code) = result_code code ∷ []
  causes (joins none_left) = silent ∷ []
  causes (joins (child e es)) = causes e ++ all_causes es
  causes (wraps e) = causes e
  causes leaf = silent ∷ []

  pub all_causes : GoErrors → List Cause
  all_causes none_left = []
  all_causes (child e es) = causes e ++ all_causes es

module _ (error_network error_empty_password : ℕ) where
  abbrev pub is_unknown_cause : Cause → Bool
  is_unknown_cause (result_code code) = is_client_side error_network error_empty_password code
  is_unknown_cause silent = true

  mutual
    unfolding is_outcome_unknown some_unknown causes all_causes any

    unknown_causes :
        (e : GoError)
        → is_outcome_unknown error_network error_empty_password e ≡ any is_unknown_cause (causes e)
    unknown_causes absent = refl
    unknown_causes (ldap_error code) = ground arith
    unknown_causes (joins none_left) = refl
    unknown_causes (joins (child e es)) = ground (
      arith,
      unknown_causes e,
      unknown_all_causes es,
      any-append is_unknown_cause (causes e) (all_causes es),
    )
    unknown_causes (wraps e) = unknown_causes e
    unknown_causes leaf = refl

    unknown_all_causes :
        (es : GoErrors)
        → some_unknown error_network error_empty_password es ≡ any is_unknown_cause (all_causes es)
    unknown_all_causes none_left = refl
    unknown_all_causes (child e es) = ground (
      arith,
      unknown_causes e,
      unknown_all_causes es,
      any-append is_unknown_cause (causes e) (all_causes es),
    )

  -- However an error is nested in wrappers and joins, the outcome of the write is unknown exactly
  -- when some leaf of it is not a result code of the server: a client-side code, or no code.
  pub is_outcome_unknown-causes :
      (e : GoError)
      → is_outcome_unknown error_network error_empty_password e ≡ any is_unknown_cause (causes e)
  is_outcome_unknown-causes e = unknown_causes e
