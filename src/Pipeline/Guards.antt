-- ===== src/Pipeline/Guards.antt =====
-- Nothing outside happens before a machine write is authorized
-- (ui/backend/internal/httpapi/machine_write_pipeline.go).
use ldapium.Prelude.{
  ◌≡◌, ◌≢◌, refl, ap, subst, ◌∙◌, ◌⊎◌, inl, inr, true, false, ◌||◌, not, some, List, [], ◌∷◌, ◌++◌,
  arith, any, all, any-append, length, Bool-cases, Option-cases,
}
use ldapium.Prelude.Bytes.{Bytes}
use ldapium.Prelude.Eq.{bytes_eq, text_eq, nat_eq, ◌==◌}
use ldapium.Idempotency.Keyring.{Digest}
use ldapium.Revision.{csn_from_etag}
use ldapium.Pipeline.{
  WriteOp, passed, WriteDn, Policy, Config, Request, has_text, scope_allows, step2_scope,
  machine_if_match,
}
use ldapium.Pipeline.Results.{
  >>=-passed, require->>, require-passed, passed-injective, Checked-cases,
}
use ldapium.Pipeline.Slot.{is_outside, admitted_steps-Outside}
use ldapium.Pipeline.Parameters.{Fields, Parsed, fields_of, parse_dns}
use ldapium.Pipeline.Authorize.{
  is_too_large, in_ceiling, is_open, target_of, creates, step4_parse, step5_denylist,
  step6_if_match, steps_4_to_6,
}
use ldapium.Pipeline.Execute.{Effect, acquired, released, World}
use ldapium.Pipeline.Serve.{step3_admit, step7_idempotency, admitted_steps, serve}

-- One header value that is the tag of a revision.
abbrev pub HasRevision : List Bytes → Type 0
HasRevision values = (v : Bytes) × (csn : Bytes) × (values ≡ v ∷ []) × (csn_from_etag v ≡ some csn)

-- What an authorized request satisfies.
pub record IsAuthorized (cfg : Config) (req : Request) (op : WriteOp) : Type 0 where
  pub policy : Policy
  pub of_client : cfg.policy_of req.client ≡ some policy
  pub scope_of_client : has_text op.scope (cfg.ceiling req.client) ≡ true
  pub scope_of_token : has_text op.scope req.scopes ≡ true
  pub get : Fields
  pub parsed : Parsed
  pub reads : fields_of req op ≡ passed get
  pub names : parse_dns cfg req op get ≡ passed parsed
  pub below : all (in_ceiling cfg policy) parsed.dns ≡ true
  pub open_names : all (is_open cfg policy) parsed.dns ≡ true
  pub below_cred :
      op.compartment ≡ "cred"
      → (policy.within_cred_subtree (target_of parsed.dns) ≡ true) × (req.if_match ≡ [])
  pub listed :
      op.kind ≡ "group" → creates op ≡ false → policy.group_listed (target_of parsed.dns) ≡ true
  pub revision : op.compartment ≢ "cred" → op.if_match ≡ true → HasRevision req.if_match
  pub has_key : req.idempotency_keys ≢ []

machine_if_match-HasRevision :
    (values : List Bytes) (csn : Bytes) → machine_if_match values ≡ passed csn → HasRevision values
unfolding machine_if_match
machine_if_match-HasRevision [] csn h = cc
machine_if_match-HasRevision (v ∷ w ∷ rest) csn h = cc
machine_if_match-HasRevision (v ∷ []) csn h = elim (Option-cases (csn_from_etag v)) [
  | inr (c, e) ↦ (v, c, refl, e)
  | inl e ↦ elim (Bool-cases (v == [])) [
    | inl f ↦ let absurd : ⊥ = ground (arith, e, f, h) in elim absurd [ ]
    | inr f ↦ let absurd : ⊥ = ground (arith, e, f, h) in elim absurd [ ]
  ]
]

no_values : (values : List Bytes) → (length values == 0) ≡ true → values ≡ []
no_values [] h = refl
no_values (v ∷ vs) h = ground (arith, h)

step6-revision :
    (op : WriteOp) (values : List Bytes) (csn : Bytes)
    → step6_if_match op values ≡ passed csn
    → (op.compartment ≡ "cred" → values ≡ [])
      × (op.compartment ≢ "cred" → op.if_match ≡ true → HasRevision values)
unfolding step6_if_match
step6-revision op values csn h = elim (Bool-cases (op.compartment == "cred")) [
  | inl e ↦ (
    (λ _. no_values values (ground (arith, e, h))),
    (λ n. elim (n ((text_eq.decides op.compartment "cred").0 e)) [ ]),
  )
  | inr e ↦ (
    (λ c.
        let absurd : ⊥ = ground (arith, e, (text_eq.decides op.compartment "cred").1 c) in
        elim absurd [ ]),
    (λ n m. machine_if_match-HasRevision values csn (ground (arith, e, m, h))),
  )
]

step4-parsed :
    (cfg : Config) (req : Request) (op : WriteOp) (pol : Policy) (p : Parsed)
    → step4_parse cfg req op pol ≡ passed p
    → (get : Fields) × (fields_of req op ≡ passed get)
      × (parse_dns cfg req op get ≡ passed p)
      × (all (in_ceiling cfg pol) p.dns ≡ true)
      × (op.compartment ≡ "cred" → pol.within_cred_subtree (target_of p.dns) ≡ true)
unfolding step4_parse
step4-parsed cfg req op pol p h =
    let (_, h1) = require->> (not (is_too_large req.body)) _ h in
    let (get, h2, reads) = >>=-passed (fields_of req op) h1 in
    let (q, h3, names) = >>=-passed (parse_dns cfg req op get) h2 in
    let (below, h4) = require->> (all (in_ceiling cfg pol) q.dns) _ h3 in
    let cred =
      require->> (not (op.compartment == "cred") || pol.within_cred_subtree (target_of q.dns)) _
        h4 in
    let same : q ≡ p = passed-injective cred.1 in
    (
      get,
      reads,
      names ∙ ap (λ x. passed x) same,
      subst (λ (x : Parsed). all (in_ceiling cfg pol) x.dns ≡ true) same below,
      (λ c.
          subst (λ (x : Parsed). pol.within_cred_subtree (target_of x.dns) ≡ true) same
            (ground (arith, cred.0, (text_eq.decides op.compartment "cred").1 c))),
    )

step5-open :
    (cfg : Config) (op : WriteOp) (pol : Policy) (dns : List WriteDn)
    → step5_denylist cfg op pol dns ≡ passed tt
    → (all (is_open cfg pol) dns ≡ true)
      × (op.kind ≡ "group" → creates op ≡ false → pol.group_listed (target_of dns) ≡ true)
unfolding step5_denylist
step5-open cfg op pol dns h =
    let (fine, rest) = require->> (all (is_open cfg pol) dns) _ h in
    let listed =
      require-passed (not (op.kind == "group") || creates op || pol.group_listed (target_of dns)) _
        rest in
    (fine, (λ g c. ground (arith, listed, c, (text_eq.decides op.kind "group").1 g)))

-- What the step of the idempotency record has done at most, when the request has no key.
step7-has_key :
    (d : Digest) (cfg : Config) (w : World) (req : Request) (op : WriteOp) (p : Parsed)
    → any is_outside (step7_idempotency d cfg w req op p).0 ≡ true
    → req.idempotency_keys ≢ []
unfolding step7_idempotency any
step7-has_key d cfg w req op p h e =
    let none_given : (length req.idempotency_keys == 0) ≡ true = rw e refl in
    let absurd : ⊥ = ground (arith, none_given, h) in elim absurd [ ]

authorized :
    (d : Digest) (cfg : Config) (w : World) (req : Request) (op : WriteOp) (pol : Policy)
    (p : Parsed) (csn : Bytes)
    → has_text op.scope (cfg.ceiling req.client) ≡ true
    → has_text op.scope req.scopes ≡ true
    → cfg.policy_of req.client ≡ some pol
    → steps_4_to_6 cfg req op pol ≡ passed (p, csn)
    → any is_outside (step7_idempotency d cfg w req op p).0 ≡ true
    → IsAuthorized cfg req op
unfolding steps_4_to_6
authorized d cfg w req op pol p csn s t e f h =
    let (q, h1, parses) = >>=-passed (step4_parse cfg req op pol) f in
    let (_, h2, opens) = >>=-passed (step5_denylist cfg op pol q.dns) h1 in
    let (c, h3, revises) = >>=-passed (step6_if_match op req.if_match) h2 in
    let same : q ≡ p = ap (λ (x : Parsed × Bytes). x.0) (passed-injective h3) in
    let four = step4-parsed cfg req op pol q parses in
    let five = step5-open cfg op pol q.dns opens in
    let six = step6-revision op req.if_match c revises in
    record {
      policy = pol;
      of_client = e;
      scope_of_client = s;
      scope_of_token = t;
      get = four.0;
      parsed = q;
      reads = four.1;
      names = four.2;
      below = four.3;
      open_names = five.0;
      below_cred = λ cred. (four.4 cred, six.0 cred);
      listed = five.1;
      revision = six.1;
      has_key = step7-has_key d cfg w req op p h;
    }

admitted_steps-IsAuthorized :
    (d : Digest) (cfg : Config) (w : World) (req : Request) (op : WriteOp)
    → has_text op.scope (cfg.ceiling req.client) ≡ true
    → has_text op.scope req.scopes ≡ true
    → any is_outside (admitted_steps d cfg w req op).0 ≡ true
    → IsAuthorized cfg req op
unfolding admitted_steps any
admitted_steps-IsAuthorized d cfg w req op s t h = elim (Option-cases (cfg.policy_of req.client)) [
  | inl e ↦ let absurd : ⊥ = ground (arith, e, h) in elim absurd [ ]
  | inr (pol, e) ↦ elim (Checked-cases (steps_4_to_6 cfg req op pol)) [
    | inl (r, f) ↦ let absurd : ⊥ = ground (arith, e, f, h) in elim absurd [ ]
    | inr ((p, csn), f) ↦ authorized d cfg w req op pol p csn s t e f (ground (arith, e, f, h))
  ]
]

scopes-of_step2 :
    (cfg : Config) (req : Request) (op : WriteOp)
    → step2_scope cfg req op ≡ passed tt
    → (has_text op.scope (cfg.ceiling req.client) ≡ true) × (has_text op.scope req.scopes ≡ true)
unfolding step2_scope scope_allows
scopes-of_step2 cfg req op h = ground (arith, require-passed _ _ h)

-- Whatever a machine write does outside, be it the idempotency record, a read of the directory or a
-- write, the request was authorized: the client has a policy, the scope is in its ceiling and in
-- the token, the names that the request spells are below a subtree of the client, none is
-- protected or below the revocations, a group that is changed is on the list, a change names the
-- revision that it is for, and there is an idempotency key. The slot that was taken is given back,
-- last, on every way out, and nothing is done without it.
pub serve_lem :
    (d : Digest) (cfg : Config) (w : World) (req : Request) (op : WriteOp)
    → (any is_outside (serve d cfg w req op).0 ≡ true → IsAuthorized cfg req op)
      × (((serve d cfg w req op).0 ≡ [])
          ⊎ ((es : List Effect) × ((serve d cfg w req op).0 ≡ acquired ∷ (es ++ released ∷ []))
              × (all is_outside es ≡ true)))
unfolding serve any
serve_lem d cfg w req op = elim (Checked-cases (step2_scope cfg req op)) [
  | inl (r, e) ↦ rw (e, serve) ((λ h. cc), inl refl)
  | inr (u, e) ↦ elim (Checked-cases (step3_admit w.admission)) [
    | inl (r, f) ↦ rw (e, f, serve) ((λ h. cc), inl refl)
    | inr (v, f) ↦
        let (s, t) = scopes-of_step2 cfg req op e in
        let k = admitted_steps d cfg w req op in
        rw (e, f, serve)
          (
            (λ h.
                admitted_steps-IsAuthorized d cfg w req op s t
                  (ground (arith, h, any-append is_outside k.0 (released ∷ [])))),
            inr (k.0, refl, admitted_steps-Outside d cfg w req op),
          )
  ]
]
