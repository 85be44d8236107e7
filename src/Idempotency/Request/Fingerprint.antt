-- ===== src/Idempotency/Request/Fingerprint.antt =====
-- Which requests have one fingerprint (ui/backend/internal/httpapi/idempotency.go).
use ldapium.Prelude.{
  ℕ, ◌≡◌, refl, ap, ◌↔◌, inl, inr, Bool, true, not, Option, none, some, List, [], ◌∷◌, ◌++◌, arith,
  all, Option-cases,
}
use ldapium.Prelude.Bytes.{Bytes}
use ldapium.Prelude.Eq.{bytes_eq, nat_eq, ◌==◌}
use ldapium.Idempotency.Key.{parse_key}
use ldapium.Idempotency.Keyring.{joined, mac}
use ldapium.Idempotency.Body.Strict.{
  IsFaithful, Strict, strict_body-Strict, SameContent, Strict-SameContent,
}
use ldapium.Idempotency.Request.{
  Request, Settings, keyed, prepare, parts_of, with_subject, with_body, with_key, subject_of,
}

-- The text without the byte `z`.
abbrev pub lacks : ℕ → Bytes → Bool
lacks z = all (λ c. not (c == z))

-- The first separator splits the text in one way.
first_split :
    (z : ℕ) (s t x y : Bytes)
    → lacks z s ≡ true
    → lacks z t ≡ true
    → s ++ z ∷ x ≡ t ++ z ∷ y
    → (s ≡ t) × (x ≡ y)
unfolding all
first_split z [] [] x y p q e = (refl, (cc))
first_split z [] (c ∷ t) x y p q e =
    let same : c ≡ z = (cc) in
    let absurd : ⊥ = ground (arith, q, (nat_eq.decides c z).1 same) in elim absurd [ ]
first_split z (c ∷ s) [] x y p q e =
    let same : c ≡ z = (cc) in
    let absurd : ⊥ = ground (arith, p, (nat_eq.decides c z).1 same) in elim absurd [ ]
first_split z (c ∷ s) (b ∷ t) x y p q e =
    let tails : s ++ z ∷ x ≡ t ++ z ∷ y = (cc) in
    let (f, g) = first_split z s t x y (ground (arith, p)) (ground (arith, q)) tails in
    let heads : c ≡ b = (cc) in (cc (heads, f), g)

-- The method, the path and the query have no zero byte, and the path, which is the pattern of a
-- route, no question mark.
pub record IsPlain (req : Request) : Type 0 where
  pub method : lacks 0 req.method ≡ true
  pub path : lacks b'?' req.path ≡ true
  pub target : lacks 0 (req.path ++ (b'?' ∷ req.query)) ≡ true

-- The body of a request that is in order.
with_body-canon :
    (cfg : Settings) (password : Bool) (req : Request) (key : Bytes) (o : Option Bytes)
    (subject key' canon : Bytes)
    → with_body cfg password req key o ≡ keyed subject key' canon
    → o ≡ some canon
unfolding with_body with_subject
with_body-canon cfg password req key none subject key' canon h = cc
with_body-canon cfg password req key (some c) subject key' canon h =
    elim (Option-cases (subject_of cfg.issuer req.caller)) [
      | inl e ↦ let absurd : ⊥ = ground (arith, e, h) in elim absurd [ ]
      | inr (x, e) ↦ ground (arith, e, h)
    ]

prepare-Strict :
    (cfg : Settings) (password : Bool) (req : Request) (subject key canon : Bytes)
    → prepare cfg password req ≡ keyed subject key canon
    → Strict cfg.encoding req.content canon
unfolding prepare with_key
prepare-Strict cfg password req subject key canon h = elim (Option-cases (parse_key req.keys)) [
  | inl e ↦ let absurd : ⊥ = ground (arith, e, h) in elim absurd [ ]
  | inr (k, e) ↦
      strict_body-Strict cfg.encoding req.method req.media_type req.content canon
        (with_body-canon cfg password req k _ subject key canon (ground (arith, e, h)))
]

-- One method, one path, one query, and one body up to the order of members.
pub record SameRequest (a b : Request) : Type 0 where
  pub method : a.method ≡ b.method
  pub path : a.path ≡ b.path
  pub query : a.query ≡ b.query
  pub content : SameContent a.content b.content

same_parts :
    (a b : Request) (canon canon' : Bytes)
    → IsPlain a
    → IsPlain b
    → joined (parts_of a canon) ≡ joined (parts_of b canon')
    → (a.method ≡ b.method) × (a.path ≡ b.path) × (a.query ≡ b.query) × (canon ≡ canon')
unfolding joined
same_parts a b canon canon' p q e =
    let (m, rest) = first_split 0 a.method b.method _ _ p.method q.method e in
    let (target, c) =
      first_split 0 (a.path ++ (b'?' ∷ a.query)) (b.path ++ (b'?' ∷ b.query)) canon canon' p.target
        q.target rest in
    let (path, query) = first_split b'?' a.path b.path a.query b.query p.path q.path target in
    (m, path, query, c)

parts_same :
    (a b : Request) (canon canon' : Bytes)
    → a.method ≡ b.method
    → a.path ≡ b.path
    → a.query ≡ b.query
    → canon ≡ canon'
    → parts_of a canon ≡ parts_of b canon'
parts_same a b canon canon' m p q c = cc

pub SameRequest-parts :
    (cfg : Settings) (password password' : Bool) (a b : Request)
    (subject key canon subject' key' canon' : Bytes)
    → IsFaithful cfg.encoding
    → prepare cfg password a ≡ keyed subject key canon
    → prepare cfg password' b ≡ keyed subject' key' canon'
    → SameRequest a b
    → parts_of a canon ≡ parts_of b canon'
SameRequest-parts cfg password password' a b subject key canon subject' key' canon' f e g same =
    let contents =
      Strict-SameContent cfg.encoding a.content b.content canon canon' f
        (prepare-Strict cfg password a subject key canon e)
        (prepare-Strict cfg password' b subject' key' canon' g) in
    parts_same a b canon canon' same.method same.path same.query (contents.1 same.content)

-- Two keyed requests in order have one fingerprint exactly when they are the same request: the
-- hypotheses are that the HMAC has no collision, that json.Marshal writes different values
-- differently, and that the separators do not occur in what they separate.
pub fingerprint_iff :
    (cfg : Settings) (secret : Bytes)
    → ((x y : Bytes) → cfg.digest.hmac secret x ≡ cfg.digest.hmac secret y → x ≡ y)
    → IsFaithful cfg.encoding
    → (password password' : Bool) (a b : Request) (subject key canon subject' key' canon' : Bytes)
    → IsPlain a
    → IsPlain b
    → prepare cfg password a ≡ keyed subject key canon
    → prepare cfg password' b ≡ keyed subject' key' canon'
    → (mac cfg.digest secret (parts_of a canon) ≡ mac cfg.digest secret (parts_of b canon'))
      ↔ SameRequest a b
fingerprint_iff cfg secret distinct f password password' a b subject key canon subject' key' canon'
      p q e g =
    let contents =
      Strict-SameContent cfg.encoding a.content b.content canon canon' f
        (prepare-Strict cfg password a subject key canon e)
        (prepare-Strict cfg password' b subject' key' canon' g) in
    (
      (λ h.
          let (m, path, query, c) = same_parts a b canon canon' p q (distinct _ _ h) in
          record { method = m; path = path; query = query; content = contents.0 c }),
      (λ same.
          ap (λ (parts : List Bytes). mac cfg.digest secret parts)
            (SameRequest-parts cfg password password' a b subject key canon subject' key' canon' f e
              g same)),
    )
