-- ===== src/Pipeline.antt =====
-- Machine writes: the nine operations with their bodies, the write identities and the guards of
-- ui/backend/internal/httpapi/machine_write_ops.go, machine_write_attributes.go,
-- machine_conditional.go and the steps 2 to 6 of machine_write_pipeline.go, which authorize a
-- request. A body is what encoding/json reads from it. The policy of a client compares names with
-- go-ldap and is an interface.
pub mod Parameters
pub mod Authorize
pub mod Execute
pub mod Serve
pub mod Sends
pub mod Password
pub mod Results
pub mod Slot
pub mod Guards
mod Tests
use ldapium.Prelude.{
  ℕ, ◌+◌, ◌≡◌, Bool, true, false, ◌&&◌, ◌||◌, not, Option, none, some, List, [], ◌∷◌, ◌++◌, String,
  ltb, if◌then◌else◌, length, all, any, is_some, or_else,
}
use ldapium.Prelude.Bytes.{Bytes, codes}
use ldapium.Prelude.Eq.{bytes_eq, text_eq, nat_eq, ◌==◌}
use ldapium.Prelude.Assoc.{lookup}
use ldapium.Revision.{csn_from_etag}

pub data Shape : Type 0 where
  shape_create shape_target shape_membership : Shape

pub record WriteOp : Type 0 where
  pub id : String
  pub scope : String
  pub compartment : String
  pub kind : String
  pub class : String
  pub member_class : String
  pub shape : Shape
  pub in_query : Bool
  pub if_match : Bool

-- A refusal: the answer, with the reason and the outcome that the audit line gets.
pub record Refusal : Type 0 where
  pub status : ℕ
  pub code : String
  pub message : String
  pub reason : String
  pub outcome : String

-- What a step of the pipeline gives: a refusal, at which the others are not run, or a value.
pub data Checked (A : Type 0) : Type 0 where
  denied : Refusal → Checked A
  passed : A → Checked A

infixl 5 ◌>>=◌ ◌>>◌
abbrev pub ◌>>=◌ : {A B : Type 0} → Checked A → (A → Checked B) → Checked B
denied why >>= next = denied why
passed x >>= next = next x

abbrev pub ◌>>◌ : {B : Type 0} → Checked (Unit {0}) → Checked B → Checked B
step >> next = step >>= λ done. next

abbrev pub require : Bool → Refusal → Checked (Unit {0})
require false why = denied why
require true why = passed tt

pub record WriteDn : Type 0 where
  pub raw : Bytes
  pub parent : Bool
  pub class : String

-- The policy of a client: the comparisons of names of machine_write_guard.go.
pub record Policy : Type 0 where
  pub within_ceiling : Bytes → Bool → Bool
  pub within_cred_subtree : Bytes → Bool
  pub is_protected : Bytes → Bool
  pub group_listed : Bytes → Bool

pub record Identity : Type 0 where
  pub bind_dn : Bytes
  pub bind_password : Bytes

-- The configuration that the steps read; `canonical_dn` is machineWriteDN, `under_revocations` the
-- guard of the revocation subtree, `plain_cn` whether a new group's name parses back as itself, and
-- `check_uid`, `check_cn` and `check_password` the package validate (`none` for a good value).
pub record Config : Type 0 where
  pub policy_of : Bytes → Option Policy
  pub ceiling : Bytes → List String
  pub issuer : Bytes
  pub user_create_base : Bytes
  pub group_create_base : Bytes
  pub group_seed_dn : Bytes
  pub cred_min_length : ℕ
  pub cred_enabled : Bool
  pub lock_enabled : Bool
  pub data_identity : Identity
  pub lock_identity : Identity
  pub cred_identity : Identity
  pub has_idempotency : Bool
  pub canonical_dn : Bytes → Bool
  pub under_revocations : Bytes → Bool
  pub plain_cn : Bytes → Bytes → Bool
  pub check_uid : Bytes → Option String
  pub check_cn : Bytes → Option String
  pub check_password : Bytes → Option String

-- A member of a JSON object: a string, null, a Boolean, or anything else.
pub data Field : Type 0 where
  text : Bytes → Field
  null other : Field
  boolean : Bool → Field

pub data Body : Type 0 where
  too_large blank malformed : Body
  object : List (String × Field) → Body

pub record Request : Type 0 where
  pub client : Bytes
  pub scopes : List String
  pub query : List (String × List Bytes)
  pub body : Body
  pub if_match : List Bytes
  pub idempotency_keys : List Bytes

unfoldable pub has_text : String → List String → Bool
has_text v [] = false
has_text v (x ∷ xs) = x == v || has_text v xs

unfoldable pub scope_allows : List String → List String → String → Bool
unfolding has_text
scope_allows ceiling scopes required = has_text required ceiling && has_text required scopes

abbrev pub deny : String → String → String → Refusal
deny reason outcome message = record {
  status = 403;
  code = "scope_denied";
  message = message;
  reason = reason;
  outcome = outcome;
}

abbrev pub reject : ℕ → String → String → Refusal
reject status code message = record {
  status = status;
  code = code;
  message = message;
  reason = "request_rejected";
  outcome = "rejected";
}

abbrev pub bad_request : String → Refusal
bad_request message = reject 400 "invalid_request" message

abbrev pub msg_write_dn_refused : String
msg_write_dn_refused = "dn is not permitted for this machine client"

unfoldable pub step2_scope : Config → Request → WriteOp → Checked (Unit {0})
unfolding scope_allows
step2_scope cfg req op =
    require
      (is_some (cfg.policy_of req.client)
        && scope_allows (cfg.ceiling req.client) req.scopes op.scope)
      (deny "scope" "denied_guard" "insufficient scope")

-- What a body of an operation may have.
unfoldable pub allowed_fields : String → Option (List String)
allowed_fields id =
    if id == "createUser"
    then some (
        "uid" ∷ "cn" ∷ "sn" ∷ "givenName" ∷ "mail" ∷ "department" ∷ "organization"
        ∷ "organizationalUnit" ∷ "credentialPending" ∷ [])
    else if id == "patchUser"
    then some (
        "dn" ∷ "cn" ∷ "sn" ∷ "givenName" ∷ "mail" ∷ "department" ∷ "organization"
        ∷ "organizationalUnit" ∷ [])
    else if id == "addGroupMember"
    then some ("groupDn" ∷ "memberDn" ∷ [])
    else if id == "createGroup"
    then some ("cn" ∷ "description" ∷ [])
    else if id == "lockUser"
    then some ("dn" ∷ [])
    else if id == "setPassword"
    then some ("dn" ∷ "password" ∷ [])
    else if id == "patchGroup"
    then some ("dn" ∷ "description" ∷ [])
    else none

unfoldable pub clearable : String → String → Bool
clearable id name =
    (id == "patchUser" && not (name == "dn") && not (name == "cn") && not (name == "sn"))
    || (id == "patchGroup" && name == "description")

unfoldable pub field_allowed : String → List String → String × Field → Bool
unfolding has_text clearable
field_allowed id allowed (name, text s) =
    has_text name allowed && not (id == "createUser" && name == "credentialPending")
field_allowed id allowed (name, null) = has_text name allowed && clearable id name
field_allowed id allowed (name, boolean b) =
    has_text name allowed && id == "createUser" && name == "credentialPending"
field_allowed id allowed (name, other) = false

-- `machineWriteBodyAllowed`; an object has no name twice, any other body is malformed.
unfoldable pub body_allowed : String → Body → Bool
unfolding allowed_fields field_allowed all
body_allowed id too_large = false
body_allowed id blank = id == "deleteUser" || id == "deleteGroup"
body_allowed id malformed = false
body_allowed id (object fields) =
    if id == "deleteUser" || id == "deleteGroup" then false else elim (allowed_fields id) [
      | none ↦ false
      | some allowed ↦ all (field_allowed id allowed) fields
    ]

-- `writeBindIdentity`
unfoldable pub write_bind_identity : Config → String → Option Identity
write_bind_identity cfg compartment =
    if compartment == "data" && not (cfg.data_identity.bind_dn == [])
    then some cfg.data_identity
    else if compartment == "lock" && cfg.lock_enabled && not (cfg.lock_identity.bind_dn == [])
    then some cfg.lock_identity
    else if compartment == "cred" && cfg.cred_enabled && not (cfg.cred_identity.bind_dn == [])
    then some cfg.cred_identity
    else none

abbrev pub if_match_required : Refusal
if_match_required = record {
  status = 428;
  code = "if_match_required";
  message = "If-Match is required for machine writes";
  reason = "request_rejected";
  outcome = "precondition_failed";
}

abbrev pub invalid_if_match : Refusal
invalid_if_match = bad_request "invalid If-Match: expected one strong entryCSN entity-tag"

-- `machineIfMatch`, with the outcome that step 6 gives to its error.
unfoldable pub machine_if_match : List Bytes → Checked Bytes
unfolding csn_from_etag
machine_if_match [] = denied if_match_required
machine_if_match (v ∷ w ∷ rest) = denied invalid_if_match
machine_if_match (v ∷ []) =
    if v == []
    then denied if_match_required
    else elim (csn_from_etag v) [ none ↦ denied invalid_if_match | some csn ↦ passed csn ]
