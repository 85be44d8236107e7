-- ===== src/Pipeline/Parameters.antt =====
-- The parameters of a machine write and the names that they spell (parseDNs, parsePassword,
-- parsePending, groupCreateDNs and bodyString of
-- ui/backend/internal/httpapi/machine_write_pipeline.go). They read the request and the
-- configuration only.
use ldapium.Prelude.{
  Bool, true, false, ◌&&◌, Option, none, some, List, [], ◌∷◌, ◌++◌, String, leb, if◌then◌else◌,
  length, all, is_some,
}
use Prim.Native.Nat.{max}
use ldapium.Prelude.Bytes.{Bytes, codes}
use ldapium.Prelude.Eq.{bytes_eq, text_eq, nat_eq, ◌==◌}
use ldapium.Prelude.Assoc.{lookup}
use ldapium.Pipeline.{
  shape_create, shape_target, shape_membership, WriteOp, Checked, passed, denied, ◌>>=◌, ◌>>◌,
  require, WriteDn, Config, Field, text, null, other, boolean, Body, too_large, blank, malformed,
  object, Request, has_text, bad_request, body_allowed,
}

-- The names of a request, the target first, whether a new user waits for its password, and the
-- password.
pub record Parsed : Type 0 where
  pub dns : List WriteDn
  pub pending : Bool
  pub password : Bytes

-- The parameters of an operation in the query.
allowed_names : WriteOp → List String
allowed_names op = elim op.shape [
  | shape_create ↦ if op.kind == "group" then "cn" ∷ [] else "uid" ∷ []
  | shape_target ↦ "dn" ∷ []
  | shape_membership ↦ "groupDn" ∷ "memberDn" ∷ []
]

single : List Bytes → Option Bytes
single (v ∷ []) = some v
single [] = none
single (v ∷ w ∷ rest) = none

-- `bodyString`: a string that is not empty.
field_text : Option Field → Option Bytes
field_text none = none
field_text (some (text s)) = if s == [] then none else some s
field_text (some null) = none
field_text (some other) = none
field_text (some (boolean b)) = none

abbrev pub Fields : Type 0
Fields = String → Option Bytes

query_fields : List (String × List Bytes) → Fields
unfolding lookup single
query_fields query name = elim (lookup name query) [ none ↦ none | some vs ↦ single vs ]

body_fields : Body → Fields
unfolding lookup field_text
body_fields (object fields) name = field_text (lookup name fields)
body_fields too_large name = none
body_fields blank name = none
body_fields malformed name = none

is_blank : Body → Bool
is_blank blank = true
is_blank (object fields) = false
is_blank too_large = false
is_blank malformed = false

one_of : List String → String × List Bytes → Bool
unfolding single has_text
one_of allowed (name, values) = has_text name allowed && is_some (single values)

-- Where the parameters are read from.
unfoldable pub from_query : Request → WriteOp → Checked Fields
unfolding allowed_names query_fields is_blank one_of all
from_query req op = do
  require (is_blank req.body) (bad_request "this operation takes no request body")
  require (all (one_of (allowed_names op)) req.query) (bad_request "unexpected query parameter")
  passed (query_fields req.query)

unfoldable pub from_body : Request → WriteOp → Checked Fields
unfolding body_fields body_allowed
from_body req op = do
  require (length req.query == 0) (bad_request "this operation takes no query parameters")
  require (body_allowed op.id req.body)
      (bad_request "request body is not a permitted machine write body")
  passed (body_fields req.body)

unfoldable pub fields_of : Request → WriteOp → Checked Fields
unfolding from_query from_body
fields_of req op = if op.in_query then from_query req op else from_body req op

need_message : String → String
need_message name =
    if name == "dn"
    then "dn is required"
    else if name == "uid"
    then "uid is required"
    else if name == "cn"
    then "cn is required"
    else if name == "groupDn"
    then "groupDn is required"
    else "memberDn is required"

unfoldable pub need : Fields → String → Checked Bytes
unfolding need_message
need get name = elim (get name) [
  | none ↦ denied (bad_request (need_message name))
  | some v ↦ if v == [] then denied (bad_request (need_message name)) else passed v
]

unfoldable pub valid : Option String → Checked (Unit {0})
valid none = passed tt
valid (some message) = denied (bad_request message)

pending_field : Body → Option Field
unfolding lookup
pending_field (object fields) = lookup "credentialPending" fields
pending_field too_large = none
pending_field blank = none
pending_field malformed = none

abbrev pub scope_password_write : String
scope_password_write = "directory.users.password.write"

is_true : Field → Bool
is_true (boolean b) = b
is_true (text s) = false
is_true null = false
is_true other = false

unfoldable pub allow_pending : Config → Request → Field → Checked Bool
unfolding is_true has_text
allow_pending cfg req v = do
  require (cfg.cred_enabled && has_text scope_password_write (cfg.ceiling req.client))
      (bad_request "credentialPending is not permitted for this machine client")
  passed (is_true v)

unfoldable pub parse_pending : Config → Request → Checked Bool
unfolding pending_field allow_pending
parse_pending cfg req = elim (pending_field req.body) [
  | none ↦ passed false
  | some v ↦ allow_pending cfg req v
]

unfoldable pub check_password : Config → Bytes → Checked Bytes
unfolding valid
check_password cfg pw = do
  valid (cfg.check_password pw)
  require (leb (max cfg.cred_min_length 12) (length pw))
      (bad_request "password is shorter than the machine write minimum length")
  passed pw

unfoldable pub parse_password : Config → Fields → Checked Bytes
unfolding check_password
parse_password cfg get = elim (get "password") [
  | none ↦ denied (bad_request "password is required")
  | some pw ↦ check_password cfg pw
]

abbrev plain_parsed : List WriteDn → Parsed
plain_parsed dns = record { dns = dns; pending = false; password = [] }

abbrev pub new_entry : String → Bytes → Bytes → List WriteDn
new_entry attribute value base =
    record {
      raw = codes attribute ++ (b'=' ∷ (value ++ (b',' ∷ base)));
      parent = false;
      class = "";
    }
    ∷ record { raw = base; parent = true; class = "" }
    ∷ []

unfoldable pub group_create_dns : Config → Bytes → Checked Parsed
unfolding valid
group_create_dns cfg cn = do
  valid (cfg.check_cn cn)
  require (cfg.plain_cn cn cfg.group_create_base)
      (bad_request "cn is not permitted for a machine-created group")
  passed (plain_parsed (new_entry "cn" cn cfg.group_create_base))

unfoldable pub parse_group : Config → Fields → Checked Parsed
unfolding need group_create_dns
parse_group cfg get = do cn ← need get "cn"; group_create_dns cfg cn

unfoldable pub parse_user : Config → Request → Fields → Checked Parsed
unfolding need valid parse_pending
parse_user cfg req get = do
  uid ← need get "uid"
  valid (cfg.check_uid uid)
  pending ← parse_pending cfg req
  passed
      (record { dns = new_entry "uid" uid cfg.user_create_base; pending = pending; password = [] })

unfoldable pub parse_target : Config → WriteOp → Fields → Checked Parsed
unfolding need parse_password
parse_target cfg op get = do
  dn ← need get "dn"
  password ← (if op.id == "setPassword" then parse_password cfg get else passed [])
  passed (record {
    dns = record { raw = dn; parent = false; class = op.class } ∷ [];
    pending = false;
    password = password;
  })

unfoldable pub parse_membership : WriteOp → Fields → Checked Parsed
unfolding need
parse_membership op get = do
  group ← need get "groupDn"
  member ← need get "memberDn"
  passed (
      plain_parsed (
        record { raw = group; parent = false; class = op.class }
        ∷ record { raw = member; parent = false; class = op.member_class }
        ∷ []))

unfoldable pub parse_dns : Config → Request → WriteOp → Fields → Checked Parsed
unfolding parse_group parse_user parse_target parse_membership
parse_dns cfg req op get = elim op.shape [
  | shape_create ↦ if op.kind == "group" then parse_group cfg get else parse_user cfg req get
  | shape_target ↦ parse_target cfg op get
  | shape_membership ↦ parse_membership op get
]
