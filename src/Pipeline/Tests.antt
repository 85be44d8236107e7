-- ===== src/Pipeline/Tests.antt =====
-- Runs of machine writes and the witnesses of their theorems
-- (ui/backend/internal/httpapi/machine_write_pipeline.go).
use ldapium.Prelude.{
  ◌≡◌, ◌⊎◌, refl, true, false, none, some, List, [], ◌∷◌, ◌++◌, any, all, if◌then◌else◌,
}
use ldapium.Prelude.Bytes.{Bytes, codes}
use ldapium.Idempotency.Keyring.{Digest}
use ldapium.Pipeline.{shape_target, WriteOp, Policy, Identity, Config, Request, text, object}
use ldapium.Pipeline.Parameters.{Parsed}
use ldapium.Pipeline.Authorize.{target_of}
use ldapium.Pipeline.Execute.{
  acquired, released, spent, begun, read_entry, read_privileged, read_pending, read_premise, locked,
  unlocked, bound, sent_password, cleared, answered, refused, identity_refusal, conflict, waits,
  admitted, runs, World, execute, Effect,
}
use ldapium.Pipeline.Serve.{serve}
use ldapium.Pipeline.Slot.{is_outside}
use ldapium.Pipeline.Sends.{sends}
use ldapium.Pipeline.Password.{IsPasswordWrite, execute-IsPasswordWrite}
use ldapium.Pipeline.Guards.{IsAuthorized, serve_lem}

abbrev set_password_op : WriteOp
set_password_op = record {
  id = "setPassword";
  scope = "directory.users.password.write";
  compartment = "cred";
  kind = "user";
  class = "inetOrgPerson";
  member_class = "";
  shape = shape_target;
  in_query = false;
  if_match = false;
}

abbrev plain : Digest
plain = record { hmac = λ key text. key ++ text; sha256 = λ text. text; hex = λ text. text }

abbrev everywhere : Policy
everywhere = record {
  within_ceiling = λ dn parent. true;
  within_cred_subtree = λ dn. true;
  is_protected = λ dn. false;
  group_listed = λ dn. false;
}

abbrev nobody : Identity
nobody = record { bind_dn = []; bind_password = [] }

abbrev writer : Identity
writer = record { bind_dn = codes "cn=w"; bind_password = codes "pw" }

abbrev settings : Config
settings = record {
  policy_of = λ client. some everywhere;
  ceiling = λ client. "directory.users.password.write" ∷ [];
  issuer = codes "iss";
  user_create_base = codes "ou=p";
  group_create_base = codes "ou=g";
  group_seed_dn = [];
  cred_min_length = 8;
  cred_enabled = true;
  lock_enabled = false;
  data_identity = nobody;
  lock_identity = nobody;
  cred_identity = writer;
  has_idempotency = true;
  canonical_dn = λ dn. true;
  under_revocations = λ dn. false;
  plain_cn = λ cn base. true;
  check_uid = λ uid. none;
  check_cn = λ cn. none;
  check_password = λ pw. none;
}

abbrev asked : Request
asked = record {
  client = codes "c";
  scopes = "directory.users.password.write" ∷ [];
  query = [];
  body = object (("dn", text (codes "uid=a")) ∷ ("password", text (codes "secret-secret")) ∷ []);
  if_match = [];
  idempotency_keys = codes "k" ∷ [];
}

abbrev willing : World
willing = record {
  admission = admitted;
  idempotency = runs;
  spend = true;
  check = λ dn class. none;
  privileged = λ again. none;
  pending = λ again. waits (codes "u1");
  lock_free = λ uuid. true;
  premise = "";
  bind = none;
  set_password = none;
  first_clear = true;
  handler = 200;
}

-- The entry is another one when it is read in the lock.
abbrev replaced : World
replaced = record willing {
  pending = λ again. if again then waits (codes "u2") else waits (codes "u1");
}

abbrev parsed : Parsed
parsed = record {
  dns = record { raw = codes "uid=a"; parent = false; class = "inetOrgPerson" } ∷ [];
  pending = false;
  password = codes "secret-secret";
}

abbrev tag : Bytes
tag = codes "machine:"

sent : sends (execute settings willing set_password_op parsed tag) ≡ true
unfolding execute any
sent = refl

serve-set_password : serve plain settings willing asked set_password_op ≡ (
  acquired
      ∷ begun (codes "machine:3:issc")
      ∷ spent
      ∷ read_entry (codes "uid=a") "inetOrgPerson"
      ∷ read_privileged (codes "uid=a")
      ∷ read_pending (codes "uid=a") tag
      ∷ locked (codes "u1")
      ∷ read_privileged (codes "uid=a")
      ∷ read_pending (codes "uid=a") tag
      ∷ read_premise
      ∷ bound (codes "cn=w")
      ∷ sent_password (codes "uid=a") (codes "secret-secret")
      ∷ cleared (codes "uid=a") tag
      ∷ unlocked (codes "u1")
      ∷ released
      ∷ [],
  answered 200,
)
unfolding serve
serve-set_password = refl

-- A replaced entry gets no password.
execute-replaced : execute settings replaced set_password_op parsed tag ≡ (
  spent
      ∷ read_entry (codes "uid=a") "inetOrgPerson"
      ∷ read_privileged (codes "uid=a")
      ∷ read_pending (codes "uid=a") tag
      ∷ locked (codes "u1")
      ∷ read_privileged (codes "uid=a")
      ∷ read_pending (codes "uid=a") tag
      ∷ unlocked (codes "u1")
      ∷ [],
  refused (identity_refusal conflict),
)
unfolding execute any
execute-replaced = refl

serve_lem_example :
    (any is_outside (serve plain settings willing asked set_password_op).0 ≡ true
      → IsAuthorized settings asked set_password_op)
    × (((serve plain settings willing asked set_password_op).0 ≡ [])
        ⊎ ((es : List Effect) × ((serve plain settings willing asked set_password_op).0
              ≡ acquired ∷ (es ++ released ∷ []))
            × (all is_outside es ≡ true)))
serve_lem_example = serve_lem plain settings willing asked set_password_op

execute-IsPasswordWrite_example :
    IsPasswordWrite settings willing set_password_op
      (target_of parsed.dns)
      tag
      parsed.password
      (execute settings willing set_password_op parsed tag).0
execute-IsPasswordWrite_example =
    execute-IsPasswordWrite settings willing set_password_op parsed tag sent
