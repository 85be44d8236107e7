-- ===== src/Pipeline/Authorize.antt =====
-- The steps 4 to 6 of a machine write (ui/backend/internal/httpapi/machine_write_pipeline.go):
-- parameters and names, protected names, If-Match. They read the request and the configuration
-- only.
use ldapium.Prelude.{Bool, true, false, ◌&&◌, ◌||◌, not, List, [], ◌∷◌, if◌then◌else◌, length, all}
use ldapium.Prelude.Bytes.{Bytes}
use ldapium.Prelude.Eq.{bytes_eq, text_eq, nat_eq, ◌==◌}
use ldapium.Pipeline.{
  shape_create, shape_target, shape_membership, WriteOp, Refusal, Checked, passed, denied, ◌>>=◌,
  ◌>>◌, require, WriteDn, Policy, Config, Body, too_large, blank, malformed, object, Request, deny,
  bad_request, msg_write_dn_refused, machine_if_match,
}
use ldapium.Pipeline.Parameters.{Parsed, fields_of, parse_dns}

unfoldable pub is_too_large : Body → Bool
is_too_large too_large = true
is_too_large blank = false
is_too_large malformed = false
is_too_large (object fields) = false

unfoldable pub refused_dn : Refusal
refused_dn = deny "scope" "denied_guard" msg_write_dn_refused

-- Every name of the request is canonical and below a subtree of the client.
unfoldable pub in_ceiling : Config → Policy → WriteDn → Bool
in_ceiling cfg pol d = cfg.canonical_dn d.raw && pol.within_ceiling d.raw d.parent

unfoldable pub target_of : List WriteDn → Bytes
target_of [] = []
target_of (d ∷ ds) = d.raw

unfoldable pub step4_parse : Config → Request → WriteOp → Policy → Checked Parsed
unfolding is_too_large fields_of parse_dns in_ceiling target_of all refused_dn
step4_parse cfg req op pol = do
  require (not (is_too_large req.body)) (bad_request "request body too large or unreadable")
  get ← fields_of req op
  parsed ← parse_dns cfg req op get
  require (all (in_ceiling cfg pol) parsed.dns) refused_dn
  require (not (op.compartment == "cred") || pol.within_cred_subtree (target_of parsed.dns))
      refused_dn
  passed parsed

-- Neither below the revocations nor protected.
unfoldable pub is_open : Config → Policy → WriteDn → Bool
is_open cfg pol d = not (cfg.under_revocations d.raw) && not (pol.is_protected d.raw)

abbrev pub creates : WriteOp → Bool
creates op = elim op.shape [ shape_create ↦ true | shape_target ↦ false | shape_membership ↦ false ]

unfoldable pub step5_denylist : Config → WriteOp → Policy → List WriteDn → Checked (Unit {0})
unfolding is_open target_of all
step5_denylist cfg op pol dns = do
  require (all (is_open cfg pol) dns) (deny "scope" "denied_protected" msg_write_dn_refused)
  require (not (op.kind == "group") || creates op || pol.group_listed (target_of dns))
      (deny "scope" "denied_guard" "group is not writable for this machine client")

unfoldable pub step6_if_match : WriteOp → List Bytes → Checked Bytes
unfolding machine_if_match
step6_if_match op values =
    if op.compartment == "cred" && not (length values == 0)
    then denied (bad_request "If-Match is not supported for password changes")
    else if op.if_match
    then machine_if_match values
    else passed []

-- The steps after the admission, in their order.
unfoldable pub steps_4_to_6 : Config → Request → WriteOp → Policy → Checked (Parsed × Bytes)
unfolding step4_parse step5_denylist step6_if_match
steps_4_to_6 cfg req op pol = do
  parsed ← step4_parse cfg req op pol
  step5_denylist cfg op pol parsed.dns
  csn ← step6_if_match op req.if_match
  passed (parsed, csn)
