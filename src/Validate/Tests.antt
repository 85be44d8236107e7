-- ===== src/Validate/Tests.antt =====
-- Runs of the checks and the witnesses of their theorems (ui/backend/internal/validate/validate.go).
use ldapium.Prelude.{◌≤◌, ◌≡◌, ◌↔◌, ◌⊎◌, refl, true, [], ◌∷◌, length, all, any}
use ldapium.Prelude.Bytes.{codes}
use ldapium.Validate.{
  fine, malformed_uid, malformed_email, has_control, check_email, no_equals, check_uid, check_cn,
  check_dn, check_password,
}
use ldapium.Validate.Email.{IsAddress, check_email_iff}
use ldapium.Validate.Names.{is_inert, check_uid-inert}

accepted : check_uid (codes "a.b-1") ≡ fine
unfolding check_uid all
accepted = refl

leading_dot : check_uid (codes ".a") ≡ malformed_uid
unfolding check_uid all
leading_dot = refl

a_bell : check_cn (7 ∷ []) ≡ has_control
unfolding check_cn any
a_bell = refl

no_pair : check_dn (codes "people") ≡ no_equals
unfolding check_dn any
no_pair = refl

a_password : check_password (codes "x") ≡ fine
unfolding check_password
a_password = refl

check_uid-inert_example :
    (1 ≤ length (codes "a.b-1"))
    × (length (codes "a.b-1") ≤ 64)
    × (all is_inert (codes "a.b-1") ≡ true)
check_uid-inert_example = check_uid-inert (codes "a.b-1") accepted

a_mail : check_email (codes "ann@mail.example.org") ≡ fine
unfolding check_email all
a_mail = refl

no_host : check_email (codes "ann@mail") ≡ malformed_email
unfolding check_email all
no_host = refl

check_email_iff_example :
    (check_email (codes "ann@example.org") ≡ fine)
    ↔ ((codes "ann@example.org" ≡ []) ⊎ IsAddress (codes "ann@example.org"))
check_email_iff_example = check_email_iff (codes "ann@example.org")
