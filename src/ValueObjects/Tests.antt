-- ===== src/ValueObjects/Tests.antt =====
-- The theorems on the value objects, at concrete texts.
use internal_developer_platf.Shared.{◌≤◌, false, ◌≡◌, refl, ◌↔◌, ok}
use internal_developer_platf.ValueObjects.Email.{
  new_email, matches_email, one, plus, at_end, is_local, is_domain, is_alphanumeric, is_letter,
}
use internal_developer_platf.ValueObjects.Email.Shape.{IsEmail, new_email_iff}
use internal_developer_platf.Text.{
  len, codes, CaseTables, to_lower, trim_space, trim, trim_left, trim_right, is_space, lower_rune,
  text_eq,
}
use internal_developer_platf.ValueObjects.{is_one_of, new_provisioning_status}
use internal_developer_platf.ValueObjects.Accepts.{
  provisioning_status, construct, construct_reaccepts,
}

-- Tables for texts of ASCII characters only.
abbrev ascii : CaseTables
ascii = record { lower = λ c. c; upper = λ c. c }

construct_reaccepts_example :
    construct ascii provisioning_status (codes "failed") ≡ ok (codes "failed")
unfolding new_provisioning_status is_one_of to_lower lower_rune trim_space trim trim_left trim_right
    is_space text_eq
construct_reaccepts_example =
    construct_reaccepts ascii provisioning_status (codes " Failed\n") (codes "failed") refl

new_email_iff_example : (new_email ascii (codes " Dev@x.io") ≡ ok (codes "dev@x.io")) ↔ (
    (codes "dev@x.io" ≡ to_lower ascii (trim_space (codes " Dev@x.io")))
    × (len (codes "dev@x.io") ≤ 254)
    × IsEmail (codes "dev@x.io"))
new_email_iff_example = new_email_iff ascii (codes " Dev@x.io") (codes "dev@x.io")

-- Two at signs are no email.
two_signs : matches_email (codes "a@b@c.io") ≡ false
unfolding matches_email one plus at_end is_local is_domain is_alphanumeric is_letter
two_signs = refl
