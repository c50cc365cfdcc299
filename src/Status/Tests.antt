-- ===== src/Status/Tests.antt =====
-- Runs of the status of an account.
use passmower.Prelude.{
  String, Option, none, some, false, [], ◌∷◌, ◌≡◌, refl, map, contains, IsDistinct, ◌||◌,
}
use passmower.Settings.{Settings}
use passmower.Account.{Account, display_name}
use passmower.Ownership.{get_claimed_emails, canonicalize_email}
use passmower.Fixtures.{email_text, settings, staff, anna, google, upstream_email}
use passmower.Status.{email_domain, get_intended_status}
use passmower.Status.Primary.{primary_email-is_preferred}
use passmower.Status.Membership.{has_group, confers, status_groups_exact}

abbrev untrusted : String → Option String
untrusted provider = none

-- `anna`, with an upstream that reports the address b@y, and was deactivated.
abbrev dora : Account
dora = record anna {
  identities =
      (
        "google",
        record (google "g" (upstream_email "b@y" none ∷ [])) {
          active = some false;
          groups = staff ∷ [];
        },
      )
      ∷ [];
}

abbrev prefers_y : Settings
prefers_y = record settings { preferred_email_domain = some "y" }

second_domain : email_domain "a@b@c" ≡ some "b"
unfolding email_domain
second_domain = refl

primary_email-is_preferred_example :
    (x : String) × ((get_intended_status email_text untrusted prefers_y none dora).primary_email
      ≡ some x)
    × (email_domain x ≡ some "y")
unfolding get_claimed_emails canonicalize_email email_domain
primary_email-is_preferred_example =
    primary_email-is_preferred email_text untrusted prefers_y none dora "y" "b@y" refl refl refl
      refl

status_groups_exact_example :
    let names =
      map display_name (get_intended_status email_text untrusted settings none dora).groups in
    IsDistinct names
    × (contains "github:staff" names ≡ (
        has_group "github:staff" dora.spec.groups
        || (has_group "github:staff" dora.passmower.groups
            || (has_group "github:staff" dora.github.groups
                || confers "github:staff" dora.identities))))
status_groups_exact_example =
    status_groups_exact email_text untrusted settings none dora "github:staff"
