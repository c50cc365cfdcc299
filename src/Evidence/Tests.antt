-- ===== src/Evidence/Tests.antt =====
-- Runs of the evidence code.
use passmower.Prelude.{String, Option, none, some, Bool, true, false, ◌≡◌, refl, any, ◌||◌}
use passmower.Account.{Account}
use passmower.Fixtures.{email_text, anna, bob}
use passmower.Evidence.{is_email_linkable, is_primary_email_verified, verify_email}
use passmower.Evidence.Linkable.{by_magic_link, vouched, vouched_by_identity, has_verified_origin}

-- No provider is trusted by the operator.
abbrev untrusted : String → Option String
untrusted provider = none

may_link : Option String → Account → Bool
unfolding is_email_linkable verify_email is_primary_email_verified
may_link = is_email_linkable email_text untrusted

-- An address that only an upstream asserts is no ground for linking.
asserted_only : may_link (some "b@x") bob ≡ false
unfolding may_link
asserted_only = refl

own_address : may_link (some "a@x") anna ≡ true
unfolding may_link
own_address = refl

abbrev opened : Account
opened = verify_email email_text (some "b@x") "2026" bob

after_magic_link : may_link (some "b@x") opened ≡ true
unfolding may_link
after_magic_link = refl

has_verified_origin_example :
    (any (by_magic_link email_text untrusted "b@x") opened.email_verifications
      || (any (vouched email_text untrusted "b@x") opened.github.emails
          || vouched_by_identity email_text untrusted "b@x" opened.identities))
    ≡ true
unfolding may_link
has_verified_origin_example = has_verified_origin email_text untrusted "b@x" opened refl
