-- ===== src/Response/Tests.antt =====
-- Runs of the claims of an account.
use passmower.Prelude.{String, Option, none, some, true, false, [], ◌∷◌, ◌≡◌, refl, lookup, Assoc}
use passmower.Account.{Account}
use passmower.Ownership.{canonicalize_email}
use passmower.Evidence.{is_primary_email_verified, get_email_verifications}
use passmower.Fixtures.{email_text, anna}
use passmower.Response.{
  object, Claim, text, texts, flag, opaque, Request, with_extra_claims, includes, has_word,
  own_claims, claims,
}
use passmower.Response.Protected.{claims-own_claims}

abbrev untrusted : String → Option String
untrusted provider = none

abbrev erna : Account
erna = record anna { primary_email = some "a@x" }

-- A webhook that answers with groups and with a claim of its own.
abbrev request : Request String
request = record {
  is_userinfo = true;
  scope = "openid email groups namespaces";
  allowed_groups = [];
  applications = "none";
  webhook = object (("groups", "admins") ∷ ("team", "blue") ∷ []);
  mappings = none;
}

abbrev response : Assoc (Claim String)
response =
    ("sub", text "anna")
    ∷ ("username", text "anna")
    ∷ ("nickname", text "anna")
    ∷ ("email", text "a@x")
    ∷ ("email_verified", flag false)
    ∷ ("groups", texts ("github:staff" ∷ []))
    ∷ ("team", opaque "blue")
    ∷ []

responds : claims email_text untrusted request erna ≡ some response
unfolding claims with_extra_claims own_claims is_primary_email_verified canonicalize_email
    get_email_verifications has_word includes
responds = refl

claims-own_claims_example :
    lookup "groups" response ≡ lookup "groups" (own_claims email_text untrusted request erna)
claims-own_claims_example =
    claims-own_claims email_text untrusted request erna response "groups" responds refl

abbrev address : Claim String
address = text "a@x"
