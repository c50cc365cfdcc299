-- ===== src/Fixtures.antt =====
-- Accounts and settings that the tests share.
use passmower.Prelude.{String, Option, none, some, Bool, true, List, [], ◌∷◌}
use passmower.Settings.{Settings}
use passmower.Account.{Account, Group, Identity, UpstreamEmail}
use passmower.Ownership.{EmailText}

abbrev pub settings : Settings
settings = record {
  admin_group = some "local:admins";
  group_prefix = some "local";
  required_group = some "local:members";
  disable_frontend_edit = none;
  preferred_email_domain = none;
  enroll_users = none;
  username_source = none;
  use_github_username = none;
  require_custom_username = none;
  group_requests_enabled = some "true";
  group_requests_require_existing_group = none;
}

abbrev pub staff : Group
staff = record { prefix = some "github"; name = "staff" }

abbrev pub alice : Account
alice = record {
  account_id = "alice";
  created_at = none;
  spec = record {
    kind = none;
    email = none;
    company_email = none;
    name = none;
    company = none;
    phones = none;
    groups = [];
  };
  passmower = record {
    email = none;
    name = none;
    company = none;
    groups = [];
    approved = none;
    onboarded_by = none;
  };
  github = record { id = none; name = none; company = none; emails = []; groups = [] };
  slack_id = none;
  identities = [];
  passkeys = [];
  emails = [];
  primary_email = none;
  groups = staff ∷ [];
  has_profile = true;
  profile_name = some "Alice";
  profile_company = none;
  profile_phones = none;
  recent_applications = [];
  conditions =
      record {
        kind = "ToSv1";
        status = "True";
        reason = "";
        message = "";
        last_transition_time = none;
      }
      ∷ [];
  terms_of_service = none;
  email_verifications = [];
}

abbrev pub banned : Account
banned = record alice { spec = record alice.spec { kind = some "banned" } }

-- A text is its own trimmed, lower-case and normalised form here.
abbrev pub email_text : EmailText
email_text = record {
  trim = λ x. x;
  to_lower_case = λ x. x;
  locale_le = λ x y. true;
  normalize_email = λ x. some x;
  normalize_addresses = none;
}

abbrev pub upstream_email : String → Option Bool → UpstreamEmail
upstream_email e verified = record {
  email = some e;
  primary = none;
  verified = verified;
  trusted = none;
  observed_at = none;
}

abbrev pub google : String → List UpstreamEmail → Identity
google sub emails = record {
  sub = some sub;
  active = none;
  name = none;
  company = none;
  emails = emails;
  groups = [];
}

-- Created first, by a magic link; `bob` came by an upstream that reports the address `b@x`.
abbrev pub anna : Account
anna = record alice {
  account_id = "anna";
  created_at = some 1;
  passmower = record alice.passmower { email = some "a@x" };
}

abbrev pub bob : Account
bob = record alice {
  account_id = "bob";
  created_at = some 2;
  identities = ("google", google "g-bob" (upstream_email "b@x" none ∷ [])) ∷ [];
}

-- Claims the address of `anna` too.
abbrev pub carl : Account
carl = record alice {
  account_id = "carl";
  created_at = some 3;
  spec = record alice.spec { email = some "a@x" };
}
