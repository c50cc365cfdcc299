-- ===== src/Account.antt =====
-- models/account.js: the state of an `Account`, as `fromKubernetes` reads it, and its small methods.
-- A provider field that the resource lacks is the record with nothing in it, since every reader
-- treats the two alike (`?.`, `?? []`).
use passmower.Prelude.{
  ℕ, String, Option, none, some, Bool, true, not, List, [], ◌∷◌, ◌++◌, ◌==◌, ◌&&◌, Assoc, any, find,
  filter, concat, js_text, same_text, is_true,
}
use passmower.Settings.{Settings}

pub record Group : Type 0 where
  pub prefix : Option String
  pub name : String

-- An address that an upstream provider reported.
pub record UpstreamEmail : Type 0 where
  pub email : Option String
  pub primary : Option Bool
  pub verified : Option Bool
  pub trusted : Option Bool
  pub observed_at : Option String

pub record Identity : Type 0 where
  pub sub : Option String
  pub active : Option Bool
  pub name : Option String
  pub company : Option String
  pub emails : List UpstreamEmail
  pub groups : List Group

pub record Github : Type 0 where
  pub id : Option String
  pub name : Option String
  pub company : Option String
  pub emails : List UpstreamEmail
  pub groups : List Group

pub record Passmower : Type 0 where
  pub email : Option String
  pub name : Option String
  pub company : Option String
  pub groups : List Group
  pub approved : Option Bool
  pub onboarded_by : Option String

pub record Spec : Type 0 where
  pub kind : Option String  -- spec.type
  pub email : Option String
  pub company_email : Option String
  pub name : Option String
  pub company : Option String
  pub phones : Option (List String)
  pub groups : List Group

pub record Condition : Type 0 where
  pub kind : String  -- the condition's type
  pub status : String
  pub reason : String
  pub message : String
  pub last_transition_time : Option ℕ

pub record TosAcceptance : Type 0 where
  pub accepted_at : Option ℕ
  pub content_hash : Option String

pub record Evidence : Type 0 where
  pub email : Option String
  pub status : String
  pub method : String
  pub provider : String
  pub seen_at : Option String  -- observedAt, or verifiedAt of a magic link

-- A credential under webauthn.credentials; the rest of it is opaque.
pub record Passkey : Type 0 where
  pub id : String
  pub name : Option String
  pub counter : ℕ
  pub public_key : String

-- An entry of status.recentApplications.
pub record RecentApplication : Type 0 where
  pub client_id : String
  pub client_namespace : String
  pub client_name : String
  pub client_kind : String
  pub last_authenticated_at : ℕ

pub record Account : Type 0 where
  pub account_id : String
  pub created_at : Option ℕ  -- metadata.creationTimestamp, where it parses
  pub spec : Spec
  pub passmower : Passmower
  pub github : Github
  pub slack_id : Option String  -- slack.id
  pub identities : Assoc Identity
  pub passkeys : List Passkey
  pub emails : List String  -- status.emails
  pub primary_email : Option String
  pub groups : List Group  -- status.groups
  pub has_profile : Bool  -- whether status.profile is there; it is written with every field, null or not
  pub profile_name : Option String  -- status.profile.name
  pub profile_company : Option String
  pub profile_phones : Option (List String)
  pub recent_applications : List RecentApplication
  pub conditions : List Condition
  pub terms_of_service : Option TosAcceptance
  pub email_verifications : List Evidence

-- g.prefix + ':' + g.name
abbrev pub display_name : Group → String
display_name g = concat (js_text g.prefix) (concat ":" g.name)

-- `isAdmin`, computed when the account is read.
abbrev pub is_admin : Settings → Account → Bool
is_admin s a = any (λ g. same_text (some (display_name g)) s.admin_group) a.groups

unfoldable pub set_approved : Account → Account
set_approved a = record a { passmower = record a.passmower { approved = some true } }

unfoldable pub is_approved : Account → Bool
is_approved a = is_true a.passmower.approved

-- `this.#passmower.groups` is created empty where it is missing.
unfoldable pub push_custom_group : Settings → String → Account → Account
push_custom_group s name a = record a {
  passmower = record a.passmower {
    groups = a.passmower.groups ++ record { prefix = s.group_prefix; name = name } ∷ [];
  };
}

abbrev is_tos_v1 : Condition → Bool
is_tos_v1 c = c.kind == "ToSv1" && c.status == "True"

abbrev legacy_acceptance : Option Condition → Option TosAcceptance
legacy_acceptance none = none
legacy_acceptance (some c) =
    some (record { accepted_at = c.last_transition_time; content_hash = none })

abbrev acceptance_or : Option TosAcceptance → List Condition → Option TosAcceptance
acceptance_or (some t) conditions = some t
acceptance_or none conditions = legacy_acceptance (find is_tos_v1 conditions)

unfoldable pub get_terms_of_service_acceptance : Account → Option TosAcceptance
get_terms_of_service_acceptance a = acceptance_or a.terms_of_service a.conditions

unfoldable pub accept_terms_of_service : String → ℕ → Account → Account
accept_terms_of_service content_hash accepted_at a = record a {
  terms_of_service =
      some (record { accepted_at = some accepted_at; content_hash = some content_hash });
  conditions = filter (λ c. not (c.kind == "ToSv1")) a.conditions;
}

-- `#getIntendedTermsOfServiceAcceptance`: a legacy acceptance takes the current document's hash.
abbrev with_baseline : Option TosAcceptance → Option String → Option TosAcceptance
with_baseline none document = none
with_baseline (some (t)) document = elim t.content_hash [
  | some hash ↦ some t
  | none ↦ elim document [
    | none ↦ some t
    | some hash ↦ some (record t { content_hash = some hash })
  ]
]

unfoldable pub get_intended_terms_of_service_acceptance :
    Option String → Account → Option TosAcceptance
unfolding get_terms_of_service_acceptance
get_intended_terms_of_service_acceptance document a =
    with_baseline (get_terms_of_service_acceptance a) document
