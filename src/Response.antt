-- ===== src/Response.antt =====
-- The claims of an account in a token or in userinfo: `claims` of models/account.js,
-- utils/fetch-extra-claims.js and mappedClaimsFor of utils/claim-mappings.js.
pub mod Protected
pub mod Held
mod Tests
use Prim.Native.String
use passmower.Prelude.{
  String, Option, none, some, Bool, true, false, not, List, [], ◌∷◌, ◌++◌, ◌==◌, ◌&&◌, ◌||◌, Assoc,
  insert, filter, map, contains, is_some, is_empty, truthy, strip_prefix, if◌then◌else◌,
}
use passmower.Account.{Account, Group, display_name}
use passmower.Ownership.{EmailText}
use passmower.Evidence.{is_primary_email_verified}
use passmower.Claims.{Mappings, evaluate_claim_mappings, protected_claims}

-- `text.split(' ')`, for the word `w`: whether it is one of the parts.
abbrev pub first_word : String → String
first_word String.[] = String.[]
first_word (String.◌∷◌ c s) =
    let rest = first_word s in
    if (String.◌∷◌ c String.[]) == " " then String.[] else String.◌∷◌ c rest

unfoldable pub later_words : String → List String
later_words String.[] = []
later_words (String.◌∷◌ c s) =
    let rest = later_words s in
    if (String.◌∷◌ c String.[]) == " " then first_word s ∷ rest else rest

unfoldable pub has_word : String → String → Bool
unfolding later_words
has_word w scope = first_word scope == w || contains w (later_words scope)

-- `text.includes(part)`
unfoldable pub includes : String → String → Bool
includes part String.[] = part == ""
includes part (String.◌∷◌ c s) = is_some (strip_prefix part (String.◌∷◌ c s)) || includes part s

-- What the enrichment webhook gives.
pub data Webhook (X : Type 0) : Type 0 where
  not_configured : Webhook X
  not_ok : Webhook X
  object : Assoc X → Webhook X
  not_an_object : Webhook X
  failed : Webhook X

module _ {X : Type 0} where
  unfoldable pub sanitize_claims : Assoc X → Assoc X
  sanitize_claims claims = filter (λ p. not (contains p.0 protected_claims)) claims

  unfoldable pub fetch_extra_claims : Webhook X → Assoc X
  unfolding sanitize_claims
  fetch_extra_claims not_configured = []
  fetch_extra_claims not_ok = []
  fetch_extra_claims (object claims) = sanitize_claims claims
  fetch_extra_claims not_an_object = []
  fetch_extra_claims failed = []

-- mappedClaimsFor; none where the evaluation throws. The mappings are absent without a provider.
unfoldable pub mapped_claims_for : Option Mappings → List String → Option (Assoc String)
mapped_claims_for none groups = some []
mapped_claims_for (some ms) groups =
    if is_empty ms then some [] else evaluate_claim_mappings ms groups

-- The value of a claim. What the webhook or the list of applications gives is opaque.
pub data Claim (X : Type 0) : Type 0 where
  text : String → Claim X
  flag : Bool → Claim X
  texts : List String → Claim X
  nothing : Claim X
  opaque : X → Claim X

pub record Request (X : Type 0) : Type 0 where
  pub is_userinfo : Bool
  pub scope : String
  pub allowed_groups : List String  -- client.allowedGroups || []
  pub applications : X  -- listMyApps(this)
  pub webhook : Webhook X
  pub mappings : Option Mappings

module _ {X : Type 0} where
  -- Object.assign(response, more)
  unfoldable pub assign : {Y : Type 0} → (Y → Claim X) → Assoc (Claim X) → Assoc Y → Assoc (Claim X)
  assign f response [] = response
  assign f response ((k, v) ∷ more) = assign f (insert k (f v) response) more

  -- A field of the profile that is null is null in the claims.
  abbrev pub text_or_nothing : Option String → Claim X
  text_or_nothing none = nothing
  text_or_nothing (some t) = text t

  abbrev pub texts_or_nothing : Option (List String) → Claim X
  texts_or_nothing none = nothing
  texts_or_nothing (some ts) = texts ts

  pub with_email : Request X → Option String → Bool → Assoc (Claim X) → Assoc (Claim X)
  with_email r none verified response = response
  with_email r (some e) verified response =
      if has_word "email" r.scope && not (e == "")
      then insert "email_verified" (flag verified) (insert "email" (text e) response)
      else response

  -- ...this.profile, which is empty before the first status.
  pub with_profile_fields : Account → Assoc (Claim X) → Assoc (Claim X)
  with_profile_fields a response =
      if a.has_profile
      then insert "phones" (texts_or_nothing a.profile_phones) (
          insert "company" (text_or_nothing a.profile_company)
            (insert "name" (text_or_nothing a.profile_name) response))
      else response

  pub with_profile : Request X → Account → Assoc (Claim X) → Assoc (Claim X)
  unfolding with_profile_fields
  with_profile r a response =
      if includes "profile" r.scope
      then insert "emails" (texts a.emails) (with_profile_fields a response)
      else response

  pub with_allowed_groups : Request X → List String → Assoc (Claim X) → Assoc (Claim X)
  with_allowed_groups r groups response =
      if includes "allowed_groups" r.scope
      then insert "groups"
          (texts (
            if is_empty r.allowed_groups
            then r.allowed_groups
            else filter (λ g. contains g r.allowed_groups) groups))
          response
      else response

  pub with_groups : Request X → List String → Assoc (Claim X) → Assoc (Claim X)
  with_groups r groups response =
      if includes " groups" r.scope then insert "groups" (texts groups) response else response

  pub with_applications : Request X → Assoc (Claim X) → Assoc (Claim X)
  with_applications r response =
      if r.is_userinfo && has_word "applications" r.scope
      then insert "applications" (opaque r.applications) response
      else response

  pub with_extra_claims : Request X → Assoc (Claim X) → Assoc (Claim X)
  unfolding assign fetch_extra_claims
  with_extra_claims r response =
      if has_word "namespaces" r.scope
      then assign opaque response (fetch_extra_claims r.webhook)
      else response

  abbrev pub initial_claims : String → Assoc (Claim X)
  initial_claims username =
      ("sub", text username) ∷ ("username", text username) ∷ ("nickname", text username) ∷ []

  -- The claims up to those that others than Passmower contribute.
  pub own_claims : EmailText → (String → Option String) → Request X → Account → Assoc (Claim X)
  unfolding with_email with_profile with_allowed_groups with_groups with_applications
  own_claims t provider_mode r a =
      (let groups = map display_name a.groups in
        let verified = is_primary_email_verified t provider_mode a in
        with_applications r (
          with_groups r groups (
            with_allowed_groups r groups (
              with_profile r a
                (with_email r a.primary_email verified (initial_claims a.account_id))))))

  unfoldable pub claims :
      EmailText → (String → Option String) → Request X → Account → Option (Assoc (Claim X))
  unfolding with_extra_claims mapped_claims_for assign
  claims t provider_mode r a =
      (let response = with_extra_claims r (own_claims t provider_mode r a) in
        elim (mapped_claims_for r.mappings (map display_name a.groups)) [
          | none ↦ none
          | some mapped ↦ some (assign text response mapped)
        ])
