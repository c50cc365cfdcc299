-- ===== src/Evidence.antt =====
-- What shows that an address belongs to the holder of an account: `getEmailVerifications`,
-- `isEmailLinkable`, `isPrimaryEmailVerified` and `verifyEmail` of models/account.js.
pub mod Linkable
mod Tests
use passmower.Prelude.{
  String, Option, none, some, Bool, true, false, not, List, [], ◌∷◌, ◌++◌, ◌==◌, ◌&&◌, ◌||◌, Assoc,
  insert, values, any, filter, filter_map, contains, same_text, is_true, is_false, js_text, concat,
  if◌then◌else◌, map,
}
use passmower.Account.{Account, Evidence, Identity, UpstreamEmail}
use passmower.Ownership.{EmailText, canonicalize_email, get_claimed_emails}

abbrev status_of : Option Bool → String
status_of (some true) = "verified"
status_of (some false) = "unverified"
status_of none = "unknown"

-- `${item.email}\0${item.method}\0${item.provider}`
abbrev evidence_key : Evidence → String
evidence_key e = concat (js_text e.email) (concat "\0" (concat e.method (concat "\0" e.provider)))

-- `[...new Map(evidence.map(item => [key, item])).values()]`
last_by_key : Assoc Evidence → List Evidence → Assoc Evidence
last_by_key m [] = m
last_by_key m (e ∷ es) = last_by_key (insert (evidence_key e) e m) es

abbrev pub has_verified : String → List Evidence → Bool
has_verified email es =
    any (λ (e : Evidence). same_text e.email (some email) && e.status == "verified") es

abbrev verification : String → String → Evidence
verification email verified_at = record {
  email = some email;
  status = "verified";
  method = "magic-link";
  provider = "passmower";
  seen_at = some verified_at;
}

module _ (t : EmailText) where
  pub github_evidence : UpstreamEmail → Option Evidence
  github_evidence item = elim (canonicalize_email t item.email) [
    | none ↦ none
    | some email ↦ some (record {
      email = some email;
      status = status_of item.verified;
      method = "github-api";
      provider = "github";
      seen_at = item.observed_at;
    })
  ]

  pub stored_evidence : List Evidence → List Evidence
  stored_evidence es =
      map (λ (e : Evidence). record e { email = canonicalize_email t e.email })
        (filter (λ (e : Evidence). e.method == "magic-link") es)

  abbrev asserts : String → Assoc Identity → Bool
  asserts email m =
      any
        (λ p.
          any (λ (item : UpstreamEmail). same_text (canonicalize_email t item.email) (some email))
            p.1.emails)
        m

  abbrev in_spec : String → Account → Bool
  in_spec email a =
      same_text (canonicalize_email t a.spec.email) (some email)
      || same_text (canonicalize_email t a.spec.company_email) (some email)

  abbrev replaces : String → Evidence → Bool
  replaces email item =
      same_text (canonicalize_email t item.email) (some email)
      && item.method == "magic-link"
      && item.provider == "passmower"

  abbrev verify_canonical : Option String → String → Account → Account
  verify_canonical none verified_at a = a
  verify_canonical (some email) verified_at a =
      if contains email (get_claimed_emails t a)
      then record a {
        email_verifications =
            filter (λ e. not (replaces email e)) a.email_verifications
            ++ verification email verified_at ∷ [];
      }
      else a

  -- With the method and the provider of a magic link, which every caller passes.
  pub verify_email : Option String → String → Account → Account
  verify_email email verified_at a = verify_canonical (canonicalize_email t email) verified_at a

module _ (t : EmailText) (provider_mode : String → Option String) where
  -- Operator trust holds only while the provider is still trusted.
  abbrev still_verified : String → UpstreamEmail → Option Bool
  still_verified provider item =
      if is_true item.trusted && not (same_text (provider_mode provider) (some "trusted"))
      then none
      else item.verified

  pub identity_evidence : String → UpstreamEmail → Option Evidence
  identity_evidence provider item = elim (canonicalize_email t item.email) [
    | none ↦ none
    | some email ↦ some (record {
      email = some email;
      status = status_of (still_verified provider item);
      method = if is_true item.trusted then "operator-trust" else "oidc-claim";
      provider = provider;
      seen_at = item.observed_at;
    })
  ]

  pub identities_evidence : Assoc Identity → List Evidence
  identities_evidence [] = []
  identities_evidence ((provider, i) ∷ m) =
      let rest = identities_evidence m in
      if is_false i.active then rest else filter_map (identity_evidence provider) i.emails ++ rest

  unfoldable pub get_email_verifications : Account → List Evidence
  unfolding github_evidence identity_evidence identities_evidence stored_evidence last_by_key
  get_email_verifications a = values (
      last_by_key [] (
        stored_evidence t a.email_verifications
        ++ (filter_map (github_evidence t) a.github.emails ++ identities_evidence a.identities)))

  abbrev linkable : String → Account → Bool
  linkable email a =
      if not (contains email (get_claimed_emails t a))
      then false
      else if has_verified email (get_email_verifications a)
      then true
      else if in_spec t email a
      then true
      else not (asserts t email a.identities)

  unfoldable pub is_email_linkable : Option String → Account → Bool
  unfolding get_email_verifications canonicalize_email get_claimed_emails
  is_email_linkable email a = elim (canonicalize_email t email) [
    | none ↦ false
    | some e ↦ linkable e a
  ]

  unfoldable pub is_primary_email_verified : Account → Bool
  unfolding get_email_verifications
  is_primary_email_verified a = elim (canonicalize_email t a.primary_email) [
    | none ↦ false
    | some e ↦ has_verified e (get_email_verifications a)
  ]
