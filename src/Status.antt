-- ===== src/Status.antt =====
-- The status that an account is meant to have: `getIntendedStatus` of models/account.js.
pub mod Primary
pub mod Membership
mod Tests
use Prim.Native.String
use passmower.Prelude.{
  ℕ, String, Option, none, some, Bool, true, false, not, List, [], ◌∷◌, ◌++◌, ◌==◌, ◌&&◌, ◌||◌,
  Assoc, insert, values, find, filter, filter_map, map, dedup, length, truthy, is_true, is_false,
  same_text, or_else, if◌then◌else◌,
}
use passmower.Settings.{Settings}
use passmower.Account.{
  Account, Group, Identity, UpstreamEmail, Condition, TosAcceptance, Evidence, RecentApplication,
  display_name, get_intended_terms_of_service_acceptance,
}
use passmower.Ownership.{EmailText, canonicalize_email, flat_emails}
use passmower.Evidence.{get_email_verifications}

pub record Profile : Type 0 where
  pub name : Option String
  pub company : Option String
  pub phones : Option (List String)

pub record Status : Type 0 where
  pub primary_email : Option String
  pub emails : List String
  pub groups : List Group
  pub profile : Profile
  pub slack_id : Option String
  pub passkey_count : ℕ
  pub conditions : List Condition
  pub terms_of_service : Option TosAcceptance
  pub recent_applications : List RecentApplication
  pub email_verifications : List Evidence

-- `e.split('@')[1]`: what stands between the first two signs, or after the only one.
abbrev pub until_at : String → String
until_at String.[] = String.[]
until_at (String.◌∷◌ c s) =
    let rest = until_at s in
    if (String.◌∷◌ c String.[]) == "@" then String.[] else String.◌∷◌ c rest

unfoldable pub email_domain : String → Option String
email_domain String.[] = none
email_domain (String.◌∷◌ c s) =
    let rest = email_domain s in if (String.◌∷◌ c String.[]) == "@" then some (until_at s) else rest

-- `a || b || …` on texts. Where none is truthy it is nothing, which is canonicalized like an empty text.
abbrev pub first_truthy : List (Option String) → Option String
first_truthy [] = none
first_truthy (x ∷ xs) = let rest = first_truthy xs in if truthy x then x else rest

abbrev pub email_of : Option UpstreamEmail → Option String
email_of none = none
email_of (some e) = e.email

-- emails.find(e => e.primary)?.email and emails.find(e => e.email)?.email
abbrev pub primary_of : List UpstreamEmail → Option String
primary_of es = email_of (find (λ (e : UpstreamEmail). is_true e.primary) es)

abbrev pub first_of : List UpstreamEmail → Option String
first_of es = email_of (find (λ (e : UpstreamEmail). truthy e.email) es)

-- The chain of `||` that the primary address is taken from.
pub fallback_email : Account → Option String
fallback_email a = first_truthy (
    a.spec.email
    ∷ a.spec.company_email
    ∷ a.passmower.email
    ∷ primary_of a.github.emails
    ∷ first_of a.github.emails
    ∷ primary_of (flat_emails a.identities)
    ∷ first_of (flat_emails a.identities)
    ∷ [])

abbrev pub is_active : Identity → Bool
is_active i = not (is_false i.active)

pub active_groups : Assoc Identity → List Group
active_groups [] = []
active_groups ((k, i) ∷ m) =
    let rest = active_groups m in if is_active i then i.groups ++ rest else rest

-- `[...new Map(groups.map(g => [`${g.prefix}:${g.name}`, g])).values()]`
pub by_display_name : Assoc Group → List Group → Assoc Group
by_display_name m [] = m
by_display_name m (g ∷ gs) = by_display_name (insert (display_name g) g m) gs

pub intended_groups : Account → List Group
unfolding by_display_name active_groups
intended_groups a = values (
    by_display_name []
      (a.spec.groups ++ (a.passmower.groups ++ (a.github.groups ++ active_groups a.identities))))

-- identities.find(i => i.name)?.name and the same for the company.
abbrev first_text : (Identity → Option String) → Assoc Identity → Option String
first_text f [] = none
first_text f ((k, i) ∷ m) = if truthy (f i) then f i else first_text f m

pub intended_profile : Account → Profile
intended_profile a = record {
  name = or_else a.spec.name (
      or_else a.passmower.name
        (or_else a.github.name (first_text (λ (i : Identity). i.name) a.identities)));
  company = or_else a.spec.company (
      or_else a.passmower.company
        (or_else a.github.company (first_text (λ (i : Identity). i.company) a.identities)));
  phones = a.spec.phones;
}

module _ (t : EmailText) where
  pub intended_emails : Account → List String
  intended_emails a = dedup (
      filter_map (canonicalize_email t) (
        a.spec.email
        ∷ a.spec.company_email
        ∷ a.passmower.email
        ∷ (map (λ (e : UpstreamEmail). e.email) a.github.emails
            ++ map (λ (e : UpstreamEmail). e.email) (flat_emails a.identities))))

  -- emails.find(e => e.domain === preferredDomain.toLowerCase()), where there is such a domain.
  pub preferred_email : Option String → List String → Option String
  preferred_email none emails = none
  preferred_email (some domain) emails =
      if domain == ""
      then none
      else find (λ e. same_text (email_domain e) (some (t.to_lower_case domain))) emails

  pub intended_primary_email : Settings → Account → Option String
  unfolding preferred_email fallback_email
  intended_primary_email s a = elim (preferred_email s.preferred_email_domain (intended_emails a)) [
    | some e ↦ some e
    | none ↦ canonicalize_email t (fallback_email a)
  ]

  -- `document` is the hash of the terms of service for the account, where there are some.
  unfoldable pub get_intended_status :
      (String → Option String) → Settings → Option String → Account → Status
  unfolding intended_primary_email
  get_intended_status provider_mode s document a = record {
    primary_email = intended_primary_email s a;
    emails = intended_emails a;
    groups = intended_groups a;
    profile = intended_profile a;
    slack_id = a.slack_id;
    passkey_count = length a.passkeys;
    conditions = filter (λ (c : Condition). not (c.kind == "ToSv1")) a.conditions;
    terms_of_service = get_intended_terms_of_service_acceptance document a;
    recent_applications = a.recent_applications;
    email_verifications = get_email_verifications t provider_mode a;
  }
