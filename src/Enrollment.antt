-- ===== src/Enrollment.antt =====
-- Which account a sign-in belongs to, and what becomes of a sign-in that belongs to none:
-- `createOrUpdateByEmails` of models/account.js, with the evidence that it links by.
pub mod Linking
mod Tests
use passmower.Prelude.{
  ℕ, String, Option, none, some, Bool, true, false, not, List, [], ◌∷◌, ◌++◌, ◌==◌, ◌&&◌, map, any,
  filter, filter_map, same_text, truthy, get_or, or_else, is_true, is_empty, contains,
  if◌then◌else◌,
}
use passmower.Settings.{Settings}
use passmower.Account.{Account, UpstreamEmail}
use passmower.Ownership.{
  EmailText, IntegrityError, identity_and_email_differ, Found, ok, error, canonicalize_email,
  find_user_by_identity, find_user_by_github_id, find_user_by_emails,
}
use passmower.Evidence.{is_email_linkable}
use passmower.Username.{
  Source, Validator, get_username_source, sanitize_username, is_username_valid,
}

-- The `identity` argument; a GitHub id is compared as a text.
pub record LoginIdentity : Type 0 where
  pub provider_key : Option String
  pub subject : Option String
  pub github_id : Option String

pub record Login : Type 0 where
  pub email : Option String
  pub github_emails : Option (List UpstreamEmail)
  pub username : Option String
  pub preferred_username : Option String
  pub identity : LoginIdentity

pub data Resolution : Type 0 where
  refused : Resolution  -- access_denied: the address is not verified
  blocked : IntegrityError → Resolution
  nobody : Resolution
  belongs_to : Account → Resolution

pub data Outcome : Type 0 where
  stopped : Outcome  -- refused or blocked
  proceeds : Account → Outcome
  enrollment_disabled : Outcome
  prompts : Option String → Outcome  -- the enter-username form, with its suggestion
  creates : String → Outcome
  invalid_source : Outcome  -- USERNAME_SOURCE is none of the three, and the code throws

abbrev pub addresses : List UpstreamEmail → List (Option String)
addresses = map (λ (e : UpstreamEmail). e.email)

-- `new Map(list.map(v => [v.email, v])).values()`
put_email : UpstreamEmail → List UpstreamEmail → List UpstreamEmail
put_email v [] = v ∷ []
put_email v (w ∷ ws) = if same_text w.email v.email then v ∷ ws else w ∷ put_email v ws

put_emails : List UpstreamEmail → List UpstreamEmail → List UpstreamEmail
put_emails seen [] = seen
put_emails seen (v ∷ vs) = put_emails (put_email v seen) vs

-- `user ??= emailUser`, with the guards that stand before it.
abbrev link : Bool → Option Account → Option Account → Resolution
link proven (some u) (some e) =
    if u.account_id == e.account_id then belongs_to u else blocked identity_and_email_differ
link proven (some u) none = belongs_to u
link proven none (some e) = if proven then belongs_to e else refused
link proven none none = nobody

module _ (t : EmailText) where
  pub normalize_github_emails : List UpstreamEmail → List UpstreamEmail
  normalize_github_emails es = put_emails [] (
      map (λ (e : UpstreamEmail). record e { email = canonicalize_email t e.email; trusted = none })
        es)

  abbrev pub github_list : Login → List UpstreamEmail
  github_list l = elim l.github_emails [ none ↦ [] | some es ↦ normalize_github_emails es ]

  pub incoming_emails : Login → List String
  incoming_emails l =
      filter (λ e. not (e == ""))
        (filter_map (λ e. e) (canonicalize_email t l.email ∷ addresses (github_list l)))

  pub linkable_emails : Login → List String
  linkable_emails l =
      filter (λ e. not (e == ""))
        (filter_map (λ e. e)
          ((if truthy l.identity.provider_key then none else canonicalize_email t l.email)
            ∷ addresses (filter (λ (e : UpstreamEmail). is_true e.verified) (github_list l))))

  pub find_by_stable_identity : Login → List Account → Found
  find_by_stable_identity l users =
      if truthy l.identity.provider_key && truthy l.identity.subject
      then find_user_by_identity t (get_or l.identity.provider_key "")
          (get_or l.identity.subject "") users
      else elim l.identity.github_id [
        | none ↦ ok none
        | some id ↦ find_user_by_github_id t id users
      ]

module _ (t : EmailText) (provider_mode : String → Option String) where
  pub is_proven : Login → Option Account → Bool
  is_proven l none = false
  is_proven l (some a) =
      any (λ e. is_email_linkable t provider_mode (some e) a) (linkable_emails t l)

  abbrev resolve_with : Login → Found → Found → Resolution
  resolve_with l (error e) by_email = blocked e
  resolve_with l (ok u) (error e) = blocked e
  resolve_with l (ok u) (ok e) = link (is_proven l e) u e

  pub resolve : Login → List Account → Resolution
  resolve l users =
      resolve_with l (find_by_stable_identity t l users)
        (find_user_by_emails t users (map some (incoming_emails t l)))

module _ (t : EmailText) (v : Validator) (s : Settings) (available : String → Bool)
    (uid : String) where
  -- The candidate is shown in the form where it cannot be taken as it is.
  abbrev from_upstream : Option String → Option String → Outcome
  from_upstream preferred none = prompts preferred
  from_upstream preferred (some c) =
      if is_username_valid v (some c) && available c then creates c else prompts (some c)

  abbrev from_source : Option String → Option String → Option Source → Outcome
  from_source username preferred none = invalid_source
  from_source username preferred (some Source.prompt) =
      prompts (or_else (sanitize_username t.to_lower_case preferred) preferred)
  from_source username preferred (some Source.upstream) =
      from_upstream preferred (sanitize_username t.to_lower_case preferred)
  from_source username preferred (some Source.generated) = creates (get_or username uid)

  pub enroll : Login → Outcome
  enroll l =
      if truthy l.username
      then creates (get_or l.username uid)
      else if same_text s.enroll_users (some "false")
      then enrollment_disabled
      else from_source l.username l.preferred_username (get_username_source s)

  abbrev pub outcome_of : Login → Resolution → Outcome
  outcome_of l refused = stopped
  outcome_of l (blocked e) = stopped
  outcome_of l nobody = enroll l
  outcome_of l (belongs_to a) = proceeds a

  pub create_or_update_by_emails : (String → Option String) → Login → List Account → Outcome
  create_or_update_by_emails provider_mode l users = outcome_of l (resolve t provider_mode l users)
