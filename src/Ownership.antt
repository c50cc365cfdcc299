-- ===== src/Ownership.antt =====
-- Which account owns an email address: utils/user/identity-integrity.js, the address list of
-- models/account.js, and the lookups of services/kube-oidc-user-service.js.
pub mod Claims
pub mod Eligible
pub mod Conflicts
pub mod Lookup
mod Tests
use passmower.Prelude.{
  ℕ, String, Option, none, some, Bool, true, false, not, List, [], ◌∷◌, ◌++◌, ◌==◌, map, Assoc,
  lookup, insert, has, values, dedup, filter, filter_map, find, head?, tail, sort_by, same_text,
  truthy, get_or, ltb, nat_eq, if◌then◌else◌, is_some,
}
use passmower.Account.{Account, Identity, UpstreamEmail, Github}

-- What the code asks of text: `String.prototype.trim` and `toLowerCase` over all of Unicode, the
-- order of `localeCompare`, `normalizeEmail` of the validator package (false is none), and
-- NORMALIZE_EMAIL_ADDRESSES.
pub record EmailText : Type 0 where
  pub trim : String → String
  pub to_lower_case : String → String
  pub locale_le : String → String → Bool
  pub normalize_email : String → Option String
  pub normalize_addresses : Option String

-- `value || undefined`
abbrev pub non_empty : Option String → Option String
non_empty o = if truthy o then o else none

pub data IntegrityError : Type 0 where
  different_users conflicting_claims attached_to_multiple identity_and_email_differ : IntegrityError

pub data Found : Type 0 where
  ok : Option Account → Found
  error : IntegrityError → Found

pub record Conflict : Type 0 where
  pub email : String
  pub owner_account_id : String

pub record Ownership : Type 0 where
  pub owners : Assoc Account
  pub conflicts : Assoc (List Conflict)

pub claim_email : Account → Assoc (List Account) → String → Assoc (List Account)
claim_email a m e = insert e (get_or (lookup e m) [] ++ a ∷ []) m

pub claim_emails : Account → Assoc (List Account) → List String → Assoc (List Account)
claim_emails a m [] = m
claim_emails a m (e ∷ es) = claim_emails a (claim_email a m e) es

-- The loop that picks each address's first claimant.
pub owners_from : Assoc Account → Assoc (List Account) → Assoc Account
owners_from m [] = m
owners_from m ((e, claimants) ∷ claims) =
    owners_from (elim (head? claimants) [ none ↦ m | some o ↦ insert e o m ]) claims

pub add_conflict : String → String → Assoc (List Conflict) → String → Assoc (List Conflict)
add_conflict e owner m id =
    insert id (get_or (lookup id m) [] ++ record { email = e; owner_account_id = owner } ∷ []) m

pub add_conflicts : String → String → Assoc (List Conflict) → List Account → Assoc (List Conflict)
add_conflicts e owner m [] = m
add_conflicts e owner m (d ∷ ds) = add_conflicts e owner (add_conflict e owner m d.account_id) ds

-- Every later claimant of an address is in conflict with its owner.
pub conflicts_from : Assoc (List Conflict) → Assoc (List Account) → Assoc (List Conflict)
conflicts_from m [] = m
conflicts_from m ((e, claimants) ∷ claims) =
    conflicts_from
      (elim (head? claimants) [
        | none ↦ m
        | some o ↦ add_conflicts e o.account_id m (tail claimants)
      ])
      claims

pub is_eligible : Ownership → Account → Bool
is_eligible o a = not (has a.account_id o.conflicts)

-- `[...new Set(accounts)]`: an account is one object, told by its name.
abbrev pub without_account : String → List Account → List Account
without_account id xs = filter (λ (b : Account). not (b.account_id == id)) xs

pub distinct_accounts : List Account → List Account
distinct_accounts [] = []
distinct_accounts (a ∷ rest) = a ∷ without_account a.account_id (distinct_accounts rest)

abbrev pub flat_emails : Assoc Identity → List UpstreamEmail
flat_emails [] = []
flat_emails ((k, i) ∷ m) = i.emails ++ flat_emails m

module _ (t : EmailText) where
  unfoldable pub canonicalize_email : Option String → Option String
  canonicalize_email none = none
  canonicalize_email (some email) =
      let trimmed = t.to_lower_case (t.trim email) in
      if trimmed == ""
      then none
      else if same_text t.normalize_addresses (some "true")
      then non_empty (t.normalize_email trimmed)
      else some trimmed

  unfoldable pub get_claimed_emails : Account → List String
  unfolding canonicalize_email
  get_claimed_emails a = dedup (
      filter_map canonicalize_email (
        a.spec.email
        ∷ a.spec.company_email
        ∷ a.passmower.email
        ∷ (map (λ (e : UpstreamEmail). e.email) (a.github.emails ++ flat_emails a.identities))))

  -- Creation times that do not parse count as Number.MAX_SAFE_INTEGER.
  pub account_order : Account → Account → Bool
  account_order a b =
      let at = get_or a.created_at 9007199254740991 in
      let bt = get_or b.created_at 9007199254740991 in
      if nat_eq at bt then t.locale_le a.account_id b.account_id else ltb at bt

  pub claims_from : Assoc (List Account) → List Account → Assoc (List Account)
  claims_from m [] = m
  claims_from m (a ∷ rest) = claims_from (claim_emails a m (get_claimed_emails a)) rest

  pub assess_email_ownership : List Account → Ownership
  assess_email_ownership accounts =
      let claims = claims_from [] (sort_by account_order accounts) in
      record { owners = owners_from [] claims; conflicts = conflicts_from [] claims }

  -- The owners of the incoming addresses.
  pub candidates : Ownership → List (Option String) → List Account
  candidates o emails =
      distinct_accounts (filter_map (λ e. lookup e o.owners) (filter_map canonicalize_email emails))

  abbrev pub check_eligible : Ownership → Account → Found
  check_eligible o a = if is_eligible o a then ok (some a) else error conflicting_claims

  abbrev pub single : Ownership → IntegrityError → List Account → Found
  single o several [] = ok none
  single o several (a ∷ []) = check_eligible o a
  single o several (a ∷ b ∷ rest) = error several

  unfoldable pub find_user_by_emails : List Account → List (Option String) → Found
  unfolding assess_email_ownership candidates is_eligible canonicalize_email get_claimed_emails
      account_order claims_from claim_emails claim_email owners_from conflicts_from add_conflicts
      add_conflict distinct_accounts
  find_user_by_emails accounts emails =
      let o = assess_email_ownership accounts in single o different_users (candidates o emails)

  unfoldable pub find_unique_stable_identity : (Account → Bool) → List Account → Found
  unfolding assess_email_ownership is_eligible canonicalize_email get_claimed_emails account_order
      claims_from claim_emails claim_email owners_from conflicts_from add_conflicts add_conflict
  find_unique_stable_identity predicate accounts =
      single (assess_email_ownership accounts) attached_to_multiple (filter predicate accounts)

  unfoldable pub find_user_by_identity : String → String → List Account → Found
  unfolding find_unique_stable_identity
  find_user_by_identity provider_key subject = find_unique_stable_identity (λ a.
      elim (lookup provider_key a.identities) [
        | none ↦ false
        | some i ↦ same_text i.sub (some subject)
      ])

  unfoldable pub find_user_by_github_id : String → List Account → Found
  unfolding find_unique_stable_identity
  find_user_by_github_id github_id =
      find_unique_stable_identity (λ a. same_text a.github.id (some github_id))
