-- ===== src/Users.antt =====
-- services/kube-oidc-user-service.js: the condition EmailUnique, new users, and passkeys. The lookups of
-- the same file are in Ownership.
pub mod Uniqueness
pub mod Passkeys
mod Tests
use passmower.Prelude.{
  ℕ, zero, suc, ◌+◌, String, Option, none, some, Bool, true, false, not, List, [], ◌∷◌, ◌++◌, ◌==◌,
  ◌&&◌, ◌||◌, nat_eq, Assoc, lookup, find, filter, any, map, is_empty, is_some, length, get_or,
  concat, truthy, same_text, if◌then◌else◌,
}
use passmower.Account.{Account, Condition, Passkey, UpstreamEmail}
use passmower.Ownership.{EmailText, Ownership, Conflict, assess_email_ownership}

abbrev pub is_email_unique : Condition → Bool
is_email_unique c = c.kind == "EmailUnique"

-- What the condition of an account says.
pub record Verdict : Type 0 where
  pub status : String
  pub reason : String
  pub message : String

abbrev conflict_text : Conflict → String
conflict_text c = concat c.email (concat " is owned by OIDCUser " c.owner_account_id)

-- The texts of the conflicts, joined by '; '.
pub conflicts_message : List Conflict → String
conflicts_message [] = ""
conflicts_message (c ∷ []) = conflict_text c
conflicts_message (c ∷ d ∷ cs) = concat (conflict_text c) (concat "; " (conflicts_message (d ∷ cs)))

pub verdict : List Conflict → Verdict
unfolding conflicts_message
verdict [] = record {
  status = "True";
  reason = "Unique";
  message = "All claimed email addresses are unique";
}
verdict (c ∷ cs) = record {
  status = "False";
  reason = "DuplicateEmail";
  message = conflicts_message (c ∷ cs);
}

abbrev says : Verdict → Option Condition → Bool
says v none = false
says v (some c) = c.status == v.status && c.reason == v.reason && c.message == v.message

pub is_settled : Verdict → List Condition → Bool
is_settled v conditions = says v (find is_email_unique conditions)

-- The time of the previous condition stays if its status does.
abbrev transition_time : String → ℕ → Option Condition → Option ℕ
transition_time status now none = some now
transition_time status now (some c) =
    if c.status == status then c.last_transition_time else some now

abbrev pub email_unique_condition : Verdict → ℕ → List Condition → Condition
email_unique_condition v now conditions = record {
  kind = "EmailUnique";
  status = v.status;
  reason = v.reason;
  message = v.message;
  last_transition_time = transition_time v.status now (find is_email_unique conditions);
}

-- What the mutation does to the conditions as they are by then.
pub set_email_unique : Verdict → ℕ → List Condition → List Condition
set_email_unique v now conditions =
    filter (λ c. not (is_email_unique c)) conditions ++ email_unique_condition v now conditions ∷ []

abbrev was_false : Option Condition → Bool
was_false none = false
was_false (some c) = c.status == "False"

-- One account: nothing to do, a failed write, or a write and whether an Event is created.
pub data Reconciled : Type 0 where
  settled : Reconciled
  write_failed : Reconciled
  written : Bool → Reconciled

-- `updated` says whether mutateUserStatus returns an account.
pub reconcile_account : Bool → List Conflict → List Condition → Reconciled
unfolding verdict is_settled
reconcile_account updated conflicts conditions =
    (let v = verdict conflicts in
      if is_settled v conditions
      then settled
      else if updated
      then written (v.status == "False" && not (was_false (find is_email_unique conditions)))
      else write_failed)

pub record UniquenessReport : Type 0 where
  pub outcomes : List (String × Reconciled)
  pub conflicted_users : ℕ

abbrev pub conflicts_of : Ownership → Account → List Conflict
conflicts_of o a = get_or (lookup a.account_id o.conflicts) []

pub reconcile_each : (String → Bool) → Ownership → List Account → List (String × Reconciled)
unfolding reconcile_account
reconcile_each updated o [] = []
reconcile_each updated o (a ∷ rest) =
    (a.account_id, reconcile_account (updated a.account_id) (conflicts_of o a) a.conditions)
    ∷ reconcile_each updated o rest

abbrev count_conflicted : Ownership → List Account → ℕ
count_conflicted o [] = 0
count_conflicted o (a ∷ rest) =
    let n = count_conflicted o rest in if is_empty (conflicts_of o a) then n else suc n

unfoldable pub reconcile_email_uniqueness :
    EmailText → (String → Bool) → List Account → UniquenessReport
unfolding reconcile_each
reconcile_email_uniqueness t updated accounts =
    (let o = assess_email_ownership t accounts in
      record {
        outcomes = reconcile_each updated o accounts;
        conflicted_users = count_conflicted o accounts;
      })

-- createUser: what the resource of a new user holds.
pub record NewIdentity : Type 0 where
  pub provider_key : Option String
  pub subject : Option String
  pub github_id : Option String

pub record NewUser : Type 0 where
  pub passmower_email : Option String
  pub github_emails : List UpstreamEmail
  pub github_id : Option String
  pub identities : Assoc String  -- the subject of each

abbrev new_identities : Option String → Option String → Assoc String
new_identities (some key) (some subject) =
    if key == "" || subject == "" then [] else (key, subject) ∷ []
new_identities (some key) none = []
new_identities none subject = []

unfoldable pub new_user : Option String → List UpstreamEmail → NewIdentity → NewUser
new_user email github_emails i = record {
  passmower_email = email;
  github_emails = github_emails;
  github_id = i.github_id;
  identities = new_identities i.provider_key i.subject;
}

-- `created` is the account that the API returns, `reconciled` what its status mutation gives.
unfoldable pub create_user : Option Account → (String → Option Account) → Option Account
create_user none reconciled = none
create_user (some a) reconciled = reconciled a.account_id

-- The methods of a passkey give the credentials to write, or an error: of a missing account, or their own.
pub data Change : Type 0 where
  credentials : List Passkey → Change
  account_missing : Change
  already_exists : Change
  not_found : Change

abbrev pub has_passkey : String → List Passkey → Bool
has_passkey id ks = any (λ (k : Passkey). k.id == id) ks

unfoldable pub find_user_by_passkey_id : String → List Account → Option Account
find_user_by_passkey_id id accounts = find (λ (a : Account). has_passkey id a.passkeys) accounts

unfoldable pub add_passkey : Passkey → Option Account → Change
add_passkey k none = account_missing
add_passkey k (some a) =
    if has_passkey k.id a.passkeys then already_exists else credentials (a.passkeys ++ k ∷ [])

abbrev pub without_passkey : String → List Passkey → List Passkey
without_passkey id ks = filter (λ (k : Passkey). not (k.id == id)) ks

unfoldable pub remove_passkey : String → Option Account → Change
remove_passkey id none = account_missing
remove_passkey id (some a) =
    (let kept = without_passkey id a.passkeys in
      if nat_eq (length kept) (length a.passkeys) then not_found else credentials kept)

-- updatedCredentials[credIndex] = {...updatedCredentials[credIndex], …}: the first of that id.
pub update_first : (Passkey → Passkey) → String → List Passkey → List Passkey
update_first f id [] = []
update_first f id (k ∷ ks) =
    let rest = update_first f id ks in if k.id == id then f k ∷ ks else k ∷ rest

abbrev update_passkey : (Passkey → Passkey) → String → Option Account → Change
update_passkey f id none = account_missing
update_passkey f id (some a) =
    if has_passkey id a.passkeys then credentials (update_first f id a.passkeys) else not_found

unfoldable pub rename_passkey : String → String → Option Account → Change
unfolding update_first
rename_passkey id name a = update_passkey (λ (k : Passkey). record k { name = some name }) id a

unfoldable pub update_passkey_counter : String → ℕ → Option Account → Change
unfolding update_first
update_passkey_counter id counter a =
    update_passkey (λ (k : Passkey). record k { counter = counter }) id a
