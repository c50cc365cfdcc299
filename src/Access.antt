-- ===== src/Access.antt =====
-- Who may sign in, and to which client: utils/user/{account-type-access, check-account-groups,
-- check-account-access, tos-required}.js, conditions/approved.js, and the offer of
-- utils/session/access-requests.js.
pub mod Approval
pub mod Policy
pub mod Terms
mod Tests
use passmower.Prelude.{
  String, Option, none, some, Bool, true, false, not, List, [], ◌∷◌, ◌==◌, ◌&&◌, ◌||◌, map, any,
  contains, is_empty, truthy, same_text, strip_prefix, concat, js_text, if◌then◌else◌, is_some,
}
use passmower.Settings.{Settings}
use passmower.Account.{
  Account, Group, TosAcceptance, display_name, is_admin, is_approved, set_approved,
  push_custom_group, get_terms_of_service_acceptance,
}

pub data Failure : Type 0 where
  account_missing account_banned account_type_not_login_capable : Failure
  approval_required name_required tos_needed client_access_required : Failure

-- The fields of a client that access depends on; an absent list is empty.
pub record ClientAccess : Type 0 where
  pub allowed_users : List String
  pub allowed_groups : List String

-- `ordinaryLoginTypes` and `impersonationTypes`; null is a type here.
abbrev pub login_type_allowed : Bool → Option String → Bool
login_type_allowed impersonation none = true
login_type_allowed impersonation (some t) = t == "person" || (impersonation && t == "service")

unfoldable pub get_account_type_access_failure : Bool → Option Account → Option Failure
get_account_type_access_failure impersonation none = some account_missing
get_account_type_access_failure impersonation (some a) =
    if same_text a.spec.kind (some "banned")
    then some account_banned
    else if login_type_allowed impersonation a.spec.kind
    then none
    else some account_type_not_login_capable

unfoldable pub can_impersonate_account : Option Account → Bool
unfolding get_account_type_access_failure
can_impersonate_account a = not (is_some (get_account_type_access_failure true a))

-- `Approved.check`
unfoldable pub approved_check : Settings → Account → Bool
unfolding is_approved
approved_check s a =
    if not (truthy s.required_group)
    then true
    else if is_approved a
    then true
    else any
        (λ g.
          same_text (some (display_name g)) s.required_group
          || same_text (some (display_name g)) s.admin_group)
        a.groups

-- The name to grant when REQUIRED_GROUP is a group that Passmower owns.
abbrev pub local_name : Settings → Option String
local_name s =
    if truthy s.group_prefix
    then elim s.required_group [
      | none ↦ none
      | some r ↦ strip_prefix (concat (js_text s.group_prefix) ":") r
    ]
    else none

abbrev grant : Settings → Option String → Account → Account
grant s none a = a
grant s (some name) a = push_custom_group s name a

-- `Approved.add`
unfoldable pub approve : Settings → Account → Account
unfolding push_custom_group set_approved
approve s a = grant s (local_name s) (set_approved a)

unfoldable pub tos_required : Option Account → Option String → Bool
tos_required none none = false
tos_required none (some hash) = true
tos_required (some a) none = false
tos_required (some a) (some hash) =
    if truthy a.spec.kind && not (same_text a.spec.kind (some "person"))
    then false
    else elim (get_terms_of_service_acceptance a) [
      | none ↦ true
      | some t ↦ is_some t.content_hash && not (same_text t.content_hash (some hash))
    ]

unfoldable pub check_account_groups : ClientAccess → Account → Bool
check_account_groups c a =
    if is_empty c.allowed_users && is_empty c.allowed_groups
    then true
    else if contains a.account_id c.allowed_users
    then true
    else any (λ g. contains g (map display_name a.groups)) c.allowed_groups

unfoldable pub get_account_access_failure :
    Settings → ClientAccess → Option Account → Option String → Option Failure
unfolding get_account_type_access_failure
get_account_access_failure s c none document = some account_missing
get_account_access_failure s c (some a) document =
    elim (get_account_type_access_failure false (some a)) [
      | some failure ↦ some failure
      | none ↦
          if not (is_admin s a) && not (approved_check s a)
          then some approval_required
          else if not (truthy a.profile_name)
          then some name_required
          else if tos_required (some a) document
          then some tos_needed
          else if not (check_account_groups c a)
          then some client_access_required
          else none
    ]

unfoldable pub group_requests_enabled : Settings → Bool
group_requests_enabled s = same_text s.group_requests_enabled (some "true")

-- An absent account has no groups.
abbrev groups_of : Option Account → List Group
groups_of none = []
groups_of (some a) = a.groups

abbrev allowed_groups_of : Option ClientAccess → List String
allowed_groups_of none = []
allowed_groups_of (some c) = c.allowed_groups

unfoldable pub can_request_access : Settings → Option Account → Option ClientAccess → Bool
unfolding group_requests_enabled
can_request_access s a c =
    if not (group_requests_enabled s)
    then false
    else if is_empty (allowed_groups_of c)
    then false
    else if not (same_text s.group_requests_require_existing_group (some "false"))
        && is_empty (groups_of a)
    then false
    else true
