-- ===== src/Scim.antt =====
-- Provisioning of users and group members over SCIM: services/scim-service.js. The users are the
-- accounts that `listUsers` returns: those of this source that are no groups, so each has an
-- identity. Writing an identity replaces it in the list.
pub mod Grants
pub mod Members
pub mod Patch
pub mod Membership
mod Tests
use Prim.Native.Char.{code}
use Prim.Native.String
use passmower.Prelude.{
  ℕ, String, Option, none, some, Bool, true, false, not, List, [], ◌∷◌, ◌++◌, ◌==◌, ◌&&◌, ◌||◌,
  if◌then◌else◌, or_else, truthy, contains, without, dedup, any, all, filter, find, map, get_or,
  is_empty, nat_eq, strip_prefix, is_some, head?,
}
use passmower.Account.{Group}

pub record Email : Type 0 where
  pub email : String
  pub primary : Bool

-- The identity that an account has from this source. A missing list is the empty one.
pub record Identity : Type 0 where
  pub external_id : Option String
  pub user_name : String
  pub display_name : Option String
  pub active : Option Bool
  pub emails : List Email
  pub source_groups : List String
  pub groups : List Group
  pub created_at : ℕ
  pub last_modified : ℕ

pub record User : Type 0 where
  pub account_id : String
  pub identity : Identity

pub record Connection : Type 0 where
  pub grants_all_users : Bool  -- grantMode is 'all-users'
  pub group : Group

-- A ScimError with its status and its scimType.
pub data Result {ℓ} (A : Type ℓ) : Type ℓ where
  done : A → Result A
  failed : ℕ → String → Result A

-- `active !== false`
abbrev pub is_active : Option Bool → Bool
is_active none = true
is_active (some b) = b

-- #projectGroups
pub project_groups : Connection → Identity → Identity
project_groups c i = record i {
  groups =
      if is_active i.active && (c.grants_all_users || not (is_empty i.source_groups))
      then c.group ∷ []
      else [];
}

-- The body of a request, as far as it is read; `emails` are those that emailsFrom keeps.
pub record UserResource : Type 0 where
  pub user_name : Option String
  pub display_name : Option String
  pub formatted_name : Option String
  pub external_id : Option String
  pub active : Option Bool
  pub emails : List Email

-- #userIdentity
pub user_identity : UserResource → String → Option String → List String → ℕ → ℕ → Identity
user_identity r name external source_groups created now =
    let shown = or_else r.display_name r.formatted_name in
    record {
      external_id = external;
      user_name = name;
      display_name = if truthy shown then shown else none;
      active = some (is_active r.active);
      emails = r.emails;
      source_groups = source_groups;
      groups = [];
      created_at = created;
      last_modified = now;
    }

-- `trim` is JavaScript's.
pub checked_name : (String → String) → Option String → Option String
checked_name trim none = none
checked_name trim (some n) = if trim n == "" then none else some n

abbrev pub is_text : Option String → String → Bool
is_text none t = false
is_text (some s) t = s == t

pub is_duplicate : String → String → User → Bool
is_duplicate external name u =
    is_text u.identity.external_id external || u.identity.user_name == name

-- createUser: the identity of the new account, whose name the caller derives from the external id.
pub create_user : (String → String) → Connection → List User → UserResource → ℕ → Result Identity
create_user trim c users r now = elim (checked_name trim r.user_name) [
  | none ↦ failed 400 "invalidValue"
  | some name ↦
      let external = if truthy r.external_id then get_or r.external_id "" else name in
      if any (is_duplicate external name) users
      then failed 409 "uniqueness"
      else done (project_groups c (user_identity r name (some external) [] now now))
]

-- replaceUser, of a user that was found.
pub replace_user : (String → String) → Connection → User → UserResource → ℕ → Result Identity
replace_user trim c u r now = elim (checked_name trim r.user_name) [
  | none ↦ failed 400 "invalidValue"
  | some name ↦
      let external = or_else r.external_id u.identity.external_id in
      done (
        project_groups c
          (user_identity r name external u.identity.source_groups u.identity.created_at now))
]
