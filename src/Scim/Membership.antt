-- ===== src/Scim/Membership.antt =====
-- The members of a group: #replaceMembers, #addMembers, #removeMembers and #members of
-- services/scim-service.js.
use passmower.Prelude.{
  ℕ, String, Bool, not, List, [], ◌∷◌, ◌++◌, ◌==◌, ◌&&◌, if◌then◌else◌, contains, without, dedup,
  any, all, filter, map,
}
use passmower.Scim.{User, Connection, Result, done, failed, project_groups}

-- One user of #replaceMembers.
unfoldable pub set_membership : Connection → String → List String → ℕ → User → User
set_membership c group desired now u =
    let i = u.identity in
    let has = contains group i.source_groups in
    let wants = contains u.account_id desired in
    if wants && not has
    then record u {
      identity =
          record (project_groups c (record i { source_groups = i.source_groups ++ group ∷ [] })) {
            last_modified = now;
          };
    }
    else if not wants && has
    then record u {
      identity =
          record (project_groups c (record i { source_groups = without group i.source_groups })) {
            last_modified = now;
          };
    }
    else u

abbrev pub is_user : List User → String → Bool
is_user users id = any (λ (u : User). u.account_id == id) users

-- #replaceMembers: the users afterwards.
unfoldable pub replace_members :
    Connection → String → List String → ℕ → List User → Result (List User)
replace_members c group members now users =
    if all (is_user users) members
    then done (map (set_membership c group members now) users)
    else failed 400 "invalidValue"

abbrev pub account_ids : List User → List String
account_ids us = map (λ (u : User). u.account_id) us

-- #members
unfoldable pub members_of : String → List User → List String
members_of group users =
    account_ids (filter (λ (u : User). contains group u.identity.source_groups) users)

pub add_members : Connection → String → List String → ℕ → List User → Result (List User)
add_members c group members now users =
    replace_members c group (dedup (members_of group users ++ members)) now users

pub remove_members : Connection → String → List String → ℕ → List User → Result (List User)
remove_members c group ids now users =
    replace_members c group (filter (λ id. not (contains id ids)) (members_of group users)) now
      users
