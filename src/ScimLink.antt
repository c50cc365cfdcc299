-- ===== src/ScimLink.antt =====
-- SCIM subjects and the accounts that they are linked to: services/scim-link-service.js,
-- services/scim-directory-service.js and their models. The cluster is a list of subjects; what is
-- written into the accounts is a log of projections, the latest first.
pub mod Links
pub mod Revocation
mod Tests
use passmower.Prelude.{
  String, Option, none, some, Bool, true, false, not, List, [], ◌∷◌, ◌++◌, ◌==◌, ◌&&◌, ◌||◌, Assoc,
  lookup, filter, find, map, contains, is_empty, is_some, same_text, get_or, if◌then◌else◌,
}
use passmower.Account.{Group}
use passmower.Scim.{Identity, is_active}

-- ScimDirectoryResource.
pub record Resource : Type 0 where
  pub account_id : String
  pub is_group : Bool
  pub connection_uid : String
  pub identity : Identity
  pub linked_account_id : Option String

pub record LinkRule : Type 0 where
  pub provider : String
  pub tenant_claim : String
  pub tenant_value : String
  pub subject_claim : String

pub record Connection : Type 0 where
  pub id : String
  pub uid : String
  pub source_key : String
  pub disabled : Bool
  pub linking : Option LinkRule

-- getIdentity
unfoldable pub get_identity : Connection → String → Resource → Option Identity
get_identity c source_key r =
    if source_key == c.source_key && r.connection_uid == c.uid then some r.identity else none

-- #list: what the API lists is none where the call failed.
unfoldable pub list_resources : Connection → Option (List Resource) → List Resource
list_resources c listed = filter (λ (r : Resource). r.connection_uid == c.uid) (get_or listed [])

unfoldable pub list_users :
    Connection → Option (List Resource) → Option (List Resource) → List Resource
unfolding list_resources
list_users c subjects groups = list_resources c subjects ++ list_resources c groups

-- findUser: the subject of that name, or else the group, if it belongs to the connection.
abbrev owned : Connection → Option Resource → Option Resource
owned c none = none
owned c (some r) = if r.connection_uid == c.uid then some r else none

abbrev first_owned : Option Resource → Option Resource → Option Resource
first_owned (some r) other = some r
first_owned none other = other

unfoldable pub find_user : Connection → Option Resource → Option Resource → Option Resource
find_user c subject group = first_owned (owned c subject) (owned c group)

pub data LinkError : Type 0 where
  already_linked missing_identity link_failed not_found update_failed group_cannot_link : LinkError
  account_not_found : LinkError

-- What a call gives, or the error that it throws.
pub data Result {ℓ} (A : Type ℓ) : Type ℓ where
  ok : A → Result A
  threw : LinkError → Result A

-- createProvisionedUser: the resource to create. `is_group` is the type of the body.
unfoldable pub create_provisioned_user :
    Connection → String → Bool → Option Identity → Result Resource
create_provisioned_user c id is_group none = threw missing_identity
create_provisioned_user c id is_group (some i) = ok (record {
  account_id = id;
  is_group = is_group;
  connection_uid = c.uid;
  identity = i;
  linked_account_id = none;
})

-- updateUserSpecs: the identity is replaced as a whole. `updated` is what the patch gives.
unfoldable pub update_user_specs :
    Option Resource → Option Identity → (Resource → Option Resource) → Result Resource
update_user_specs none identity patch = threw not_found
update_user_specs (some r) none patch = threw missing_identity
update_user_specs (some r) (some i) patch = elim (patch (record r { identity = i })) [
  | none ↦ threw update_failed
  | some updated ↦ ok updated
]

-- An identity in an account, as projected from a subject.
pub record Projection : Type 0 where
  pub account_id : String
  pub source_key : String
  pub sub : Option String
  pub active : Bool
  pub groups : List Group

pub record Cluster : Type 0 where
  pub subjects : List Resource
  pub projections : List Projection

-- The calls of the API: whether a status write and an account update succeed, and whether an account exists.
pub record Api : Type 0 where
  pub writes_status : String → Bool
  pub updates : String → Bool
  pub has_account : String → Bool

abbrev pub set_link : String → String → List Resource → List Resource
set_link id account_id rs =
    map
      (λ (r : Resource).
        if r.account_id == id then record r { linked_account_id = some account_id } else r)
      rs

abbrev pub revoked : Connection → Resource → String → Projection
revoked c r account_id = record {
  account_id = account_id;
  source_key = c.source_key;
  sub = r.identity.external_id;
  active = false;
  groups = [];
}

module _ (api : Api) where
  -- linkSubject: the resource version makes the write fail if the subject has changed.
  pub link_subject : Resource → String → Cluster → Result Resource × Cluster
  link_subject r account_id s =
      if r.is_group
      then (threw group_cannot_link, s)
      else if api.writes_status r.account_id
      then (
        ok (record r { linked_account_id = some account_id }),
        record s { subjects = set_link r.account_id account_id s.subjects },
      )
      else (threw link_failed, s)

  -- project, for a subject that is linked to `account_id`.
  pub project_to : Connection → Resource → String → Cluster → Result Resource × Cluster
  project_to c r account_id s =
      if not (api.has_account account_id)
      then (threw account_not_found, s)
      else if api.updates account_id
      then (
        ok r,
        record s {
          projections =
              record {
                account_id = account_id;
                source_key = c.source_key;
                sub = r.identity.external_id;
                active = is_active r.identity.active;
                groups = r.identity.groups;
              }
              ∷ s.projections;
        },
      )
      else (threw update_failed, s)

  pub project : Connection → Resource → Cluster → Result Resource × Cluster
  unfolding project_to
  project c r s = elim r.linked_account_id [
    | none ↦ (ok r, s)
    | some account_id ↦ project_to c r account_id s
  ]

  abbrev pub after_link : Connection → Result Resource × Cluster → Result Resource × Cluster
  after_link c (threw e, s) = (threw e, s)
  after_link c (ok r, s) = project c r s

  -- A subject that was found by its external id.
  pub link_found : Connection → String → Resource → Cluster → Result Resource × Cluster
  unfolding link_subject project
  link_found c account_id r s = elim r.linked_account_id [
    | none ↦ after_link c (link_subject r account_id s)
    | some other ↦ if other == account_id then project c r s else (threw already_linked, s)
  ]

  abbrev claim : String → Assoc String → String
  claim name claims = get_or (lookup name claims) ""

  -- The external id that a connection is asked for, if its rule applies.
  unfoldable pub external_id_for : Connection → String → Assoc String → Option String
  external_id_for c provider claims = elim c.linking [
    | none ↦ none
    | some rule ↦
        if not (rule.provider == provider)
        then none
        else if not (claim rule.tenant_claim claims == rule.tenant_value)
        then none
        else (let id = claim rule.subject_claim claims in if id == "" then none else some id)
  ]

  abbrev pub subject_of : Connection → String → Cluster → Option Resource
  subject_of c external_id s =
      find (λ (r : Resource). same_text r.identity.external_id (some external_id))
        (list_resources c (some s.subjects))

  -- The subject to link for one connection, if there is one.
  unfoldable pub target_for : Connection → String → Assoc String → Cluster → Option Resource
  unfolding external_id_for list_resources
  target_for c provider claims s = elim (external_id_for c provider claims) [
    | none ↦ none
    | some external_id ↦ subject_of c external_id s
  ]

  abbrev pub listed_with : String → Result (List String) × Cluster → Result (List String) × Cluster
  listed_with id (threw e, s) = (threw e, s)
  listed_with id (ok ids, s) = (ok (id ∷ ids), s)

  -- A step that threw ends the loop; what was written stays.
  abbrev pub joined :
      Result Resource → Cluster → Result (List String) × Cluster → Result (List String) × Cluster
  joined (threw e) s rest = (threw e, s)
  joined (ok done) s rest = listed_with done.account_id rest

  pub link_each :
      String → String → Assoc String → List Connection → Cluster → Result (List String) × Cluster
  unfolding target_for link_found
  link_each provider account_id claims [] s = (ok [], s)
  link_each provider account_id claims (c ∷ cs) s = elim (target_for c provider claims s) [
    | none ↦ link_each provider account_id claims cs s
    | some r ↦
        let step = link_found c account_id r s in
        let rest = link_each provider account_id claims cs step.1 in joined step.0 step.1 rest
  ]

  -- linkAccount, over the connections that are not disabled.
  unfoldable pub link_account :
      String → String → Assoc String → List Connection → Cluster → Result (List String) × Cluster
  unfolding link_each
  link_account provider account_id claims connections s =
      if is_empty claims
      then (ok [], s)
      else link_each provider account_id claims
          (filter (λ (c : Connection). not c.disabled) connections) s

  pub revoke_each : Connection → List Resource → Cluster → Result Bool × Cluster
  revoke_each c [] s = (ok true, s)
  revoke_each c (r ∷ rs) s = elim r.linked_account_id [
    | none ↦ revoke_each c rs s
    | some account_id ↦
        let next =
          revoke_each c rs (record s { projections = revoked c r account_id ∷ s.projections }) in
        let skipped = revoke_each c rs s in
        if not (api.has_account account_id)
        then skipped
        else if api.updates account_id
        then next
        else (threw update_failed, s)
  ]

  -- revokeConnection; `listed` is whether the list of the subjects succeeds.
  unfoldable pub revoke_connection : Connection → Bool → Cluster → Result Bool × Cluster
  unfolding revoke_each list_resources
  revoke_connection c listed s =
      revoke_each c (list_resources c (if listed then some s.subjects else none)) s
