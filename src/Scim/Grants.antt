-- ===== src/Scim/Grants.antt =====
-- The Passmower group that provisioning grants: whoever is active and, where the connection does
-- not grant all users, in a group of the source.
use passmower.Prelude.{
  ℕ, String, Option, none, some, Bool, true, false, not, List, [], ◌∷◌, ◌&&◌, ◌||◌, ◌≡◌, refl,
  arith, is_empty, if◌then◌else◌, any, truthy, get_or,
}
use mathlib.Core.Path.{subst}
use passmower.Scim.{
  Identity, User, Connection, Result, done, failed, is_active, project_groups, UserResource,
  user_identity, create_user, replace_user, checked_name, is_duplicate,
}
use passmower.Scim.Patch.{PatchOperation, patch_user, apply_operations}
use passmower.Scim.Membership.{set_membership}

-- Exactly the group of the connection where it is deserved, and none otherwise.
abbrev pub IsProjected : Connection → Identity → Type 0
IsProjected c i = i.groups ≡ (
    if is_active i.active && (c.grants_all_users || not (is_empty i.source_groups))
    then c.group ∷ []
    else [])

-- A request that changes one user.
pub data Change : Type 0 where
  creates : List User → UserResource → Change
  replaces : User → UserResource → Change
  patches : User → List PatchOperation → Change
  moves : String → List String → User → Change

abbrev pub change : (String → String) → Connection → ℕ → Change → Result Identity
change trim c now (creates users r) = create_user trim c users r now
change trim c now (replaces u r) = replace_user trim c u r now
change trim c now (patches u os) = patch_user c u os now
change trim c now (moves group desired u) = done (set_membership c group desired now u).identity

-- The identity that a change works on.
abbrev pub IsProjectedBefore : Connection → Change → Type 0
IsProjectedBefore c (creates users r) = Unit
IsProjectedBefore c (replaces u r) = IsProjected c u.identity
IsProjectedBefore c (patches u os) = IsProjected c u.identity
IsProjectedBefore c (moves group desired u) = IsProjected c u.identity

project_groups-IsProjected : (c : Connection) (i : Identity) → IsProjected c (project_groups c i)
unfolding project_groups
project_groups-IsProjected c i = refl

abbrev IsProjectedResult : Connection → Result Identity → Type 0
IsProjectedResult c (failed s t) = Unit
IsProjectedResult c (done i) = IsProjected c i

named-IsProjected :
    (c : Connection) (n : Option String) (f : String → Result Identity)
    → ((name : String) → IsProjectedResult c (f name))
    → IsProjectedResult c (elim n [ none ↦ failed 400 "invalidValue" | some name ↦ f name ])
named-IsProjected c none f h = tt
named-IsProjected c (some name) f h = h name

refused-IsProjected :
    (c : Connection) (b : Bool) (s : ℕ) (t : String) (x : Result Identity)
    → IsProjectedResult c x
    → IsProjectedResult c (if b then failed s t else x)
refused-IsProjected c true s t x h = tt
refused-IsProjected c false s t x h = h

create_user-IsProjected :
    (trim : String → String) (c : Connection) (users : List User) (r : UserResource) (now : ℕ)
    → IsProjectedResult c (create_user trim c users r now)
unfolding create_user
create_user-IsProjected trim c users r now =
    named-IsProjected c (checked_name trim r.user_name) _ (λ name.
      let external = if truthy r.external_id then get_or r.external_id "" else name in
      let identity = user_identity r name (some external) [] now now in
      refused-IsProjected c (any (is_duplicate external name) users) 409 "uniqueness"
        (done (project_groups c identity)) (project_groups-IsProjected c identity))

replace_user-IsProjected :
    (trim : String → String) (c : Connection) (u : User) (r : UserResource) (now : ℕ)
    → IsProjectedResult c (replace_user trim c u r now)
unfolding replace_user
replace_user-IsProjected trim c u r now =
    named-IsProjected c (checked_name trim r.user_name) _ (λ name. project_groups-IsProjected c _)

patched-IsProjected :
    (c : Connection) (x : Result Identity) (now : ℕ)
    → IsProjectedResult c (elim x [
      | failed s t ↦ failed s t
      | done i ↦ done (project_groups c (record i { last_modified = now }))
    ])
patched-IsProjected c (failed s t) now = tt
patched-IsProjected c (done i) now = project_groups-IsProjected c _

patch_user-IsProjected :
    (c : Connection) (u : User) (os : List PatchOperation) (now : ℕ)
    → IsProjectedResult c (patch_user c u os now)
unfolding patch_user
patch_user-IsProjected c u os now = patched-IsProjected c (apply_operations os u.identity) now

set_membership-IsProjected :
    (c : Connection) (group : String) (desired : List String) (now : ℕ) (u : User)
    → IsProjected c u.identity
    → IsProjected c (set_membership c group desired now u).identity
unfolding set_membership project_groups
set_membership-IsProjected c group desired now u h = ground (arith, h)

done-IsProjected :
    (c : Connection) (x : Result Identity) (i : Identity)
    → IsProjectedResult c x
    → x ≡ done i
    → IsProjected c i
done-IsProjected c (failed s t) i p e = cc
done-IsProjected c (done y) i p e = subst (λ x. IsProjectedResult c x) e p

-- After a request that created, replaced or patched a user or set its membership of a group, the
-- user has the group of the connection exactly if it is active and, where the connection does not
-- grant all users, in a group of the source, provided that this was so before.
pub change-IsProjected :
    (trim : String → String) (c : Connection) (now : ℕ) (x : Change) (i : Identity)
    → IsProjectedBefore c x
    → change trim c now x ≡ done i
    → IsProjected c i
change-IsProjected trim c now (creates users r) i h e =
    done-IsProjected c _ i (create_user-IsProjected trim c users r now) e
change-IsProjected trim c now (replaces u r) i h e =
    done-IsProjected c _ i (replace_user-IsProjected trim c u r now) e
change-IsProjected trim c now (patches u os) i h e =
    done-IsProjected c _ i (patch_user-IsProjected c u os now) e
change-IsProjected trim c now (moves group desired u) i h e =
    done-IsProjected c _ i (set_membership-IsProjected c group desired now u h) e
