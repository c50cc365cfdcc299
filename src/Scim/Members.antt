-- ===== src/Scim/Members.antt =====
-- Who is in a group after its members are replaced.
use passmower.Prelude.{
  ℕ, String, Bool, true, false, List, [], ◌∷◌, ◌==◌, ◌≡◌, refl, ◌∙◌, ap, arith, eq_iff, eq_refl,
  if◌then◌else◌, all, map, contains, filter, contains-without, contains-append,
}
use passmower.Scim.{User, Connection, done, failed, project_groups}
use passmower.Scim.Membership.{set_membership, replace_members, members_of, account_ids, is_user}

set_membership-source_groups :
    (c : Connection) (group : String) (desired : List String) (now : ℕ) (u : User) (g : String)
    → contains g (set_membership c group desired now u).identity.source_groups
      ≡ (if group == g then contains u.account_id desired else contains g u.identity.source_groups)
unfolding set_membership project_groups
set_membership-source_groups c group desired now u g = ground (
  arith,
  eq_iff group g,
  eq_refl group,
  contains-without g group u.identity.source_groups,
  contains-append g u.identity.source_groups (group ∷ []),
)

set_membership-account_id :
    (c : Connection) (group : String) (desired : List String) (now : ℕ) (u : User)
    → (set_membership c group desired now u).account_id ≡ u.account_id
unfolding set_membership
set_membership-account_id c group desired now u = ground arith

members_of-moved :
    (c : Connection) (group : String) (desired : List String) (now : ℕ) (users : List User)
    → members_of group (map (set_membership c group desired now) users)
      ≡ filter (λ id. contains id desired) (account_ids users)
unfolding members_of
members_of-moved c group desired now [] = refl
members_of-moved c group desired now (u ∷ users) = ground (
  arith,
  eq_refl group,
  set_membership-source_groups c group desired now u group,
  set_membership-account_id c group desired now u,
  members_of-moved c group desired now users,
)

members_of-others :
    (c : Connection) (group : String) (desired : List String) (now : ℕ) (users : List User)
    (g : String)
    → (group == g) ≡ false
    → members_of g (map (set_membership c group desired now) users) ≡ members_of g users
unfolding members_of
members_of-others c group desired now [] g h = refl
members_of-others c group desired now (u ∷ users) g h = ground (
  arith,
  h,
  set_membership-source_groups c group desired now u g,
  set_membership-account_id c group desired now u,
  members_of-others c group desired now users g h,
)

accepted :
    (b : Bool) (x after : List User)
    → (if b then done x else failed 400 "invalidValue") ≡ done after
    → after ≡ x
accepted true x after h = ground arith
accepted false x after h = cc

-- Where the members of a group are replaced, the group has afterwards exactly the users that are
-- asked for, and every other group has the members it had.
pub replace_members-members_of :
    (c : Connection) (group : String) (members : List String) (now : ℕ) (users after : List User)
    (g : String)
    → replace_members c group members now users ≡ done after
    → (group == g) ≡ false
    → (members_of group after ≡ filter (λ id. contains id members) (account_ids users))
      × (members_of g after ≡ members_of g users)
unfolding replace_members
replace_members-members_of c group members now users after g e h =
    let moved =
      accepted (all (is_user users) members) (map (set_membership c group members now) users) after
        e in
    (
      ap (members_of group) moved ∙ members_of-moved c group members now users,
      ap (members_of g) moved ∙ members_of-others c group members now users g h,
    )
