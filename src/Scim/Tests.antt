-- ===== src/Scim/Tests.antt =====
-- Provisioning runs, and the theorems at concrete users.
use passmower.Prelude.{String, none, some, true, false, List, [], ◌∷◌, ◌≡◌, refl}
use passmower.Account.{Group}
use passmower.Fixtures.{staff}
use passmower.Scim.{Identity, User, Connection, done, project_groups}
use passmower.Scim.Patch.{PatchOperation, flag, patch_user, apply_operations, is_email_value_path}
use passmower.Scim.Membership.{replace_members, set_membership}
use passmower.Scim.Grants.{patches, change, IsProjected, change-IsProjected}

abbrev by_group : Connection
by_group = record { grants_all_users = false; group = staff }

abbrev identity_in : List String → List Group → Identity
identity_in source granted = record {
  external_id = some "x";
  user_name = "u";
  display_name = none;
  active = some true;
  emails = [];
  source_groups = source;
  groups = granted;
  created_at = 1;
  last_modified = 1;
}

abbrev member : User
member = record { account_id = "scim-u-1"; identity = identity_in ("scim-g-1" ∷ []) (staff ∷ []) }

abbrev outsider : User
outsider = record { account_id = "scim-u-2"; identity = identity_in [] [] }

abbrev deactivate : List PatchOperation
deactivate = record { op = "replace"; path = some "active"; value = flag false } ∷ []

abbrev deactivated : Identity
deactivated = record (identity_in ("scim-g-1" ∷ []) []) { active = some false; last_modified = 9 }

deactivation : change (λ t. t) by_group 9 (patches member deactivate) ≡ done deactivated
unfolding patch_user apply_operations project_groups
deactivation = refl

change-IsProjected_example : IsProjected by_group deactivated
change-IsProjected_example =
    change-IsProjected (λ t. t) by_group 9 (patches member deactivate) deactivated refl deactivation

abbrev swapped : List User
swapped =
    record { account_id = "scim-u-1"; identity = record (identity_in [] []) { last_modified = 9 } }
    ∷ record {
      account_id = "scim-u-2";
      identity = record (identity_in ("scim-g-1" ∷ []) (staff ∷ [])) { last_modified = 9 };
    }
    ∷ []

swap :
    replace_members by_group "scim-g-1" ("scim-u-2" ∷ []) 9 (member ∷ outsider ∷ []) ≡ done swapped
unfolding replace_members set_membership project_groups
swap = refl

entra_path : is_email_value_path "emails[type eq \"work\"].value" ≡ true
unfolding is_email_value_path
entra_path = refl
