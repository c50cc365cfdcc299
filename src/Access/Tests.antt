-- ===== src/Access/Tests.antt =====
-- Runs of the access rules, and the theorems at concrete accounts.
use passmower.Prelude.{none, some, ◌≡◌, refl, false, [], ◌∷◌, ◌↔◌}
use passmower.Fixtures.{settings, alice}
use passmower.Access.{
  ClientAccess, approved_check, approve, get_account_access_failure, tos_required,
  check_account_groups,
}
use passmower.Access.Policy.{MaySignIn, get_account_access_failure-MaySignIn}

abbrev wiki : ClientAccess
wiki = record { allowed_users = []; allowed_groups = "github:staff" ∷ [] }

not_approved : approved_check settings alice ≡ false
unfolding approved_check
not_approved = refl

get_account_access_failure-MaySignIn_example :
    (get_account_access_failure settings wiki (some (approve settings alice)) none ≡ none)
    ↔ MaySignIn settings wiki (approve settings alice) none
get_account_access_failure-MaySignIn_example =
    get_account_access_failure-MaySignIn settings wiki (approve settings alice) none

alice_may_use_wiki :
    get_account_access_failure settings wiki (some (approve settings alice)) none ≡ none
unfolding get_account_access_failure approved_check approve tos_required check_account_groups
alice_may_use_wiki = refl
