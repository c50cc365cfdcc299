-- ===== src/Claims/Tests.antt =====
-- Runs of claim mappings, and their theorems at concrete mappings.
use passmower.Prelude.{String, some, true, [], ◌∷◌, ◌≡◌, refl, Assoc, lookup}
use passmower.Claims.{
  text, Groups, Rules, Mapping, Mappings, is_reserved, validate_claim_mappings,
  evaluate_claim_mappings,
}
use passmower.Claims.Evaluation.{evaluate_claim_mappings-mapped_claim}

abbrev role : Mapping
role = record {
  rules =
      Rules.listed (
        record { value = some (text "admin"); groups = Groups.listed ("github:admins" ∷ []) } ∷ []);
  default = some (text "viewer");
}

abbrev mappings : Mappings
mappings = ("app_role", role) ∷ []

no_problems : validate_claim_mappings mappings ≡ []
unfolding validate_claim_mappings
no_problems = refl

evaluate_claim_mappings-mapped_claim_example :
    (claims : Assoc String) × (evaluate_claim_mappings mappings ("github:admins" ∷ [])
      ≡ some claims)
    × (lookup "app_role" claims ≡ some "admin")
evaluate_claim_mappings-mapped_claim_example =
    evaluate_claim_mappings-mapped_claim mappings ("github:admins" ∷ []) "app_role" no_problems
      (refl, tt)

-- A mapping of `sub` that reached Redis another way.
abbrev shadowing : Mappings
shadowing = ("sub", role) ∷ mappings

claims_of_shadowing : evaluate_claim_mappings shadowing [] ≡ some (("app_role", "viewer") ∷ [])
unfolding evaluate_claim_mappings
claims_of_shadowing = refl

sub_is_reserved : is_reserved "sub" ≡ true
unfolding is_reserved
sub_is_reserved = refl

abbrev viewer_only : Assoc String
viewer_only = ("app_role", "viewer") ∷ []
