-- ===== src/Validation/Accepted.antt =====
-- When a form is accepted.
use passmower.Prelude.{
  String, Option, some, Bool, false, not, List, [], ◌∷◌, ◌++◌, ◌==◌, ◌&&◌, ◌||◌, ◌≡◌, refl, ◌∙◌,
  inl, inr, all, is_empty, is_some, arith, Bool-cases,
}
use passmower.Username.{
  Validator, is_not_blacklisted, starts_with_letter, rules_hold, is_username_valid,
}
use passmower.Validation.{
  Check, Chain, chain_errors, validate, all_errors, validation_errors, rest_validation_errors,
  username_exists, check_username,
}

abbrev pub accepts : Chain → Bool
accepts c = c.skips || all (λ (k : Check). k.passes) c.checks

chain_errors-all :
    (field : String) (value : Option String) (cs : List Check)
    → is_empty (chain_errors field value cs) ≡ all (λ (k : Check). k.passes) cs
unfolding chain_errors
chain_errors-all field value [] = refl
chain_errors-all field value (c ∷ cs) =
    ground (arith, chain_errors-all field value cs, Bool-cases c.passes)

is_empty-append : {A : Type 0} (xs ys : List A) → is_empty (xs ++ ys) ≡ (is_empty xs && is_empty ys)
is_empty-append [] ys = refl
is_empty-append (x ∷ xs) ys = refl

validate-accepts : (c : Chain) → is_empty (validate c) ≡ accepts c
unfolding validate
validate-accepts c = ground (arith, chain_errors-all c.field c.value c.checks, Bool-cases c.skips)

all_errors-accepts : (cs : List Chain) → is_empty (all_errors cs) ≡ all accepts cs
unfolding all_errors
all_errors-accepts [] = refl
all_errors-accepts (c ∷ cs) =
    is_empty-append (validate c) (all_errors cs)
    ∙ ground (arith, validate-accepts c, all_errors-accepts cs)

-- A form is refused, with status 400 and at least one error, exactly if some chain is not skipped and has a
-- check that does not pass.
pub rest_validation_errors-accepts :
    (cs : List Chain) → is_some (rest_validation_errors cs) ≡ not (all accepts cs)
unfolding rest_validation_errors validation_errors
rest_validation_errors-accepts cs = elim (Bool-cases (is_empty (all_errors cs))) [
  | inl e ↦ ground (arith, e, all_errors-accepts cs)
  | inr e ↦ ground (arith, e, all_errors-accepts cs)
]

-- The form accepts a name that is not empty exactly if the enrollment by an upstream name would: if it
-- keeps the rules for usernames and no account has it.
pub check_username-is_username_valid :
    (v : Validator) (taken : String → Bool) (u : String)
    → (u == "") ≡ false
    → is_some (rest_validation_errors (check_username v taken (some u)))
      ≡ not (is_username_valid v (some u) && not (taken u))
unfolding check_username username_exists is_username_valid rules_hold
check_username-is_username_valid v taken u h =
    rest_validation_errors-accepts (check_username v taken (some u))
    ∙ ground (
      arith,
      h,
      Bool-cases (v.is_length 3 15 u),
      Bool-cases (v.is_alphanumeric u),
      Bool-cases (is_not_blacklisted u),
      Bool-cases (starts_with_letter u),
      Bool-cases (v.is_lowercase u),
      Bool-cases (taken u),
    )
