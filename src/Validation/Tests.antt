-- ===== src/Validation/Tests.antt =====
-- Runs of the forms.
use passmower.Prelude.{none, some, true, false, [], ◌∷◌, ◌≡◌, refl}
use passmower.Username.{Validator}
use passmower.Validation.{
  is_safe_display_name, check_company_name, check_disable_frontend_edit, rest_validation_errors,
}

abbrev lenient : Validator
lenient = record {
  is_length = λ a b u. true;
  is_alphanumeric = λ u. true;
  is_lowercase = λ u. true;
}

markup : is_safe_display_name (some "a<b") ≡ false
unfolding is_safe_display_name
markup = refl

line_break : is_safe_display_name (some "a\nb") ≡ false
unfolding is_safe_display_name
line_break = refl

no_company : rest_validation_errors (check_company_name lenient none) ≡ none
unfolding rest_validation_errors check_company_name
no_company = refl

edits_disabled :
    rest_validation_errors (check_disable_frontend_edit (some "true") "no")
    ≡ some (400, record { param = ""; msg = "no"; value = none } ∷ [])
unfolding rest_validation_errors check_disable_frontend_edit
edits_disabled = refl
