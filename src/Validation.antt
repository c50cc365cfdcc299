-- ===== src/Validation.antt =====
-- The validation of forms: utils/session/validator.js. A chain has a value of the body and checks, of which
-- an asynchronous one is its answer.
pub mod Accepted
mod Tests
use Prim.Native.Char.{code}
use Prim.Native.String
use passmower.Prelude.{
  ℕ, String, Option, none, some, Bool, true, false, not, List, [], ◌∷◌, ◌++◌, ◌==◌, ◌&&◌, ◌||◌, all,
  is_empty, truthy, get_or, leb, nat_eq, same_text, if◌then◌else◌,
}
use passmower.Account.{Account}
use passmower.Ownership.{Found, ok, error}
use passmower.Username.{Validator, is_not_blacklisted, starts_with_letter}

-- `/^[^<>\x00-\x1f\x7f]*$/.test(value ?? '')`
is_safe_char : ℕ → Bool
is_safe_char c = not (nat_eq c b'<') && not (nat_eq c b'>') && leb 32 c && not (nat_eq c 127)

safe_text : String → Bool
unfolding is_safe_char
safe_text String.[] = true
safe_text (String.◌∷◌ c s) = is_safe_char (code c) && safe_text s

pub is_safe_display_name : Option String → Bool
unfolding safe_text
is_safe_display_name value = safe_text (get_or value "")

pub record Check : Type 0 where
  pub passes : Bool
  pub message : String

pub record Chain : Type 0 where
  pub field : String
  pub value : Option String
  pub skips : Bool
  pub checks : List Check

pub record FieldError : Type 0 where
  pub param : String
  pub msg : String
  pub value : Option String

pub chain_errors : String → Option String → List Check → List FieldError
chain_errors field value [] = []
chain_errors field value (c ∷ cs) =
    (let rest = chain_errors field value cs in
      if c.passes then rest else record { param = field; msg = c.message; value = value } ∷ rest)

unfoldable pub validate : Chain → List FieldError
unfolding chain_errors
validate c = if c.skips then [] else chain_errors c.field c.value c.checks

pub all_errors : List Chain → List FieldError
unfolding validate
all_errors [] = []
all_errors (c ∷ cs) = validate c ++ all_errors cs

-- ctx.validationErrors; none is false. The chains are cleared.
unfoldable pub validation_errors : List Chain → Option (List FieldError) × List Chain
unfolding all_errors
validation_errors cs =
    (let errors = all_errors cs in (if is_empty errors then none else some errors), [])

-- The status and the errors of the response, where there are errors.
unfoldable pub rest_validation_errors : List Chain → Option (ℕ × List FieldError)
unfolding validation_errors
rest_validation_errors cs = elim (validation_errors cs).0 [
  | none ↦ none
  | some errors ↦ some (400, errors)
]

abbrev chain : String → Option String → List Check → Chain
chain field value checks = record { field = field; value = value; skips = false; checks = checks }

abbrev check_of : Bool → String → Check
check_of passes message = record { passes = passes; message = message }

-- optional(): an absent or empty value is not checked.
abbrev optional : Chain → Chain
optional c = if truthy c.value then c else record c { skips = true }

module _ (v : Validator) where
  -- `taken` is whether findAccount finds the name; an empty one is not looked up.
  pub username_exists : (String → Bool) → Option String → Bool
  username_exists taken value = if truthy value then not (taken (get_or value "")) else true

  pub username_not_exists : (String → Bool) → Option String → Bool
  username_not_exists taken value = if truthy value then taken (get_or value "") else true

  -- findByEmail, whose integrity error counts as taken.
  pub email_exists : (String → Found) → Option String → Bool
  email_exists find_by_email value =
      if truthy value
      then elim (find_by_email (get_or value "")) [
        | ok found ↦ elim found [ none ↦ true | some a ↦ false ]
        | error e ↦ false
      ]
      else true

  -- The rules are USERNAME_RULES.
  unfoldable pub check_username : (String → Bool) → Option String → List Chain
  unfolding username_exists
  check_username taken value =
      (let u = get_or value "" in
        chain "username" value
          (check_of (v.is_length 3 15 u) "Username must be 3-15 characters" ∷ [])
        ∷ chain "username" value
            (check_of (v.is_alphanumeric u) "Username must be alphanumeric" ∷ [])
        ∷ chain "username" value (check_of (is_not_blacklisted u) "Prohibited username" ∷ [])
        ∷ chain "username" value
            (check_of (starts_with_letter u) "Username must start with a letter" ∷ [])
        ∷ chain "username" value (check_of (v.is_lowercase u) "Username must be lowercase" ∷ [])
        ∷ chain "username" value (check_of (username_exists taken value) "Username is taken" ∷ [])
        ∷ [])

  unfoldable pub check_email : (String → Bool) → Option String → List Chain
  check_email is_email value =
      chain "email" value (check_of (is_email (get_or value "")) "Incorrect email" ∷ []) ∷ []

  unfoldable pub check_if_email_is_taken : (String → Found) → Option String → List Chain
  unfolding email_exists
  check_if_email_is_taken find_by_email value =
      chain "email" value
        (check_of (email_exists find_by_email value) "Email is already taken" ∷ [])
      ∷ []

  unfoldable pub check_real_name : Option String → List Chain
  unfolding is_safe_display_name
  check_real_name value =
      chain "name" value (
        check_of (is_safe_display_name value) "Name is not valid"
        ∷ check_of (v.is_length 2 50 (get_or value "")) "Name is not valid"
        ∷ [])
      ∷ []

  unfoldable pub check_company_name : Option String → List Chain
  unfolding is_safe_display_name
  check_company_name value =
      optional (
        chain "company" value (
          check_of (is_safe_display_name value) "Company is not valid"
          ∷ check_of (v.is_length 2 50 (get_or value "")) "Company is not valid"
          ∷ []))
      ∷ []

  unfoldable pub check_account_id : (String → Bool) → Option String → List Chain
  unfolding username_not_exists
  check_account_id taken value =
      chain "accountId" value
        (check_of (username_not_exists taken value) "User does not exist" ∷ [])
      ∷ chain "accountId" value
          (check_of (v.is_length 2 15 (get_or value "")) "User must be 2-15 characters" ∷ [])
      ∷ []

-- The message is a text of the deployment.
unfoldable pub check_disable_frontend_edit : Option String → String → List Chain
check_disable_frontend_edit setting message =
    chain "" none (check_of (not (same_text setting (some "true"))) message ∷ []) ∷ []
