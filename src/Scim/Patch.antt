-- ===== src/Scim/Patch.antt =====
-- PATCH of a user: patchUser of services/scim-service.js.
use Prim.Native.Char.{code}
use passmower.Prelude.{
  ℕ, String, Option, none, some, Bool, true, false, not, List, [], ◌∷◌, ◌==◌, if◌then◌else◌,
  or_else, truthy, contains, get_or, nat_eq, strip_prefix, is_some,
}
use passmower.Scim.{
  Email, Identity, User, Connection, Result, done, failed, project_groups, is_text,
}

-- The fields of an object that a PATCH without a path sets.
pub record UserFields : Type 0 where
  pub user_name : Option String
  pub display_name : Option String
  pub external_id : Option String
  pub active : Option Bool
  pub emails : Option (List Email)

-- The value of an operation: an array with the e-mails that emailsFrom keeps of it, and anything
-- else with what String(value) prints.
pub data PatchValue : Type 0 where
  flag : Bool → PatchValue
  text : String → PatchValue
  object : UserFields → PatchValue
  listed : String → List Email → PatchValue
  other : String → PatchValue

-- `path` is in lower case, like `op`.
pub record PatchOperation : Type 0 where
  pub op : String
  pub path : Option String
  pub value : PatchValue

abbrev or_old {ℓ} : {A : Type ℓ} → Option A → A → A
or_old none old = old
or_old (some new) old = new

-- #patchableUserValues, assigned to the identity
pub assign_fields : UserFields → Identity → Identity
assign_fields f i = record i {
  user_name = or_old f.user_name i.user_name;
  display_name = or_else f.display_name i.display_name;
  external_id = or_else f.external_id i.external_id;
  active = or_else f.active i.active;
  emails = or_old f.emails i.emails;
}

abbrev string_of : PatchValue → String
string_of (flag true) = "true"
string_of (flag false) = "false"
string_of (text t) = t
string_of (object f) = "[object Object]"
string_of (listed t es) = t
string_of (other t) = t

abbrev emails_of : PatchValue → List Email
emails_of (flag b) = []
emails_of (text t) = []
emails_of (object f) = []
emails_of (listed t es) = es
emails_of (other t) = []

abbrev is_not_false : PatchValue → Bool
is_not_false (flag b) = b
is_not_false (text t) = true
is_not_false (object f) = true
is_not_false (listed t es) = true
is_not_false (other t) = true

-- What is behind the first `]`.
behind_bracket : String → Option String
behind_bracket String.[] = none
behind_bracket (String.◌∷◌ c s) =
    let rest = behind_bracket s in if nat_eq (code c) b']' then some s else rest

-- /^emails\[[^\]]*]\.value$/
unfoldable pub is_email_value_path : String → Bool
unfolding behind_bracket
is_email_value_path p = elim (strip_prefix "emails[" p) [
  | none ↦ false
  | some t ↦ is_text (behind_bracket t) ".value"
]

abbrev set_email : PatchValue → Identity → Result Identity
set_email (text t) i = done (record i { emails = record { email = t; primary = true } ∷ [] })
set_email (flag b) i = failed 400 "invalidPath"
set_email (object f) i = failed 400 "invalidPath"
set_email (listed t es) i = failed 400 "invalidPath"
set_email (other t) i = failed 400 "invalidPath"

abbrev patch_emails : Bool → String → PatchValue → Identity → Result Identity
patch_emails is_remove path v i =
    if is_remove
    then done (record i { emails = [] })
    else if path == "emails"
    then done (record i { emails = emails_of v })
    else if is_email_value_path path
    then set_email v i
    else failed 400 "invalidPath"

pub patch_path : Bool → String → PatchValue → Identity → Result Identity
unfolding is_email_value_path
patch_path is_remove path v i =
    if path == "active"
    then done (record i { active = some (if is_remove then false else is_not_false v) })
    else if path == "username"
    then (if is_remove
        then failed 400 "mutability"
        else done (record i { user_name = string_of v }))
    else if path == "displayname"
    then done (record i { display_name = if is_remove then none else some (string_of v) })
    else if path == "externalid"
    then done (record i { external_id = if is_remove then none else some (string_of v) })
    else if is_some (strip_prefix "emails" path)
    then patch_emails is_remove path v i
    else failed 400 "invalidPath"

abbrev patch_object : PatchValue → Identity → Result Identity
patch_object (object f) i = done (assign_fields f i)
patch_object (listed t es) i = done i  -- an array has none of the fields
patch_object (other t) i = failed 400 "invalidPath"
patch_object (flag b) i = failed 400 "invalidPath"
patch_object (text t) i = failed 400 "invalidPath"

pub apply_operation : PatchOperation → Identity → Result Identity
unfolding patch_path assign_fields
apply_operation o i =
    if not (contains o.op ("add" ∷ "replace" ∷ "remove" ∷ []))
    then failed 400 "invalidSyntax"
    else if truthy o.path
    then patch_path (o.op == "remove") (get_or o.path "") o.value i
    else patch_object o.value i

unfoldable pub apply_operations : List PatchOperation → Identity → Result Identity
unfolding apply_operation
apply_operations [] i = done i
apply_operations (o ∷ os) i = elim (apply_operation o i) [
  | failed s t ↦ failed s t
  | done x ↦ apply_operations os x
]

-- patchUser, of a user that was found; a failed operation leaves the user as it was.
unfoldable pub patch_user : Connection → User → List PatchOperation → ℕ → Result Identity
patch_user c u os now = elim (apply_operations os u.identity) [
  | failed s t ↦ failed s t
  | done i ↦ done (project_groups c (record i { last_modified = now }))
]
