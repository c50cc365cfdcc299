-- ===== src/Claims.antt =====
-- Claim mappings of a client: utils/claim-mappings.js and utils/protected-claims.js. The resource
-- may hold anything where a text or a list is meant; `other` stands for what is neither.
pub mod FirstMatch
pub mod Evaluation
pub mod Registration
mod Tests
use Prim.Native.Char.{code}
use Prim.Native.String
use passmower.Prelude.{
  ℕ, zero, suc, String, Option, none, some, Bool, true, false, not, List, [], ◌∷◌, ◌++◌, ◌==◌, ◌&&◌,
  ◌||◌, contains, leb, nat_eq, if◌then◌else◌, is_some, Assoc, lookup, insert, keys, filter, any,
  is_empty, concat, remove,
}

pub data Value : Type 0 where
  text : String → Value
  null_value : Value
  other : Value

pub data Groups : Type 0 where
  absent : Groups
  null_groups : Groups
  listed : List String → Groups
  malformed : Groups

pub record Rule : Type 0 where
  pub value : Option Value
  pub groups : Groups

-- Rules that are null count as absent.
pub data Rules : Type 0 where
  absent : Rules
  listed : List Rule → Rules
  malformed : Rules

pub record Mapping : Type 0 where
  pub rules : Rules
  pub default : Option Value

-- Object.entries of the mappings.
abbrev pub Mappings : Type 0
Mappings = List (String × Mapping)

abbrev pub protected_claims : List String
protected_claims =
    "sub" ∷ "iss" ∷ "aud" ∷ "exp" ∷ "iat" ∷ "nbf" ∷ "jti" ∷ "auth_time" ∷ "nonce" ∷ "sid" ∷ "azp"
    ∷ "at_hash" ∷ "c_hash" ∷ "scope" ∷ "client_id" ∷ "email" ∷ "email_verified" ∷ "emails"
    ∷ "groups" ∷ "username" ∷ "name" ∷ []

unfoldable pub reserved_claims : List String
reserved_claims = protected_claims ++ "applications" ∷ "codemowers.io/namespaces" ∷ []

unfoldable pub is_reserved : String → Bool
unfolding reserved_claims
is_reserved claim = contains claim reserved_claims

is_letter : ℕ → Bool
is_letter c = (leb b'a' c && leb c b'z') || (leb b'A' c && leb c b'Z')

is_name_char : ℕ → Bool
unfolding is_letter
is_name_char c =
    is_letter c
    || (leb b'0' c && leb c b'9')
    || nat_eq c b'.'
    || nat_eq c b'_'
    || nat_eq c b':'
    || nat_eq c b'/'
    || nat_eq c b'-'

-- At most `n` characters, each of them one of a name.
is_name_rest : ℕ → String → Bool
unfolding is_name_char
is_name_rest n String.[] = true
is_name_rest zero (String.◌∷◌ c s) = false
is_name_rest (suc n) (String.◌∷◌ c s) = is_name_char (code c) && is_name_rest n s

-- CLAIM_NAME
pub is_claim_name : String → Bool
unfolding is_name_rest
is_claim_name String.[] = false
is_claim_name (String.◌∷◌ c s) = is_letter (code c) && is_name_rest 63 s

pub data Problem : Type 0 where
  reserved_by_passmower invalid_name non_list_rules non_string_default neither : String → Problem
  non_string_value non_list_groups : String → ℕ → Problem

abbrev value_problems : String → ℕ → Option Value → List Problem
value_problems claim i (some (text t)) = []
value_problems claim i (some other) = non_string_value claim i ∷ []
value_problems claim i (some null_value) = non_string_value claim i ∷ []
value_problems claim i none = non_string_value claim i ∷ []

abbrev groups_problems : String → ℕ → Groups → List Problem
groups_problems claim i absent = []
groups_problems claim i (listed gs) = []
groups_problems claim i null_groups = non_list_groups claim i ∷ []
groups_problems claim i malformed = non_list_groups claim i ∷ []

abbrev rules_problems : String → ℕ → List Rule → List Problem
rules_problems claim i [] = []
rules_problems claim i (r ∷ rs) =
    value_problems claim i r.value
    ++ groups_problems claim i r.groups
    ++ rules_problems claim (suc i) rs

abbrev default_problems : String → Option Value → List Problem
default_problems claim none = []
default_problems claim (some (text t)) = []
default_problems claim (some null_value) = non_string_default claim ∷ []
default_problems claim (some other) = non_string_default claim ∷ []

abbrev rules_of : Rules → Option (List Rule)
rules_of absent = some []
rules_of (listed rs) = some rs
rules_of malformed = none

abbrev mapping_problems : String → Mapping → List Problem
mapping_problems claim m = elim (rules_of m.rules) [
  | none ↦ non_list_rules claim ∷ []
  | some rs ↦
      default_problems claim m.default
      ++ rules_problems claim 0 rs
      ++ (if is_empty rs && not (is_some m.default) then neither claim ∷ [] else [])
]

pub claim_problems : String → Mapping → List Problem
unfolding is_reserved is_claim_name
claim_problems claim m =
    if is_reserved claim
    then reserved_by_passmower claim ∷ []
    else if not (is_claim_name claim)
    then invalid_name claim ∷ []
    else mapping_problems claim m

-- validateClaimMappings, for mappings that are an object; absent ones are the empty object.
unfoldable pub validate_claim_mappings : Mappings → List Problem
unfolding claim_problems
validate_claim_mappings [] = []
validate_claim_mappings ((claim, m) ∷ ms) = claim_problems claim m ++ validate_claim_mappings ms

-- The first rule with a group of the account; none where a rule's groups are no list, which throws.
pub find_rule : List String → List Rule → Option (Option Rule)
find_rule groups [] = some none
find_rule groups (r ∷ rs) =
    let rest = find_rule groups rs in
    elim r.groups [
      | absent ↦ rest
      | null_groups ↦ rest
      | listed gs ↦ if any (λ g. contains g groups) gs then some (some r) else rest
      | malformed ↦ none
    ]

abbrev or_default : Option Value → Option Value → Option Value
or_default (some (text t)) d = some (text t)
or_default (some other) d = some other
or_default (some null_value) d = d
or_default none d = d

-- `matched?.value ?? mapping?.default`
abbrev value_for : Option Rule → Option Value → Option Value
value_for none d = d
value_for (some r) d = or_default r.value d

pub mapped_value : List String → Mapping → Option (Option Value)
unfolding find_rule
mapped_value groups m = elim (rules_of m.rules) [
  | none ↦ none
  | some rs ↦ elim (find_rule groups rs) [
    | none ↦ none
    | some matched ↦ some (value_for matched m.default)
  ]
]

abbrev set_if_text : String → Option Value → Assoc String → Assoc String
set_if_text claim (some (text t)) claims = insert claim t claims
set_if_text claim (some other) claims = claims
set_if_text claim (some null_value) claims = claims
set_if_text claim none claims = claims

-- evaluateClaimMappings, from the claims so far; none where it throws.
pub evaluate_from : Assoc String → Mappings → List String → Option (Assoc String)
unfolding is_reserved mapped_value
evaluate_from claims [] groups = some claims
evaluate_from claims ((claim, m) ∷ ms) groups =
    let skipped = evaluate_from claims ms groups in
    elim (mapped_value groups m) [
      | none ↦ if is_reserved claim then skipped else none
      | some v ↦
          let set = evaluate_from (set_if_text claim v claims) ms groups in
          if is_reserved claim then skipped else set
    ]

pub evaluate_claim_mappings : Mappings → List String → Option (Assoc String)
unfolding evaluate_from
evaluate_claim_mappings ms groups = evaluate_from [] ms groups

-- registerMappedClaims: the claims that the provider knows, with the new ones, and the new ones.
pub registered : List String → Mappings → List String
registered supported ms =
    filter (λ c. not (contains c supported)) (filter (λ c. not (is_reserved c)) (keys ms))

pub register_mapped_claims : List String → Mappings → List String
unfolding registered
register_mapped_claims supported ms = supported ++ registered supported ms
