-- ===== src/ClientOperator.antt =====
-- The handlers of the watch events of an OIDCClient: operators/kube-oidc-client-operator.js. A
-- handler takes the answers to its calls and returns what it does, in order. Every status that it
-- writes names its own instance (#replaceClientStatus).
pub mod Ownership
pub mod Faults
mod Tests
use passmower.Prelude.{
  ℕ, String, Option, none, some, Bool, true, false, not, List, [], ◌∷◌, ◌++◌, ◌==◌, ◌&&◌, ◌||◌,
  if◌then◌else◌, truthy, same_text, is_empty,
}
use passmower.Claims.{Mappings, Problem, validate_claim_mappings}

pub record Client : Type 0 where
  pub owner : Option String  -- getInstance()
  pub claim_mappings : Mappings
  pub disabled : Bool

pub data Effect : Type 0 where
  claims : Effect  -- a status write for the claim
  reconciles_secret : Bool → Effect  -- with refreshOnlyIfChanged
  upserts destroys : Effect
  reports : Bool → String → Effect  -- a status write with Ready and its reason

-- #reconcileClientSecret: the client_secret of the model, or the reason that it threw.
pub data SecretResult : Type 0 where
  secret_of : Option String → SecretResult
  refused : String → SecretResult

pub record Answers : Type 0 where
  pub claimed : Option Client  -- the resource that the claim's status write returned
  pub ingress : Option String  -- the reason that #resolveIngressRef threw
  pub in_redis : Bool
  pub secret : SecretResult
  pub redis_ok : Bool

abbrev pub has_problems : Client → Bool
has_problems c = not (is_empty (validate_claim_mappings c.claim_mappings))

abbrev pub is_own : String → Client → Bool
is_own mine c = same_text c.owner (some mine)

abbrev failure : String → List Effect
failure reason = reports false reason ∷ []

-- A write to Redis and the report that follows it; an error of Redis has no reason of its own.
pub write_redis : Answers → Effect → String → List Effect
write_redis a e reason =
    e ∷ (if a.redis_ok then reports true reason ∷ [] else failure "ReconcileFailed")

-- The end of #createOIDCClient, with the client_secret that the model has.
pub finish_create : Answers → Client → Option String → List Effect
finish_create a c secret =
    if c.disabled
    then write_redis a destroys "Disabled"
    else if truthy secret
    then write_redis a upserts "Reconciled"
    else reports true "Reconciled" ∷ []

pub create_with_secret : Answers → Client → Bool → List Effect
create_with_secret a c only_if_changed =
    reconciles_secret only_if_changed
    ∷ (elim a.secret [ refused reason ↦ failure reason | secret_of s ↦ finish_create a c s ])

abbrev resolved : Answers → List Effect → List Effect
resolved a next = elim a.ingress [ some reason ↦ failure reason | none ↦ next ]

abbrev pub is_claimed : String → Option Client → Bool
is_claimed mine none = false
is_claimed mine (some c) = is_own mine c

abbrev pub claimed_or : Option Client → Client → Client
claimed_or none c = c
claimed_or (some d) c = d

-- #createOIDCClient; a model that was not given a secret has none.
pub create_client : String → Bool → Answers → Client → List Effect
create_client mine replayed a c =
    if has_problems c
    then failure "InvalidClaimMappings"
    else if is_own mine c
    then resolved a (
        if not replayed || not a.in_redis
        then create_with_secret a c true
        else finish_create a c none)
    else if truthy c.owner
    then []
    else if is_claimed mine a.claimed
    then claims ∷ resolved a (create_with_secret a (claimed_or a.claimed c) false)
    else claims ∷ []

pub reconcile_update : Answers → Client → List Effect
reconcile_update a c =
    if has_problems c
    then failure "InvalidClaimMappings"
    else resolved a (
        if c.disabled
        then write_redis a destroys "Disabled"
        else reconciles_secret false ∷ (elim a.secret [
          | refused reason ↦ failure reason
          | secret_of s ↦ write_redis a upserts "Reconciled"
        ]))

-- #updateOIDCClient, for a client that is due for a reconcile or forced.
pub update_client : String → Bool → Answers → Client → List Effect
update_client mine due a c =
    if not due
    then []
    else if is_own mine c
    then reconcile_update a c
    else if truthy c.owner
    then []
    else if is_claimed mine a.claimed
    then claims ∷ reconcile_update a (claimed_or a.claimed c)
    else claims ∷ []

-- #deleteOIDCClient; an error of Redis is only logged.
pub delete_client : String → Client → List Effect
delete_client mine c = if is_own mine c then destroys ∷ [] else []

-- #replaceClientStatus: the owner that a handler's status writes leave.
pub owner_after : String → List Effect → Option String → Option String
owner_after mine [] o = o
owner_after mine (claims ∷ es) o = owner_after mine es (some mine)
owner_after mine (reports ready reason ∷ es) o = owner_after mine es (some mine)
owner_after mine (reconciles_secret b ∷ es) o = owner_after mine es o
owner_after mine (upserts ∷ es) o = owner_after mine es o
owner_after mine (destroys ∷ es) o = owner_after mine es o
