-- ===== src/Middleware.antt =====
-- Forward-auth clients: models/oidc-middleware-client.js and
-- operators/kube-oidc-middleware-client-operator.js. A handler returns what it does, in order. Every status
-- that it writes names its own instance (#replaceClientStatus).
pub mod Honest
mod Tests
use passmower.Prelude.{
  ℕ, String, Option, none, some, Bool, true, false, not, List, [], ◌∷◌, ◌==◌, ◌&&◌, ◌||◌, Assoc,
  values, filter, truthy, same_text, get_or, concat, if◌then◌else◌,
}

-- metadata, spec and status.instance of the resource
pub record Resource : Type 0 where
  pub name : String
  pub namespace : String
  pub groups : Option (List String)
  pub users : Option (List String)
  pub headers : Option (Assoc String)
  pub uri : Option String
  pub display_name : Option String
  pub display_order : Option ℕ
  pub disabled : Option Bool
  pub instance_of : Option String

pub record MiddlewareClient : Type 0 where
  pub client_name : String
  pub client_namespace : String
  pub allowed_groups : List String
  pub allowed_users : List String
  pub header_mapping : Assoc String
  pub client_uri : Option String
  pub client_display_name : Option String
  pub client_order : ℕ
  pub is_disabled : Bool
  pub owner : Option String  -- getInstance()

abbrev is_true : Option Bool → Bool
is_true (some true) = true
is_true _ = false

pub from_incoming_client : Resource → MiddlewareClient
from_incoming_client r = record {
  client_name = r.name;
  client_namespace = r.namespace;
  allowed_groups = get_or r.groups [];
  allowed_users = get_or r.users [];
  header_mapping = get_or r.headers [];
  client_uri = r.uri;
  client_display_name = r.display_name;
  client_order = get_or r.display_order 0;
  is_disabled = is_true r.disabled;
  owner = r.instance_of;
}

abbrev pub get_client_id : MiddlewareClient → String
get_client_id c = concat "middleware-" (concat c.client_namespace (concat "." c.client_name))

-- What toRedis gives; the secret is a random UUID, the description is the activity state's.
pub record RedisClient : Type 0 where
  pub client_id : String
  pub redis_name : String
  pub redis_namespace : String
  pub client_secret : String
  pub grant_types : List String
  pub response_types : List String
  pub redirect_uris : List String
  pub available_scopes : List String
  pub redis_groups : List String
  pub redis_users : List String
  pub redis_headers : Assoc String
  pub redis_uri : Option String
  pub redis_display_name : Option String
  pub redis_order : ℕ
  pub kind : String

pub to_redis : String → String → MiddlewareClient → RedisClient
to_redis uuid redirect_uri c = record {
  client_id = get_client_id c;
  redis_name = c.client_name;
  redis_namespace = c.client_namespace;
  client_secret = uuid;
  grant_types = "implicit" ∷ [];
  response_types = "id_token" ∷ [];
  redirect_uris = redirect_uri ∷ [];
  available_scopes = "openid" ∷ [];
  redis_groups = c.allowed_groups;
  redis_users = c.allowed_users;
  redis_headers = c.header_mapping;
  redis_uri = c.client_uri;
  redis_display_name = c.client_display_name;
  redis_order = c.client_order;
  kind = "OIDCMiddlewareClient";
}

pub record MiddlewareSpec : Type 0 where
  pub address : String
  pub trust_forward_header : Bool
  pub auth_response_headers : List String

abbrev forward_auth_address : String → String → String → String
forward_auth_address deployment namespace id = concat "http://" (
    concat deployment
      (concat "." (concat namespace (concat ".svc.cluster.local/forward-auth?client=" id))))

pub to_middleware_spec : String → String → MiddlewareClient → MiddlewareSpec
to_middleware_spec deployment namespace c = record {
  address = forward_auth_address deployment namespace (get_client_id c);
  trust_forward_header = true;
  auth_response_headers = filter (λ h. not (h == "")) (values c.header_mapping);
}

pub data Effect : Type 0 where
  claims : Effect  -- a status write for the claim
  creates_middleware patches_middleware : MiddlewareSpec → Effect
  upserts : RedisClient → Effect
  destroys : String → Effect
  reports : Bool → String → Effect  -- a status write with Ready and its reason

-- The answers to the calls, and what the process gives: its names, the redirect URI and a random UUID.
pub record Answers : Type 0 where
  pub mine : String
  pub deployment : String
  pub own_namespace : String
  pub redirect_uri : String
  pub uuid : String
  pub claimed : Option MiddlewareClient  -- the resource that the claim's status write returned
  pub middleware_exists : Bool
  pub middleware_ok : Bool
  pub redis_ok : Bool

abbrev failure : String → List Effect
failure reason = reports false reason ∷ []

-- #createOrReplaceClientMiddleware, and what follows unless it throws
pub write_middleware : Answers → MiddlewareClient → List Effect → List Effect
unfolding to_middleware_spec
write_middleware a c next =
    (let spec = to_middleware_spec a.deployment a.own_namespace c in
      (if a.middleware_exists then patches_middleware spec else creates_middleware spec)
      ∷ (if a.middleware_ok then next else failure "MiddlewareReconcileFailed"))

-- A write to Redis and the report that follows it; an error of Redis has no reason of its own.
abbrev write_redis : Answers → Effect → String → List Effect
write_redis a e reason =
    e ∷ (if a.redis_ok then reports true reason ∷ [] else failure "ReconcileFailed")

abbrev upsert_client : Answers → MiddlewareClient → List Effect
upsert_client a c = write_redis a (upserts (to_redis a.uuid a.redirect_uri c)) "Reconciled"

abbrev destroy_client : Answers → MiddlewareClient → List Effect
destroy_client a c = write_redis a (destroys (get_client_id c)) "Disabled"

pub reconcile_create : Answers → MiddlewareClient → List Effect
unfolding write_middleware
reconcile_create a c =
    write_middleware a c (if c.is_disabled then destroy_client a c else upsert_client a c)

pub reconcile_update : Answers → MiddlewareClient → List Effect
unfolding write_middleware
reconcile_update a c =
    if c.is_disabled then destroy_client a c else write_middleware a c (upsert_client a c)

abbrev pub is_own : Answers → MiddlewareClient → Bool
is_own a c = same_text c.owner (some a.mine)

-- The client as this instance works on it: its own, or the one that its claim returned.
abbrev pub own_claim : Answers → Option MiddlewareClient → Option MiddlewareClient
own_claim a none = none
own_claim a (some c) = if is_own a c then some c else none

abbrev after_claim : Option MiddlewareClient → (MiddlewareClient → List Effect) → List Effect
after_claim none next = []
after_claim (some c) next = next c

-- Own, another instance's, or nobody's, which is claimed first.
abbrev claimed_first : Answers → MiddlewareClient → (MiddlewareClient → List Effect) → List Effect
claimed_first a c next =
    if is_own a c
    then next c
    else if truthy c.owner
    then []
    else claims ∷ after_claim (own_claim a a.claimed) next

-- #createOIDCClient
pub create_client : Answers → MiddlewareClient → List Effect
create_client a c = claimed_first a c (reconcile_create a)

-- #updateOIDCClient, with whether a reconcile is due
pub update_client : Bool → Answers → MiddlewareClient → List Effect
update_client due a c = if due then claimed_first a c (reconcile_update a) else []

-- #deleteOIDCClient; an error of Redis is only logged.
pub delete_client : Answers → MiddlewareClient → List Effect
delete_client a c = if is_own a c then destroys (get_client_id c) ∷ [] else []
