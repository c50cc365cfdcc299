-- ===== src/Discovery.antt =====
-- Clients from Ingress annotations: utils/kubernetes/{ingress-oidc-client, resolve-ingress-ref}.js and
-- operators/kube-ingress-discovery-operator.js. A reconcile returns what it does, in order.
pub mod Authority
pub mod Overlay
pub mod Convergence
mod Tests
use Prim.Native.String
use passmower.Prelude.{
  ℕ, String, Option, none, some, Bool, true, false, not, List, [], ◌∷◌, ◌++◌, ◌==◌, ◌&&◌, ◌||◌,
  Assoc, lookup, insert, any, filter, filter_map, map, is_empty, is_some, head?, truthy, same_text,
  get_or, concat, strip_prefix, until, after, contains, if◌then◌else◌,
}

pub record Ingress : Type 0 where
  pub namespace : Option String
  pub name : Option String
  pub annotations : Assoc String
  pub rule_hosts : List (Option String)  -- the host of each of spec.rules

-- The value of a field of a client's spec; what discovery does not write is opaque.
pub data Field : Type 0 where
  text : String → Field
  texts : List String → Field
  opaque : String → Field

abbrev pub ClientSpec : Type 0
ClientSpec = Assoc Field

pub record ExistingClient : Type 0 where
  pub client_name : String
  pub labels : Assoc String
  pub spec : ClientSpec
  pub ingress_ref : Option String

-- `trim`, and `new URL(path, origin).href`, none where it throws.
pub record Web : Type 0 where
  pub trim : String → String
  pub href : String → String → Option String

abbrev pub annotation : String → String
annotation suffix = concat "codemowers.io/oidc-" suffix

-- `text.split(',')`
pub split_commas : String → List String
split_commas String.[] = "" ∷ []
split_commas (String.◌∷◌ c s) =
    (let rest = split_commas s in
      if String.◌∷◌ c String.[] == ","
      then "" ∷ rest
      else elim rest [ [] ↦ [] | part ∷ parts ↦ String.◌∷◌ c part ∷ parts ])

pub list_of : Web → Option String → List String
unfolding split_commas
list_of w value = filter (λ v. not (v == "")) (map w.trim (split_commas (get_or value "")))

abbrev pub annotated : Web → String → Ingress → List String
annotated w suffix i = list_of w (lookup (annotation suffix) i.annotations)

pub requests_discovery : Ingress → Bool
requests_discovery i = any (λ p. is_some (strip_prefix "codemowers.io/oidc-" p.0)) i.annotations

abbrev pub non_empty_host : Option String → Option String
non_empty_host host = if truthy host then host else none

pub hosts_of : Ingress → List String
hosts_of i = filter_map non_empty_host i.rule_hosts

pub data Problem : Type 0 where
  no_host several_hosts redirect_path_required : Problem

abbrev host_problems : List String → List Problem
host_problems [] = no_host ∷ []
host_problems (h ∷ []) = []
host_problems (h ∷ k ∷ hosts) = several_hosts ∷ []

pub discovery_problems : Web → Ingress → List Problem
unfolding hosts_of list_of
discovery_problems w i =
    host_problems (hosts_of i)
    ++ (if is_empty (annotated w "redirect-path" i) then redirect_path_required ∷ [] else [])

abbrev pub all_hrefs : Web → String → List String → Option (List String)
all_hrefs w origin [] = some []
all_hrefs w origin (p ∷ ps) =
    (let rest = all_hrefs w origin ps in
      elim (w.href p origin) [
        | none ↦ none
        | some h ↦ elim rest [ none ↦ none | some hs ↦ some (h ∷ hs) ]
      ])

abbrev pub or_default : List String → String → List String
or_default values default = if is_empty values then default ∷ [] else values

abbrev pub origin_of : Ingress → String
origin_of i = concat "https://" (get_or (head? (hosts_of i)) "undefined")

abbrev pub optional_list : String → List String → ClientSpec
optional_list key values = if is_empty values then [] else (key, texts values) ∷ []

abbrev pub described_fields : Web → Ingress → List String → ClientSpec
described_fields w i uris =
    (
      "displayName",
      text (get_or (lookup (annotation "display-name") i.annotations) (get_or i.name "")),
    )
    ∷ ("uri", text (concat (origin_of i) "/"))
    ∷ ("redirectUris", texts uris)
    ∷ ("grantTypes", texts (or_default (annotated w "grant-types" i) "authorization_code"))
    ∷ ("responseTypes", texts (or_default (annotated w "response-types" i) "code"))
    ∷ ("availableScopes", texts (or_default (annotated w "available-scopes" i) "openid"))
    ∷ (optional_list "allowedGroups" (annotated w "allowed-groups" i)
        ++ optional_list "allowedUsers" (annotated w "allowed-users" i))

-- oidcClientSpecFor; none where a redirect path makes new URL throw.
pub oidc_client_spec_for : Web → Ingress → Option ClientSpec
unfolding list_of hosts_of
oidc_client_spec_for w i = elim (all_hrefs w (origin_of i) (annotated w "redirect-path" i)) [
  | none ↦ none
  | some uris ↦ some (described_fields w i uris)
]

abbrev pub discovered_from_label : String
discovered_from_label = "codemowers.cloud/discovered-from"

pub discovered_client_labels : Ingress → Assoc String
discovered_client_labels i =
    ("app.kubernetes.io/managed-by", "passmower")
    ∷ (discovered_from_label, concat "Ingress." (get_or i.name ""))
    ∷ []

pub is_discovered_from : ExistingClient → Ingress → Bool
is_discovered_from c i =
    same_text (lookup discovered_from_label c.labels) (some (concat "Ingress." (get_or i.name "")))

-- resolveIngressRef
pub data Resolution : Type 0 where
  absent no_hosts many_hosts no_paths threw : Resolution
  resolved : String → List String → Resolution

abbrev resolved_on : Web → String → List String → Resolution
resolved_on w host paths =
    if is_empty paths then no_paths else elim (all_hrefs w (concat "https://" host) paths) [
      | none ↦ threw
      | some uris ↦ resolved (concat "https://" (concat host "/")) uris
    ]

abbrev resolve_host : Web → List String → List String → Resolution
resolve_host w [] paths = no_hosts
resolve_host w (h ∷ []) paths = resolved_on w h paths
resolve_host w (h ∷ k ∷ hosts) paths = many_hosts

pub resolve_ingress_ref : Web → Option Ingress → List String → Resolution
unfolding hosts_of
resolve_ingress_ref w none paths = absent
resolve_ingress_ref w (some i) paths = resolve_host w (hosts_of i) paths

-- {...spec, ...more}
abbrev pub overlay : ClientSpec → ClientSpec → ClientSpec
overlay spec [] = spec
overlay spec ((k, v) ∷ more) = overlay (insert k v spec) more

pub same_texts : List String → List String → Bool
same_texts [] [] = true
same_texts (x ∷ xs) (y ∷ ys) = x == y && same_texts xs ys
same_texts _ _ = false

pub same_field : Field → Field → Bool
unfolding same_texts
same_field (text x) (text y) = x == y
same_field (texts xs) (texts ys) = same_texts xs ys
same_field (opaque x) (opaque y) = x == y
same_field _ _ = false

-- The two texts that JSON.stringify gives are equal.
pub same_spec : ClientSpec → ClientSpec → Bool
unfolding same_field
same_spec [] [] = true
same_spec ((k, v) ∷ xs) ((j, w) ∷ ys) = k == j && same_field v w && same_spec xs ys
same_spec _ _ = false

pub data Effect : Type 0 where
  reconciles : String → Effect  -- reconcileClientByName
  deletes : Effect
  creates : ClientSpec → Assoc String → Effect
  patches : ClientSpec → Effect
  event : String → Effect  -- with its reason

-- What the adapter answers, which logs a failed call and answers nothing: the client of the Ingress' name,
-- the clients of its namespace, and whether a write succeeds.
pub record Answers : Type 0 where
  pub existing : Option ExistingClient
  pub clients : List ExistingClient
  pub written : Bool

-- #reconcileReferencingClients, where the discovery has the client operator
pub reconcile_referencing_clients : List ExistingClient → Ingress → List Effect
reconcile_referencing_clients [] i = []
reconcile_referencing_clients (c ∷ clients) i =
    (let rest = reconcile_referencing_clients clients i in
      if same_text c.ingress_ref i.name then reconciles c.client_name ∷ rest else rest)

pub patch_client : Answers → ExistingClient → ClientSpec → List Effect
unfolding same_spec
patch_client a existing spec =
    (let desired = overlay existing.spec spec in
      if same_spec desired existing.spec
      then []
      else patches desired
        ∷ event (if a.written then "OIDCClientDiscovered" else "IngressDiscoveryFailed")
        ∷ [])

pub create_client : Answers → Ingress → ClientSpec → List Effect
create_client a i spec =
    creates spec (discovered_client_labels i)
    ∷ event (if a.written then "OIDCClientDiscovered" else "IngressDiscoveryFailed")
    ∷ []

abbrev pub write_client :
    Answers → Ingress → Option ExistingClient → Option ClientSpec → List Effect
write_client a i existing none = []
write_client a i (some c) (some spec) = patch_client a c spec
write_client a i none (some spec) = create_client a i spec

abbrev pub is_foreign : Option ExistingClient → Ingress → Bool
is_foreign none i = false
is_foreign (some c) i = not (is_discovered_from c i)

pub discover : Web → Answers → Ingress → List Effect
unfolding requests_discovery discovery_problems is_discovered_from
discover w a i =
    if not (requests_discovery i)
    then (if is_some a.existing && not (is_foreign a.existing i)
        then deletes ∷ event "OIDCClientRemoved" ∷ []
        else [])
    else if is_foreign a.existing i
    then event "OIDCClientConflict" ∷ []
    else if is_empty (discovery_problems w i)
    then write_client a i a.existing (oidc_client_spec_for w i)
    else event "IngressDiscoveryFailed" ∷ []

-- #reconcile
pub reconcile : Web → Answers → Ingress → List Effect
unfolding discover reconcile_referencing_clients
reconcile w a i =
    if truthy i.namespace && truthy i.name
    then reconcile_referencing_clients a.clients i ++ discover w a i
    else []
