-- ===== src/Kube.antt =====
-- The calls of the Kubernetes API: adapters/kubernetes.js. The API server answers by a reply; what
-- the adapter makes of it is the result. `none` stands for an error without a code.
pub mod Mutation
pub mod Atomicity
pub mod Attempts
pub mod Watch
pub mod Watching
mod Tests
use passmower.Prelude.{
  ℕ, String, Option, none, some, Bool, true, false, not, List, [], ◌∷◌, ◌==◌, ◌&&◌, ◌||◌, nat_eq,
  if◌then◌else◌, map, concat, is_some, get_or, truthy, Assoc,
}

pub data Reply {ℓ} (A : Type ℓ) : Type ℓ where
  ok : A → Reply A
  error : Option ℕ → Reply A

-- undefined, null, or a value.
pub data Result {ℓ} (A : Type ℓ) : Type ℓ where
  value : A → Result A
  missing : Result A
  failed : Result A

abbrev pub is_code : ℕ → Option ℕ → Bool
is_code n none = false
is_code n (some c) = nat_eq c n

-- getNamespacedCustomObject, createNamespacedCustomObject and patchNamespacedCustomObject.
pub object_result {ℓ κ} : {R : Type ℓ} {A : Type κ} → (R → A) → Reply R → Result A
object_result mapper (ok r) = value (mapper r)
object_result mapper (error c) = if is_code 404 c then missing else failed

-- listNamespacedCustomObject and listClusterCustomObject.
pub list_result {ℓ κ} : {R : Type ℓ} {A : Type κ} → (R → A) → Reply (List R) → Result (List A)
list_result mapper (ok items) = value (map mapper items)
list_result mapper (error c) = if is_code 404 c then missing else failed

-- deleteNamespacedCustomObject: whether the object is absent.
pub delete_result : Reply (Unit {0}) → Bool
delete_result (ok x) = true
delete_result (error c) = is_code 404 c

-- replaceNamespacedCustomObjectStatus: undefined for every error, logged or not.
pub replace_status_result {ℓ κ} : {R : Type ℓ} {A : Type κ} → (R → A) → Reply R → Result A
replace_status_result mapper (ok r) = value (mapper r)
replace_status_result mapper (error c) = missing

-- createJob and createSecret.
pub data Creation {ℓ} (A : Type ℓ) : Type ℓ where
  created : A → Creation A
  already_exists : Creation A
  not_created : Creation A

pub creation_result {ℓ} : {A : Type ℓ} → Bool → Reply A → Creation A
creation_result ignore_already_exists (ok r) = created r
creation_result ignore_already_exists (error c) =
    if ignore_already_exists && is_code 409 c then already_exists else not_created

-- getLease; `failed` stands for the error that it throws.
pub lease_result {ℓ} : {A : Type ℓ} → Reply A → Result A
lease_result (ok l) = value l
lease_result (error c) = if is_code 404 c then missing else failed

-- apiServerUrlViaServiceDns; net.isIPv6 is a parameter.
pub api_server_url_via_service_dns :
    (String → Bool) → Option String → String → String → Option String
api_server_url_via_service_dns is_ipv6 host port mode =
    if not (truthy host) || mode == "never"
    then none
    else if not (mode == "always") && not (is_ipv6 (get_or host ""))
    then none
    else (let scheme =
          if port == "80" || port == "8080" || port == "8001" then "http" else "https" in
        some (concat scheme (concat "://kubernetes.default.svc:" port)))
