-- ===== src/Sweep.antt =====
-- The sweep of Redis client records whose resource is gone:
-- services/client-redis-reconciler.js. Lists and reads of the Kubernetes API are the replies to
-- them; picomatch, which matches namespaces, is a parameter.
pub mod Safety
mod Tests
use passmower.Prelude.{
  ℕ, String, Option, none, some, Bool, true, false, not, List, [], ◌∷◌, ◌++◌, ◌==◌, ◌&&◌, ◌||◌,
  if◌then◌else◌, contains, all, filter, map, is_empty, remove, Assoc,
}

-- The selector of a NamespaceFilter: every pattern must match.
pub namespace_filter : (String → String → Bool) → List String → String → Bool
namespace_filter matches patterns namespace = all (λ p. matches p namespace) patterns

pub record LiveClient : Type 0 where
  pub client_id : String
  pub client_namespace : String

-- A record of the Client model in Redis.
pub record ClientRecord : Type 0 where
  pub kind : String
  pub client_namespace : String
  pub client_name : String

-- getNamespacedCustomObject: undefined for a 404, null for a failed read.
pub data Reading : Type 0 where
  missing there read_failed : Reading

abbrev swept_kinds : List String
swept_kinds = "OIDCClient" ∷ "OIDCMiddlewareClient" ∷ []

pub is_swept : String → Bool
is_swept kind = contains kind swept_kinds

-- #listLiveClientIds: the lists of the swept kinds, none where a list failed.
pub list_live_client_ids : (String → Bool) → List (Option (List LiveClient)) → Option (List String)
list_live_client_ids in_scope [] = some []
list_live_client_ids in_scope (none ∷ ls) = none
list_live_client_ids in_scope (some cs ∷ ls) = elim (list_live_client_ids in_scope ls) [
  | none ↦ none
  | some rest ↦ some (
      map (λ (c : LiveClient). c.client_id)
        (filter (λ (c : LiveClient). in_scope c.client_namespace) cs)
      ++ rest)
]

-- #confirmAbsent
pub confirm_absent : Reading → Bool
confirm_absent missing = true
confirm_absent there = false
confirm_absent read_failed = false

-- What the sweep reads of one id: the record in Redis and its resource in Kubernetes.
pub record World : Type 0 where
  pub find : String → Option ClientRecord
  pub read : ClientRecord → Reading

-- One id of #removeOrphans.
pub is_removed : (String → Bool) → World → List String → String → Bool
is_removed in_scope w live id = if contains id live then false else elim (w.find id) [
  | none ↦ true
  | some r ↦
      if not (is_swept r.kind)
      then false
      else if not (in_scope r.client_namespace)
      then false
      else if not (confirm_absent (w.read r))
      then false
      else true
]

-- #removeOrphans: the removed ids, each of them destroyed in Redis.
pub remove_orphans : (String → Bool) → World → List String → List String → List String
remove_orphans in_scope w live [] = []
remove_orphans in_scope w live (id ∷ ids) =
    let rest = remove_orphans in_scope w live ids in
    if is_removed in_scope w live id then id ∷ rest else rest

-- sweep, with whether another one is running.
pub sweep :
    (String → Bool) → World → Bool → List (Option (List LiveClient)) → List String → List String
sweep in_scope w running lists ids =
    if running then [] else elim (list_live_client_ids in_scope lists) [
      | none ↦ []
      | some live ↦ remove_orphans in_scope w live ids
    ]
