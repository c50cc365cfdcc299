-- ===== src/EventHook.antt =====
-- Hooks on user events: models/oidc-user-event-hook.js and operators/kube-oidc-user-event-hook-operator.js.
pub mod Handlers
pub mod Steps
pub mod Delivery
pub mod Counts
pub mod Seeding
mod Tests
use passmower.Prelude.{
  ℕ, zero, suc, String, Option, none, some, Bool, true, false, not, List, [], ◌∷◌, ◌++◌, ◌==◌, ◌&&◌,
  ◌||◌, Assoc, lookup, insert, remove, has, any, all, filter, find, map, contains, get_or, is_some,
  nat_eq, same_text, keys, if◌then◌else◌,
}

pub record User : Type 0 where
  pub uid : String
  pub user_name : String
  pub user_namespace : String
  pub labels : Option (Assoc String)
  pub generation : Option ℕ

abbrev pub generation_of : User → ℕ
generation_of u = get_or u.generation 1

pub data EventType : Type 0 where
  added_event modified_event deleted_event : EventType

abbrev pub event_name : EventType → String
event_name added_event = "Added"
event_name modified_event = "Modified"
event_name deleted_event = "Deleted"

pub record Event : Type 0 where
  pub type : EventType
  pub user : User

pub record Expression : Type 0 where
  pub key : String
  pub operator : String
  pub values : List String

pub record Condition : Type 0 where
  pub condition_type : String
  pub status : String
  pub reason : String
  pub message : String
  pub last_transition_time : ℕ

-- status.lastAttemptedJob
pub record LastAttemptedJob : Type 0 where
  pub job : String
  pub event : String
  pub attempted_user : String
  pub attempted_uid : String
  pub attempted_generation : ℕ
  pub attempted_at : ℕ

pub record HookStatus : Type 0 where
  pub last_attempted_job : Option LastAttemptedJob
  pub conditions : List Condition

pub record Hook : Type 0 where
  pub hook_name : String
  pub events : List String
  pub match_labels : Assoc String
  pub match_expressions : List Expression
  pub hook_status : HookStatus

-- matchesSelector
abbrev label_value : String → Assoc String → List String → Bool
label_value k labels values = elim (lookup k labels) [ none ↦ false | some v ↦ contains v values ]

abbrev matches_expression : Assoc String → Expression → Bool
matches_expression labels e =
    if e.operator == "In"
    then has e.key labels && label_value e.key labels e.values
    else if e.operator == "NotIn"
    then not (has e.key labels) || not (label_value e.key labels e.values)
    else if e.operator == "Exists"
    then has e.key labels
    else e.operator == "DoesNotExist" && not (has e.key labels)

pub matches_selector : Assoc String → Hook → Bool
matches_selector labels h =
    not (any (λ p. not (same_text (lookup p.0 labels) (some p.1))) h.match_labels)
    && all (matches_expression labels) h.match_expressions

pub matches : Hook → Event → Bool
unfolding matches_selector
matches h e = contains (event_name e.type) h.events && matches_selector (get_or e.user.labels []) h

-- injectEnvironment, on the environment of one container
abbrev pub injected_values : (ℕ → String) → Event → Assoc String
injected_values number_text e =
    ("PASSMOWER_EVENT_TYPE", event_name e.type)
    ∷ ("PASSMOWER_RESOURCE_KIND", "OIDCUser")
    ∷ ("PASSMOWER_RESOURCE_NAMESPACE", e.user.user_namespace)
    ∷ ("PASSMOWER_RESOURCE_NAME", e.user.user_name)
    ∷ ("PASSMOWER_RESOURCE_UID", e.user.uid)
    ∷ ("PASSMOWER_RESOURCE_GENERATION", number_text (generation_of e.user))
    ∷ []

pub inject_environment : (ℕ → String) → Event → Assoc String → Assoc String
inject_environment number_text e env =
    filter (λ p. not (has p.0 (injected_values number_text e))) env ++ injected_values number_text e

-- withAttempt
abbrev is_ready : Condition → Bool
is_ready c = c.condition_type == "Ready"

abbrev transition_time : Option Condition → String → ℕ → ℕ
transition_time none status now = now
transition_time (some c) status now = if c.status == status then c.last_transition_time else now

pub with_attempt : HookStatus → Event → String → Bool → String → String → ℕ → HookStatus
with_attempt s e job ready reason message now =
    (let status = if ready then "True" else "False" in
      record {
        last_attempted_job = some (record {
          job = job;
          event = event_name e.type;
          attempted_user = e.user.user_name;
          attempted_uid = e.user.uid;
          attempted_generation = generation_of e.user;
          attempted_at = now;
        });
        conditions =
            filter (λ c. not (is_ready c)) s.conditions
            ++ (record {
              condition_type = "Ready";
              status = status;
              reason = reason;
              message = message;
              last_transition_time = transition_time (find is_ready s.conditions) status now;
            }
                ∷ []);
      })

-- What createJob answers.
pub data JobResult : Type 0 where
  job_failed job_created job_already_exists : JobResult

abbrev pub job_reason : JobResult → String
job_reason job_failed = "JobCreationFailed"
job_reason job_created = "JobCreated"
job_reason job_already_exists = "JobAlreadyExists"

abbrev pub job_ready : JobResult → Bool
job_ready job_failed = false
job_ready _ = true

-- #runHook: the status of the hook, and the reason of the event on it.
pub run_hook : Hook → Event → String → String → JobResult → ℕ → HookStatus × Option String
unfolding with_attempt
run_hook h e job message result now = (
  with_attempt h.hook_status e job (job_ready result) (job_reason result) message now,
  if job_ready result then none else some (job_reason result),
)

-- #dispatch: the hooks that run; none where the listing fails.
pub dispatch : Option (List Hook) → Event → List Hook
unfolding matches
dispatch hooks e = filter (λ h. matches h e) (get_or hooks [])
