-- ===== src/EventHook/Tests.antt =====
-- Concrete users and hooks for the module EventHook.
use passmower.Prelude.{ℕ, String, none, some, true, false, List, [], ◌∷◌, ◌≡◌, ◌||◌, refl, map, any}
use passmower.EventHook.{
  User, Event, Hook, added_event, event_name, generation_of, dispatch, inject_environment, run_hook,
  job_failed,
}
use passmower.EventHook.Handlers.{
  Store, seen, on_added, on_modified, on_deleted, last_generation, is_known, seed_on_first_run,
  Move, receives, steps, throws, move, step, step_at, throw_at, run, starting_from,
}
use passmower.EventHook.Steps.{is_about, is_under_way}
use passmower.EventHook.Delivery.{run_delivers}
use passmower.EventHook.Seeding.{seeded_silent}

abbrev user_at : String → ℕ → User
user_at uid g = record {
  uid = uid;
  user_name = uid;
  user_namespace = "auth";
  labels = some (("team", "ops") ∷ []);
  generation = some g;
}

abbrev hook_for : String → List String → Hook
hook_for operator values = record {
  hook_name = "sync";
  events = "Added" ∷ [];
  match_labels = [];
  match_expressions = record { key = "team"; operator = operator; values = values } ∷ [];
  hook_status = record { last_attempted_job = none; conditions = [] };
}

abbrev added_alice : Event
added_alice = record { type = added_event; user = user_at "alice" 1 }

selects_in :
    dispatch
      (some (hook_for "In" ("ops" ∷ []) ∷ hook_for "NotIn" ("ops" ∷ []) ∷ hook_for "in" [] ∷ []))
      added_alice
    ≡ hook_for "In" ("ops" ∷ []) ∷ []
unfolding dispatch
selects_in = refl

overrides_environment :
    inject_environment
      (λ n. "1")
      added_alice
      (("PASSMOWER_RESOURCE_UID", "root") ∷ ("HOME", "/") ∷ [])
    ≡ ("HOME", "/")
      ∷ ("PASSMOWER_EVENT_TYPE", "Added")
      ∷ ("PASSMOWER_RESOURCE_KIND", "OIDCUser")
      ∷ ("PASSMOWER_RESOURCE_NAMESPACE", "auth")
      ∷ ("PASSMOWER_RESOURCE_NAME", "alice")
      ∷ ("PASSMOWER_RESOURCE_UID", "alice")
      ∷ ("PASSMOWER_RESOURCE_GENERATION", "1")
      ∷ []
unfolding inject_environment
overrides_environment = refl

reports_failure :
    (run_hook (hook_for "Exists" []) added_alice "job" "message" job_failed 5).1
    ≡ some "JobCreationFailed"
unfolding run_hook
reports_failure = refl

abbrev alice : User
alice = user_at "alice" 1

-- A listing of a stored user, a change that was missed, and another user's deletion, each after the other.
abbrev one_by_one : List Move
one_by_one =
    receives (on_added alice)
    ∷ steps 0
    ∷ receives (on_added (user_at "alice" 2))
    ∷ steps 0
    ∷ steps 0
    ∷ steps 0
    ∷ receives (on_deleted (user_at "bob" 7))
    ∷ steps 0
    ∷ steps 0
    ∷ []

abbrev stored : Store
stored = ("alice", seen 1) ∷ []

dispatches_changes :
    map {B = String × String × ℕ}
      (λ e. (event_name e.type, e.user.uid, generation_of e.user))
      (run one_by_one (starting_from stored)).dispatched
    ≡ ("Deleted", "bob", 7) ∷ ("Modified", "alice", 2) ∷ []
unfolding move step_at step
dispatches_changes = refl

-- A user is added, and its status is written before the first callback has remembered its generation.
abbrev overlapping : List Move
overlapping =
    receives (on_added alice)
    ∷ steps 0
    ∷ receives (on_modified alice)
    ∷ steps 0
    ∷ steps 1
    ∷ steps 1
    ∷ steps 0
    ∷ steps 0
    ∷ []

overlap_dispatches_both :
    map {B = String × ℕ}
      (λ e. (event_name e.type, generation_of e.user))
      (run overlapping (starting_from [])).dispatched
    ≡ ("Modified", 1) ∷ ("Added", 1) ∷ []
unfolding move step_at step
overlap_dispatches_both = refl

-- The hooks cannot be dispatched after the generation was remembered, and the user is listed again.
abbrev lost : List Move
lost =
    receives (on_added alice)
    ∷ steps 0
    ∷ steps 0
    ∷ throws 0 false
    ∷ receives (on_added alice)
    ∷ steps 0
    ∷ []

throw_loses_event : (run lost (starting_from [])).dispatched ≡ []
unfolding move step_at throw_at step
throw_loses_event = refl

run_delivers_example :
    (is_known (last_generation "alice" []) 1
      || any (is_about "alice" 1) (run overlapping (starting_from [])).dispatched
      || any (is_under_way "alice" 1) (run overlapping (starting_from [])).thrown)
    ≡ true
unfolding move step_at step
run_delivers_example = run_delivers "alice" 1 overlapping [] refl refl

abbrev two_users : List User
two_users = alice ∷ user_at "bob" 4 ∷ []

abbrev listing : List Move
listing =
    receives (on_added (user_at "bob" 4))
    ∷ receives (on_added alice)
    ∷ steps 1
    ∷ steps 0
    ∷ receives (on_added (user_at "bob" 4))
    ∷ throws 0 true
    ∷ []

seeded_silent_example :
    (run listing (starting_from (seed_on_first_run (some two_users) []))).dispatched ≡ []
seeded_silent_example = seeded_silent two_users [] listing (refl, (refl, tt)) refl refl refl
