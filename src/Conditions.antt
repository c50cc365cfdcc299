-- ===== src/Conditions.antt =====
-- The status conditions of a client and whether it is due for a reconcile:
-- models/client-activity-state.js. Times are milliseconds.
pub mod Stability
mod Tests
use passmower.Prelude.{
  ℕ, ◌*◌, ◌-◌, String, Option, none, some, Bool, true, false, not, List, [], ◌∷◌, ◌++◌, ◌==◌, ◌&&◌,
  ◌||◌, if◌then◌else◌, filter, find, same_text, leb, or_else, is_some, concat, Assoc, lookup,
  insert, remove,
}
use passmower.Account.{Condition}

pub record ClientState : Type 0 where
  pub client_id : String
  pub conditions : List Condition
  pub last_used_at : Option ℕ
  pub creation_timestamp : Option ℕ
  pub generation : Option ℕ
  pub description : Option String

abbrev pub is_kind : String → Condition → Bool
is_kind kind c = c.kind == kind

abbrev pub replace_condition : Condition → List Condition → List Condition
replace_condition c cs = filter (λ d. not (is_kind c.kind d)) cs ++ c ∷ []

abbrev pub status_text : Bool → String
status_text true = "True"
status_text false = "False"

-- The time of a condition that keeps its status.
abbrev kept_time : Bool → ℕ → Option ℕ → Option ℕ
kept_time same now none = some now
kept_time same now (some t) = if same then some t else some now

abbrev activity_time : String → ℕ → Option Condition → Option ℕ
activity_time status now none = some now
activity_time status now (some p) = kept_time (p.status == status) now p.last_transition_time

-- A day has 86400000 milliseconds. The message is the one of the status, with the days put in by
-- the caller's `days_text`.
abbrev activity_condition : (ℕ → String) → ℕ → ℕ → ℕ → List Condition → Condition
activity_condition days_text now days reference cs =
    let inactive = leb (days * 86400000) (now - reference) in
    let status = status_text inactive in
    record {
      kind = "Inactive";
      status = status;
      reason = if inactive then "NotUsedRecently" else "RecentlyUsed";
      message =
          if inactive
          then concat "Client has not been used for at least " (concat (days_text days) " days")
          else concat "Client was used within the last " (concat (days_text days) " days");
      last_transition_time = activity_time status now (find (is_kind "Inactive") cs);
    }

-- updateActivityCondition. A reference later than `now` counts as now; days are at least one.
pub update_activity_condition : (ℕ → String) → ℕ → ℕ → ClientState → ClientState
update_activity_condition days_text now days s =
    elim (or_else s.last_used_at s.creation_timestamp) [
      | none ↦ s
      | some reference ↦ record s {
        conditions =
            replace_condition (activity_condition days_text now days reference s.conditions)
              s.conditions;
      }
    ]

abbrev pub ready_time : String → ℕ → Option Condition → Option ℕ
ready_time status now none = some now
ready_time status now (some p) = if p.status == status then p.last_transition_time else some now

abbrev pub ready_condition : Bool → String → String → ℕ → List Condition → Condition
ready_condition ready reason message now cs = record {
  kind = "Ready";
  status = status_text ready;
  reason = reason;
  message = message;
  last_transition_time = ready_time (status_text ready) now (find (is_kind "Ready") cs);
}

abbrev pub differs : Condition → Option Condition → Bool
differs c none = true
differs c (some p) =
    not (p.status == c.status) || not (p.reason == c.reason) || not (p.message == c.message)

-- updateReadyCondition: the state, and whether the condition changed.
pub update_ready_condition : Bool → String → String → ℕ → ClientState → ClientState × Bool
update_ready_condition ready reason message now s =
    let c = ready_condition ready reason message now s.conditions in
    (
      record s { conditions = replace_condition c s.conditions },
      differs c (find (is_kind "Ready") s.conditions),
    )

-- getReconcileFingerprint: the two values that its text has.
abbrev pub Fingerprint : Type 0
Fingerprint = Option ℕ × Option String

abbrev same_generation : Option ℕ → Option ℕ → Bool
same_generation none none = true
same_generation (some a) (some b) = leb a b && leb b a
same_generation none (some b) = false
same_generation (some a) none = false

abbrev pub same_fingerprint : Option Fingerprint → Fingerprint → Bool
same_fingerprint none f = false
same_fingerprint (some g) f = same_generation g.0 f.0 && same_text g.1 f.1

pub fingerprint_of : ClientState → Fingerprint
fingerprint_of s = (s.generation, s.description)

-- ClientReconcileState, by its fingerprints.
pub is_current : Assoc Fingerprint → ClientState → Bool
unfolding fingerprint_of
is_current m s = same_fingerprint (lookup s.client_id m) (fingerprint_of s)

pub register : Assoc Fingerprint → ClientState → Assoc Fingerprint
unfolding fingerprint_of
register m s = insert s.client_id (fingerprint_of s) m

pub should_reconcile : Assoc Fingerprint → ClientState → Assoc Fingerprint × Bool
unfolding is_current register
should_reconcile m s = (register m s, not (is_current m s))

pub unregister : Assoc Fingerprint → ClientState → Assoc Fingerprint
unregister m s = remove s.client_id m
