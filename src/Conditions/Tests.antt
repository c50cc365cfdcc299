-- ===== src/Conditions/Tests.antt =====
-- Runs of the status conditions, and their theorem at a concrete client.
use passmower.Prelude.{none, some, true, false, [], ◌∷◌, ◌≡◌, refl}
use passmower.Conditions.{
  ClientState, update_ready_condition, update_activity_condition, should_reconcile, register,
}

abbrev wiki : ClientState
wiki = record {
  client_id = "apps-wiki";
  conditions = [];
  last_used_at = none;
  creation_timestamp = some 0;
  generation = some 1;
  description = none;
}

first_report : (update_ready_condition true "Reconciled" "done" 500 wiki).1 ≡ true
unfolding update_ready_condition
first_report = refl

-- Ninety days to the millisecond.
inactive_at_ninety_days :
    (update_activity_condition (λ n. "90") 7776000000 90 wiki).conditions
    ≡ record {
      kind = "Inactive";
      status = "True";
      reason = "NotUsedRecently";
      message = "Client has not been used for at least 90 days";
      last_transition_time = some 7776000000;
    }
      ∷ []
unfolding update_activity_condition
inactive_at_ninety_days = refl

-- The same event again is not due; one with a new description is.
due : (should_reconcile (register [] wiki) (record wiki { description = some "Wiki" })).1 ≡ true
unfolding should_reconcile
due = refl

not_due : (should_reconcile (register [] wiki) wiki).1 ≡ false
unfolding should_reconcile
not_due = refl
