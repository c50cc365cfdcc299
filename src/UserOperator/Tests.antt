-- ===== src/UserOperator/Tests.antt =====
-- Concrete runs of the module UserOperator.
use passmower.Prelude.{false, List, [], ◌∷◌, ◌≡◌, refl}
use passmower.UserOperator.{
  idle, asked, started, schedule, pass_ended, finally, Move, schedules, pass_ends, finishes, run,
  at_start,
}
use passmower.UserOperator.Served.{is_owed, run_served, run_settles}

-- A request in a pass, and one between the end of the loop and the callback.
abbrev late_request : List Move
late_request =
    schedules ∷ schedules ∷ pass_ends ∷ pass_ends ∷ schedules ∷ finishes ∷ pass_ends ∷ finishes ∷ []

shares_a_pass :
    (run late_request at_start).log ≡ started ∷ asked ∷ started ∷ asked ∷ started ∷ asked ∷ []
unfolding schedule pass_ended finally
shares_a_pass = refl

run_served_example : is_owed (run late_request at_start).log ≡ false
unfolding schedule pass_ended finally
run_served_example = run_served late_request refl

run_settles_example :
    (run
      (pass_ends ∷ finishes ∷ pass_ends ∷ finishes ∷ [])
      (run (schedules ∷ schedules ∷ []) at_start)).phase
    ≡ idle
run_settles_example = run_settles (schedules ∷ schedules ∷ [])
