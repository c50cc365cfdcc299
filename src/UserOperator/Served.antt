-- ===== src/UserOperator/Served.antt =====
-- Every request for the e-mail check is served (operators/kube-oidc-user-operator.js).
use passmower.Prelude.{Bool, true, false, List, [], ◌∷◌, ◌≡◌, refl, sym, arith}
use passmower.UserOperator.{
  Phase, idle, passing, leaving, Happening, asked, State, schedule, pass_ended, finally, Move,
  schedules, pass_ends, finishes, move, run, at_start,
}

-- A request came in after the last pass began.
abbrev pub is_owed : List Happening → Bool
is_owed (asked ∷ log) = true
is_owed _ = false

abbrev pub Sound : State → Type 0
Sound s = elim s.phase [
  | idle ↦ (s.pending ≡ false) × (is_owed s.log ≡ false)
  | _ ↦ s.pending ≡ is_owed s.log
]

move_at-Sound :
    (m : Move) (phase : Phase) (pending : Bool) (log : List Happening)
    → Sound (record { phase = phase; pending = pending; log = log })
    → Sound (move m (record { phase = phase; pending = pending; log = log }))
unfolding schedule pass_ended finally
move_at-Sound schedules idle p log h = refl
move_at-Sound schedules passing p log h = refl
move_at-Sound schedules leaving p log h = refl
move_at-Sound pass_ends idle p log h = h
move_at-Sound pass_ends passing true log h = refl
move_at-Sound pass_ends passing false log h = h
move_at-Sound pass_ends leaving p log h = h
move_at-Sound finishes idle p log h = h
move_at-Sound finishes passing p log h = h
move_at-Sound finishes leaving true log h = refl
move_at-Sound finishes leaving false log h = (refl, sym h)

run-Sound : (ms : List Move) (s : State) → Sound s → Sound (run ms s)
run-Sound [] s h = h
run-Sound (m ∷ ms) s h = run-Sound ms (move m s) (move_at-Sound m s.phase s.pending s.log h)

idle_served : (s : State) → Sound s → s.phase ≡ idle → is_owed s.log ≡ false
idle_served s h e = ground (arith, h, e)

settles_at :
    (phase : Phase) (pending : Bool) (log : List Happening)
    → (run
        (pass_ends ∷ finishes ∷ pass_ends ∷ finishes ∷ [])
        (record { phase = phase; pending = pending; log = log })).phase
      ≡ idle
unfolding pass_ended finally
settles_at idle p log = refl
settles_at passing true log = refl
settles_at passing false log = refl
settles_at leaving true log = refl
settles_at leaving false log = refl

-- The requests, the ends of passes and the callbacks come in any order: when no pass runs and no callback
-- is due, a pass began after the last request.
pub run_served :
    (ms : List Move) → (run ms at_start).phase ≡ idle → is_owed (run ms at_start).log ≡ false
run_served ms e = idle_served (run ms at_start) (run-Sound ms at_start (refl, refl)) e

-- Whatever came before, when no more requests come in, two ends of passes with their callbacks leave no pass
-- running.
pub run_settles :
    (ms : List Move)
    → (run (pass_ends ∷ finishes ∷ pass_ends ∷ finishes ∷ []) (run ms at_start)).phase ≡ idle
run_settles ms = settles_at (run ms at_start).phase (run ms at_start).pending (run ms at_start).log
