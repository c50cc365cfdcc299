-- ===== src/UserOperator.antt =====
-- The passes of the e-mail check over all users: #scheduleEmailReconcile of
-- operators/kube-oidc-user-operator.js, where calls share one pass that runs.
pub mod Served
mod Tests
use passmower.Prelude.{Bool, true, false, List, [], ◌∷◌, if◌then◌else◌}

-- Where the promise is: null, in a pass of the loop, or after the loop and before `finally`.
pub data Phase : Type 0 where
  idle passing leaving : Phase

-- reconcileEmailPromise and reconcileEmailPending, with what happened, the latest first.
pub data Happening : Type 0 where
  asked started : Happening

pub record State : Type 0 where
  pub phase : Phase
  pub pending : Bool
  pub log : List Happening

-- The call of reconcileEmailUniqueness at the head of the loop.
abbrev start_pass : State → State
start_pass s = record s { phase = passing; pending = false; log = started ∷ s.log }

pub schedule : State → State
schedule s = elim s.phase [
  | idle ↦ start_pass (record s { log = asked ∷ s.log })
  | _ ↦ record s { pending = true; log = asked ∷ s.log }
]

-- The call ended or threw: `while (this.reconcileEmailPending)`.
pub pass_ended : State → State
pass_ended s = elim s.phase [
  | passing ↦ if s.pending then start_pass s else record s { phase = leaving }
  | _ ↦ s
]

-- The callback of `finally`, which schedules again what came in after the loop.
pub finally : State → State
finally s = elim s.phase [
  | leaving ↦ if s.pending then start_pass s else record s { phase = idle }
  | _ ↦ s
]

pub data Move : Type 0 where
  schedules pass_ends finishes : Move

abbrev pub move : Move → State → State
move schedules s = schedule s
move pass_ends s = pass_ended s
move finishes s = finally s

abbrev pub run : List Move → State → State
run [] s = s
run (m ∷ ms) s = run ms (move m s)

abbrev pub at_start : State
at_start = record { phase = idle; pending = false; log = [] }
