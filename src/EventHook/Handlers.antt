-- ===== src/EventHook/Handlers.antt =====
-- The handlers of operators/kube-oidc-user-event-hook-operator.js: they are under way at once, over the store
-- of the generations.
use passmower.Prelude.{
  ℕ, zero, suc, String, Option, none, some, Bool, true, false, not, List, [], ◌∷◌, ◌++◌, ◌&&◌,
  Assoc, lookup, insert, remove, has, is_some, nat_eq, if◌then◌else◌,
}
use passmower.EventHook.{User, generation_of, added_event, modified_event, deleted_event, Event}

-- The records of OIDCUserEventHookState.
pub data Entry : Type 0 where
  seen : ℕ → Entry  -- {generation}
  initialized : Entry  -- {initializedAt}

abbrev pub Store : Type 0
Store = Assoc Entry

abbrev pub initialized_key : String
initialized_key = "__initialized__"

abbrev pub generation_in : Option Entry → Option ℕ
generation_in (some (seen g)) = some g
generation_in _ = none

abbrev pub last_generation : String → Store → Option ℕ
last_generation uid s = generation_in (lookup uid s)

abbrev pub remember : String → ℕ → Store → Store
remember uid g s = insert uid (seen g) s

abbrev pub remember_all : List User → Store → Store
remember_all [] s = s
remember_all (u ∷ us) s = remember_all us (remember u.uid (generation_of u) s)

-- #seedOnFirstRun; none where the listing fails.
unfoldable pub seed_on_first_run : Option (List User) → Store → Store
seed_on_first_run none s = s
seed_on_first_run (some users) s =
    if has initialized_key s then s else insert initialized_key initialized (remember_all users s)

abbrev pub is_known : Option ℕ → ℕ → Bool
is_known none g = false
is_known (some k) g = nat_eq k g

-- What the watch reports, restarts and re-listings included.
pub data Notice : Type 0 where
  on_added on_modified on_deleted : User → Notice

-- Where a call of #added, #modified or #deleted stands. The watch does not wait for its callbacks, so any
-- number of calls are under way at once; each step below is one answer of Redis or the call of #dispatch.
pub data Handler : Type 0 where
  finding : Bool → User → Handler  -- #lastGeneration, with whether this is #added
  remembering : Bool → User → Handler  -- #remember, with whether the event is Added
  forgetting : User → Handler  -- state.destroy
  dispatching : Event → Handler  -- #dispatch
  finished : Handler

abbrev pub begin_handler : Notice → Handler
begin_handler (on_added u) = finding true u
begin_handler (on_modified u) = finding false u
begin_handler (on_deleted u) = forgetting u

abbrev pub change_event : Bool → User → Event
change_event is_new u = record { type = if is_new then added_event else modified_event; user = u }

-- #added gives the type Added where nothing is stored, #modified always Modified.
abbrev pub after_find : Bool → User → Option ℕ → Handler
after_find is_added u previous =
    if is_known previous (generation_of u)
    then finished
    else remembering (is_added && not (is_some previous)) u

-- The next step of a handler: where it stands then, the store, and the events that it dispatches.
unfoldable pub step : Store → Handler → Handler × Store × List Event
step s (finding is_added u) = (after_find is_added u (last_generation u.uid s), s, [])
step s (remembering is_new u) =
    (dispatching (change_event is_new u), remember u.uid (generation_of u) s, [])
step s (forgetting u) =
    (dispatching (record { type = deleted_event; user = u }), remove u.uid s, [])
step s (dispatching e) = (finished, s, e ∷ [])
step s finished = (finished, s, [])

-- The step of the handler at a place.
unfoldable pub step_at : ℕ → Store → List Handler → List Handler × Store × List Event
unfolding step
step_at n s [] = ([], s, [])
step_at zero s (h ∷ hs) = ((step s h).0 ∷ hs, (step s h).1, (step s h).2)
step_at (suc n) s (h ∷ hs) = let rest = step_at n s hs in (h ∷ rest.0, rest.1, rest.2)

-- The call of the handler at a place throws, which ends it; Redis may have written all the same. What
-- the third part lists is the handler.
unfoldable pub throw_at : ℕ → Bool → Store → List Handler → List Handler × Store × List Handler
unfolding step
throw_at n written s [] = ([], s, [])
throw_at zero written s (h ∷ hs) = (finished ∷ hs, (if written then (step s h).1 else s), h ∷ [])
throw_at (suc n) written s (h ∷ hs) =
    let rest = throw_at n written s hs in (h ∷ rest.0, rest.1, rest.2)

pub record Operator : Type 0 where
  pub store : Store
  pub handlers : List Handler
  pub dispatched : List Event
  pub thrown : List Handler  -- the handlers that a call ended

pub data Move : Type 0 where
  receives : Notice → Move
  steps : ℕ → Move
  throws : ℕ → Bool → Move

unfoldable pub move : Move → Operator → Operator
unfolding step_at throw_at
move (receives n) o = record o { handlers = begin_handler n ∷ o.handlers }
move (steps n) o =
    (let r = step_at n o.store o.handlers in
      record o { handlers = r.0; store = r.1; dispatched = r.2 ++ o.dispatched })
move (throws n written) o =
    (let r = throw_at n written o.store o.handlers in
      record o { handlers = r.0; store = r.1; thrown = r.2 ++ o.thrown })

abbrev pub run : List Move → Operator → Operator
run [] o = o
run (m ∷ ms) o = run ms (move m o)

abbrev pub starting_from : Store → Operator
starting_from s = record { store = s; handlers = []; dispatched = []; thrown = [] }
