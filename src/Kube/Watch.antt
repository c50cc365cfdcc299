-- ===== src/Kube/Watch.antt =====
-- The watch of adapters/kubernetes.js: watchRestartDelayMs, watchObjects, its callbacks and stopWatching.
-- The promise of a request is taken not to be rejected.
use passmower.Prelude.{
  ℕ, suc, ◌*◌, String, Option, none, some, Bool, true, false, not, List, [], ◌∷◌, ◌==◌, ◌||◌,
  nat_eq, if◌then◌else◌,
}

-- What ended a request: nothing, or an error with its name and whether /\bstream timeout\b/ is in its message.
pub record WatchError : Type 0 where
  pub name : String
  pub is_stream_timeout : Bool

unfoldable pub watch_restart_delay_ms : Option WatchError → ℕ
watch_restart_delay_ms none = 0
watch_restart_delay_ms (some err) =
    if err.name == "TimeoutError" then 0 else if err.is_stream_timeout then 0 else 10 * 1000

-- What the callback of the watch does with an object.
pub data Notice {ℓ} (A : Type ℓ) : Type ℓ where
  added : A → Notice A
  modified : A → Notice A
  deleted : A → Notice A
  ignored : Notice A
  raised : Notice A

unfoldable pub notice {ℓ κ} :
    {R : Type ℓ} {A : Type κ} → (R → A) → Bool → (R → Bool) → String → R → Notice A
notice mapper is_failure in_filter kind r =
    if is_failure
    then raised
    else if not (in_filter r)
    then ignored
    else if kind == "ADDED"
    then added (mapper r)
    else if kind == "MODIFIED"
    then modified (mapper r)
    else if kind == "DELETED"
    then deleted (mapper r)
    else ignored

-- `stopped`, `timer` and `controller` are the adapter's watchStopped, watchRestartTimer and
-- watchAbortController; requests and timers have a serial number each. The rest is what the
-- platform keeps: the requests open, those aborted, and the timers set, with their delays.
pub record Watcher : Type 0 where
  pub stopped : Bool
  pub timer : Option ℕ
  pub controller : Option ℕ
  pub opened : ℕ  -- requests opened so far
  pub timers_set : ℕ  -- timers set so far
  pub in_flight : List ℕ
  pub aborted : List ℕ
  pub pending : List (ℕ × ℕ)

unfoldable pub listed : ℕ → List ℕ → Bool
listed n [] = false
listed n (x ∷ xs) = nat_eq x n || listed n xs

unfoldable pub dropped : ℕ → List ℕ → List ℕ
dropped n [] = []
dropped n (x ∷ xs) = let rest = dropped n xs in if nat_eq x n then rest else x ∷ rest

unfoldable pub is_pending : ℕ → List (ℕ × ℕ) → Bool
is_pending n [] = false
is_pending n ((t, delay) ∷ ts) = nat_eq t n || is_pending n ts

unfoldable pub cleared : ℕ → List (ℕ × ℕ) → List (ℕ × ℕ)
cleared n [] = []
cleared n ((t, delay) ∷ ts) =
    let rest = cleared n ts in if nat_eq t n then rest else (t, delay) ∷ rest

-- clearTimeout and abort, of what may be null.
unfoldable pub clear_timer : Option ℕ → List (ℕ × ℕ) → List (ℕ × ℕ)
clear_timer none ts = ts
clear_timer (some t) ts = cleared t ts

unfoldable pub abort_request : Option ℕ → List ℕ → List ℕ
abort_request none rs = rs
abort_request (some r) rs = r ∷ rs

-- stopWatching.
unfoldable pub stop_watching : Watcher → Watcher
stop_watching w = record w {
  stopped = true;
  pending = clear_timer w.timer w.pending;
  timer = none;
  aborted = abort_request w.controller w.aborted;
  controller = none;
}

-- watchObjects, up to the promise of its request.
unfoldable pub watch_objects : Watcher → Watcher
watch_objects w = record w {
  stopped = false;
  opened = suc w.opened;
  in_flight = w.opened ∷ w.in_flight;
}

-- The request is established: the `then` of watchObjects.
unfoldable pub established : ℕ → Watcher → Watcher
established r w =
    if w.stopped then record w { aborted = r ∷ w.aborted } else record w { controller = some r }

-- The request has ended: the callback of watchObjects for it.
unfoldable pub done : ℕ → Option WatchError → Watcher → Watcher
done r err w =
    (let ended = record w { in_flight = dropped r w.in_flight } in
      if w.stopped then ended else record ended {
        timer = some w.timers_set;
        timers_set = suc w.timers_set;
        pending = (w.timers_set, watch_restart_delay_ms err) ∷ w.pending;
      })

-- A timer runs out.
unfoldable pub fire : ℕ → Watcher → Watcher
fire t w = watch_objects (record w { pending = cleared t w.pending })
