-- ===== src/EventHook/Counts.antt =====
-- No more events than reports (operators/kube-oidc-user-event-hook-operator.js).
use passmower.Prelude.{ℕ, ◌+◌, String, Bool, List, [], ◌∷◌, if◌then◌else◌}
use passmower.EventHook.Handlers.{Handler, Operator}
use passmower.EventHook.Steps.{is_about, is_under_way}

module _ {A : Type 0} (p : A → Bool) where
  abbrev pub count : List A → ℕ
  count [] = 0
  count (a ∷ rest) = (if p a then 1 else 0) + count rest

module _ (x : String) (g : ℕ) where
  abbrev one : Handler → ℕ
  one h = if is_under_way x g h then 1 else 0

  -- The events so far, and those that handlers under way may still give.
  abbrev due : Operator → ℕ
  due o = count (is_about x g) o.dispatched + count (is_under_way x g) o.handlers
