-- ===== src/EventHook/Delivery.antt =====
-- No reported generation is passed over (operators/kube-oidc-user-event-hook-operator.js).
use mathlib.Core.Path.{subst}
use passmower.Prelude.{
  ℕ, String, Bool, true, false, not, List, [], ◌∷◌, ◌++◌, ◌||◌, ◌≡◌, refl, any, arith,
}
use passmower.EventHook.Handlers.{
  on_added, on_modified, on_deleted, Store, last_generation, is_known, Handler, step_at, throw_at,
  Operator, Move, receives, steps, throws, move, run, starting_from,
}
use passmower.EventHook.Steps.{
  is_receipt, is_about, is_before, is_after, is_under_way, is_stored, step_at_stored, step_at_after,
  step_at_before, throw_at_stored, throw_at_after, throw_at_before,
}

or_assoc : (a b c : Bool) → ((a || b) || c) ≡ (a || (b || c))
or_assoc a b c = ground arith

module _ (x : String) (g : ℕ) where
  -- The generation was stored at the start, is dispatched, or was given up with a call that threw.
  abbrev is_served : Bool → Operator → Bool
  is_served known o = known || any (is_about x g) o.dispatched || any (is_under_way x g) o.thrown

  -- What is stored is served or about to be, and so is what was reported, unless a handler of it is before
  -- its look at the store or its write.
  abbrev IsKept : Bool → Bool → Operator → Type 0
  IsKept known reported o =
      ((not (is_stored x g o.store) || is_served known o || any (is_after x g) o.handlers) ≡ true)
      × ((not reported
            || is_served known o
            || any (is_after x g) o.handlers
            || any (is_before x g) o.handlers)
          ≡ true)

  any-++ : {A : Type 0} (p : A → Bool) (xs ys : List A) → any p (xs ++ ys) ≡ (any p xs || any p ys)
  any-++ p [] ys = refl
  any-++ p (v ∷ xs) ys = ground (arith, any-++ p xs ys)

  move-IsKept :
      (known reported : Bool) (m : Move) (o : Operator)
      → IsKept known reported o
      → IsKept known (reported || is_receipt x g m) (move m o)
  unfolding move
  move-IsKept known reported (receives (on_added u)) o h = ground (arith, h.0, h.1)
  move-IsKept known reported (receives (on_modified u)) o h = ground (arith, h.0, h.1)
  move-IsKept known reported (receives (on_deleted u)) o h = ground (arith, h.0, h.1)
  move-IsKept known reported (steps n) o h =
      rw (any-++ (is_about x g) (step_at n o.store o.handlers).2 o.dispatched) (
        ground (
          arith,
          h.0,
          step_at_stored x g n o.store o.handlers,
          step_at_after x g n o.store o.handlers,
        ),
        ground (
          arith,
          h.0,
          h.1,
          step_at_after x g n o.store o.handlers,
          step_at_before x g n o.store o.handlers,
        ),
      )
  move-IsKept known reported (throws n b) o h =
      rw (any-++ (is_under_way x g) (throw_at n b o.store o.handlers).2 o.thrown) (
        ground (
          arith,
          h.0,
          throw_at_stored x g n b o.store o.handlers,
          throw_at_after x g n b o.store o.handlers,
        ),
        ground (
          arith,
          h.1,
          throw_at_after x g n b o.store o.handlers,
          throw_at_before x g n b o.store o.handlers,
        ),
      )

  run-IsKept :
      (known reported : Bool) (ms : List Move) (o : Operator)
      → IsKept known reported o
      → IsKept known (reported || any (is_receipt x g) ms) (run ms o)
  run-IsKept known reported [] o h = ground (arith, h.0, h.1)
  run-IsKept known reported (m ∷ ms) o h =
      subst (λ b. IsKept known b (run ms (move m o)))
        (or_assoc reported (is_receipt x g m) (any (is_receipt x g) ms))
        (run-IsKept known (reported || is_receipt x g m) ms (move m o)
          (move-IsKept known reported m o h))

  any_under_way :
      (hs : List Handler)
      → any (is_under_way x g) hs ≡ (any (is_before x g) hs || any (is_after x g) hs)
  any_under_way [] = refl
  any_under_way (h ∷ hs) = ground (arith, any_under_way hs)

  -- The watch reports users as added, modified and deleted in any order, its callbacks are under way at
  -- once, and their calls answer or throw in any order. A generation that was reported of a user that is
  -- added or modified, and that no handler is under way with any more, was stored for the user at the
  -- start, is dispatched in an event about the user, or was given up by a handler of which a call threw.
  pub run_delivers :
      (ms : List Move) (s : Store)
      → any (is_receipt x g) ms ≡ true
      → any (is_under_way x g) (run ms (starting_from s)).handlers ≡ false
      → (is_known (last_generation x s) g
          || any (is_about x g) (run ms (starting_from s)).dispatched
          || any (is_under_way x g) (run ms (starting_from s)).thrown)
        ≡ true
  run_delivers ms s r u =
      (let kept =
          run-IsKept (is_stored x g s) false ms (starting_from s) (ground arith, ground arith) in
        ground (arith, kept.1, r, u, any_under_way (run ms (starting_from s)).handlers))
