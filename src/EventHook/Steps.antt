-- ===== src/EventHook/Steps.antt =====
-- What one step of a handler does for one user at one generation (operators/kube-oidc-user-event-hook-operator.js).
use passmower.Prelude.{
  ℕ, zero, suc, String, none, some, Bool, Bool-cases, true, false, List, [], ◌∷◌, ◌==◌, ◌&&◌, ◌||◌,
  ◌≡◌, refl, sym, ap, ◌∙◌, inl, inr, any, arith, eq_iff, lookup-insert, lookup-remove, remove,
  nat_eq, if◌then◌else◌,
}
use passmower.EventHook.{User, Event, EventType, deleted_event, generation_of}
use passmower.EventHook.Handlers.{
  on_added, on_modified, Store, seen, last_generation, is_known, remember, Handler, finding,
  remembering, forgetting, dispatching, finished, change_event, step, step_at, throw_at, Move,
  receives,
}

pub last_generation-remember :
    (x y : String) (g : ℕ) (s : Store)
    → last_generation x (remember y g s) ≡ (if y == x then some g else last_generation x s)
last_generation-remember x y g s = elim (Bool-cases (y == x)) [
  | inl e ↦ rw (lookup-insert y x (seen g) s, e) refl
  | inr e ↦ rw (lookup-insert y x (seen g) s, e) refl
]

last_generation-remove :
    (x y : String) (s : Store)
    → last_generation x (remove y s) ≡ (if y == x then none else last_generation x s)
last_generation-remove x y s = elim (Bool-cases (y == x)) [
  | inl e ↦ rw (lookup-remove y x s, e) refl
  | inr e ↦ rw (lookup-remove y x s, e) refl
]

module _ (x : String) (g : ℕ) where
  abbrev pub is_at : User → Bool
  is_at u = u.uid == x && nat_eq (generation_of u) g

  -- The user is added or modified at the generation.
  abbrev pub is_change : EventType → Bool
  is_change deleted_event = false
  is_change _ = true

  abbrev pub is_about : Event → Bool
  is_about e = is_change e.type && is_at e.user

  abbrev pub is_receipt : Move → Bool
  is_receipt (receives (on_added u)) = is_at u
  is_receipt (receives (on_modified u)) = is_at u
  is_receipt _ = false

  -- A handler that is to look at the store, or to write it.
  abbrev pub is_before : Handler → Bool
  is_before (finding is_added u) = is_at u
  is_before (remembering is_new u) = is_at u
  is_before _ = false

  -- A handler that is to dispatch.
  abbrev pub is_after : Handler → Bool
  is_after (dispatching e) = is_about e
  is_after _ = false

  abbrev pub is_under_way : Handler → Bool
  is_under_way h = is_before h || is_after h

  abbrev pub is_stored : Store → Bool
  is_stored s = is_known (last_generation x s) g

  pub is_about-change_event : (b : Bool) (u : User) → is_about (change_event b u) ≡ is_at u
  is_about-change_event true u = refl
  is_about-change_event false u = refl

  remember_stored :
      (u : User) (s : Store)
      → is_stored (remember u.uid (generation_of u) s)
        ≡ (if u.uid == x then nat_eq (generation_of u) g else is_stored s)
  remember_stored u s = elim (Bool-cases (u.uid == x)) [
    | inl e ↦ rw (last_generation-remember x u.uid (generation_of u) s, e) refl
    | inr e ↦ rw (last_generation-remember x u.uid (generation_of u) s, e) refl
  ]

  remove_stored : (y : String) (s : Store) → is_stored (remove y s) ≡ true → is_stored s ≡ true
  remove_stored y s h = elim (Bool-cases (y == x)) [
    | inl e ↦ absurd (ground (arith, h, last_generation-remove x y s, e))
    | inr e ↦ ground (arith, h, last_generation-remove x y s, e)
  ]

  found_stored :
      (u : User) (s : Store)
      → is_at u ≡ true
      → is_known (last_generation u.uid s) (generation_of u) ≡ is_stored s
  found_stored u s h =
      ap (λ y. is_known (last_generation y s) (generation_of u))
        ((eq_iff u.uid x).0 (ground (arith, h)))
      ∙ ap (is_known (last_generation x s)) (ground (arith, h))

  step_stored :
      (s : Store) (h : Handler)
      → is_stored (step s h).1 ≡ true
      → (is_stored s || is_after (step s h).0) ≡ true
  unfolding step
  step_stored s (finding b u) k = ground (arith, k)
  step_stored s (remembering b u) k =
      ground (arith, k, remember_stored u s, is_about-change_event b u)
  step_stored s (forgetting u) k = ground (arith, k, remove_stored u.uid s)
  step_stored s (dispatching e) k = ground (arith, k)
  step_stored s finished k = ground (arith, k)

  step_after :
      (s : Store) (h : Handler)
      → is_after h ≡ true
      → (is_after (step s h).0 || any is_about (step s h).2) ≡ true
  unfolding step
  step_after s (dispatching e) k = ground (arith, k)
  step_after s (finding b u) k = absurd (ground (arith, k))
  step_after s (remembering b u) k = absurd (ground (arith, k))
  step_after s (forgetting u) k = absurd (ground (arith, k))
  step_after s finished k = absurd (ground (arith, k))

  step_before :
      (s : Store) (h : Handler)
      → is_before h ≡ true
      → (is_before (step s h).0 || is_after (step s h).0 || is_stored s) ≡ true
  unfolding step
  step_before s (finding b u) k =
      elim (Bool-cases (is_known (last_generation u.uid s) (generation_of u))) [
        | inl e ↦ rw (e) (sym (found_stored u s k) ∙ e)
        | inr e ↦ rw (e) (ground (arith, k))
      ]
  step_before s (remembering b u) k = ground (arith, k, is_about-change_event b u)
  step_before s (dispatching e) k = absurd (ground (arith, k))
  step_before s (forgetting u) k = absurd (ground (arith, k))
  step_before s finished k = absurd (ground (arith, k))

  throw_stored :
      (s : Store) (h : Handler)
      → is_stored (step s h).1 ≡ true
      → (is_stored s || is_under_way h) ≡ true
  unfolding step
  throw_stored s (finding b u) k = ground (arith, k)
  throw_stored s (remembering b u) k = ground (arith, k, remember_stored u s)
  throw_stored s (forgetting u) k = ground (arith, k, remove_stored u.uid s)
  throw_stored s (dispatching e) k = ground (arith, k)
  throw_stored s finished k = ground (arith, k)

  pub step_at_stored :
      (n : ℕ) (s : Store) (hs : List Handler)
      → is_stored (step_at n s hs).1 ≡ true
      → (is_stored s || any is_after (step_at n s hs).0) ≡ true
  unfolding step_at
  step_at_stored n s [] k = ground (arith, k)
  step_at_stored zero s (h ∷ hs) k = ground (arith, step_stored s h k)
  step_at_stored (suc n) s (h ∷ hs) k = ground (arith, step_at_stored n s hs k)

  pub step_at_after :
      (n : ℕ) (s : Store) (hs : List Handler)
      → any is_after hs ≡ true
      → (any is_after (step_at n s hs).0 || any is_about (step_at n s hs).2) ≡ true
  unfolding step_at
  step_at_after n s [] k = absurd (ground (arith, k))
  step_at_after zero s (h ∷ hs) k = ground (arith, k, step_after s h)
  step_at_after (suc n) s (h ∷ hs) k = ground (arith, k, step_at_after n s hs)

  pub step_at_before :
      (n : ℕ) (s : Store) (hs : List Handler)
      → any is_before hs ≡ true
      → (any is_before (step_at n s hs).0 || any is_after (step_at n s hs).0 || is_stored s) ≡ true
  unfolding step_at
  step_at_before n s [] k = absurd (ground (arith, k))
  step_at_before zero s (h ∷ hs) k = ground (arith, k, step_before s h)
  step_at_before (suc n) s (h ∷ hs) k = ground (arith, k, step_at_before n s hs)

  pub throw_at_stored :
      (n : ℕ) (b : Bool) (s : Store) (hs : List Handler)
      → is_stored (throw_at n b s hs).1 ≡ true
      → (is_stored s || any is_under_way (throw_at n b s hs).2) ≡ true
  unfolding throw_at
  throw_at_stored n b s [] k = ground (arith, k)
  throw_at_stored zero false s (h ∷ hs) k = ground (arith, k)
  throw_at_stored zero true s (h ∷ hs) k = ground (arith, throw_stored s h k)
  throw_at_stored (suc n) b s (h ∷ hs) k = ground (arith, throw_at_stored n b s hs k)

  pub throw_at_after :
      (n : ℕ) (b : Bool) (s : Store) (hs : List Handler)
      → any is_after hs ≡ true
      → (any is_after (throw_at n b s hs).0 || any is_under_way (throw_at n b s hs).2) ≡ true
  unfolding throw_at
  throw_at_after n b s [] k = absurd (ground (arith, k))
  throw_at_after zero b s (h ∷ hs) k = ground (arith, k)
  throw_at_after (suc n) b s (h ∷ hs) k = ground (arith, k, throw_at_after n b s hs)

  pub throw_at_before :
      (n : ℕ) (b : Bool) (s : Store) (hs : List Handler)
      → any is_before hs ≡ true
      → (any is_before (throw_at n b s hs).0 || any is_under_way (throw_at n b s hs).2) ≡ true
  unfolding throw_at
  throw_at_before n b s [] k = absurd (ground (arith, k))
  throw_at_before zero b s (h ∷ hs) k = ground (arith, k)
  throw_at_before (suc n) b s (h ∷ hs) k = ground (arith, k, throw_at_before n b s hs)
