-- ===== src/EventHook/Seeding.antt =====
-- The first start of the operator on users that are there (#seedOnFirstRun of
-- operators/kube-oidc-user-event-hook-operator.js).
use mathlib.Core.Path.{subst}
use passmower.Prelude.{
  ℕ, String, some, true, false, List, [], ◌∷◌, ◌≡◌, refl, ap, ◌∙◌, arith, eq_iff, eq_refl, ◌==◌,
  insert, lookup-insert, has, map, contains, IsDistinct, nat_eq, zero, suc, ◌++◌, any, all, Bool,
  Bool-cases, ◌&&◌, inl, inr, sym,
}
use passmower.EventHook.{User, Event, generation_of}
use passmower.EventHook.Handlers.{
  on_added, on_modified, on_deleted, Store, initialized, initialized_key, generation_in,
  last_generation, is_known, remember, remember_all, seed_on_first_run, step, step_at, throw_at,
  Handler, finding, remembering, forgetting, dispatching, finished, Operator, Move, receives, steps,
  throws, move, run, starting_from,
}
use passmower.EventHook.Steps.{last_generation-remember}

abbrev pub uids : List User → List String
uids users = map (λ u. u.uid) users

-- The store has the generation of every user.
abbrev KnowsAll : List User → Store → Type 0
KnowsAll [] s = Unit
KnowsAll (u ∷ us) s = (last_generation u.uid s ≡ some (generation_of u)) × KnowsAll us s

last_generation-remember_all :
    (x : String) (us : List User) (s : Store)
    → contains x (uids us) ≡ false
    → last_generation x (remember_all us s) ≡ last_generation x s
last_generation-remember_all x [] s h = refl
last_generation-remember_all x (u ∷ us) s h =
    last_generation-remember_all x us (remember u.uid (generation_of u) s) (ground (arith, h))
    ∙ (last_generation-remember x u.uid (generation_of u) s
        ∙ ground (arith, h, eq_iff u.uid x, eq_iff x u.uid))

remember_all-KnowsAll :
    (us : List User) (s : Store) → IsDistinct (uids us) → KnowsAll us (remember_all us s)
remember_all-KnowsAll [] s d = tt
remember_all-KnowsAll (u ∷ us) s d = (
  last_generation-remember_all u.uid us (remember u.uid (generation_of u) s) d.0
      ∙ (last_generation-remember u.uid u.uid (generation_of u) s ∙ rw (eq_refl u.uid) refl),
  remember_all-KnowsAll us (remember u.uid (generation_of u) s) d.1,
)

apart : (a b : String) → a == b ≡ false → b == a ≡ false
apart a b h = ground (arith, h, eq_iff a b, eq_iff b a)

insert-KnowsAll :
    (us : List User) (s : Store)
    → contains initialized_key (uids us) ≡ false
    → KnowsAll us s
    → KnowsAll us (insert initialized_key initialized s)
insert-KnowsAll [] s h k = tt
insert-KnowsAll (u ∷ us) s h k = (
  ap generation_in (lookup-insert initialized_key u.uid initialized s)
      ∙ rw (apart u.uid initialized_key (ground (arith, h))) k.0,
  insert-KnowsAll us s (ground (arith, h)) k.1,
)

same-is_known : (g : ℕ) → is_known (some g) g ≡ true
same-is_known g = ground arith

-- A report of one of the users as added, at its generation, or a step or an error of a handler.
abbrev pub is_listing : List User → Move → Bool
is_listing us (receives (on_added u)) =
    any (λ v. v.uid == u.uid && nat_eq (generation_of v) (generation_of u)) us
is_listing us (receives n) = false
is_listing us m = true

-- A handler that has nothing to dispatch.
abbrev is_quiet : Store → Handler → Bool
is_quiet s (finding b u) = is_known (last_generation u.uid s) (generation_of u)
is_quiet s finished = true
is_quiet s h = false

listed_known :
    (us : List User) (u : User) (s : Store)
    → KnowsAll us s
    → any (λ v. v.uid == u.uid && nat_eq (generation_of v) (generation_of u)) us ≡ true
    → is_known (last_generation u.uid s) (generation_of u) ≡ true
listed_known [] u s k h = absurd (ground (arith, h))
listed_known (v ∷ us) u s k h =
    elim (Bool-cases (v.uid == u.uid && nat_eq (generation_of v) (generation_of u))) [
      | inl e ↦
          let there : last_generation u.uid s ≡ some (generation_of v) =
            ap (λ y. last_generation y s) (sym ((eq_iff v.uid u.uid).0 (ground (arith, e))))
            ∙ k.0 in
          rw (there) (ground (arith, e))
      | inr e ↦ listed_known us u s k.1 (ground (arith, e, h))
    ]

step_quiet :
    (s : Store) (h : Handler)
    → is_quiet s h ≡ true
    → (is_quiet s (step s h).0 ≡ true) × ((step s h).1 ≡ s) × ((step s h).2 ≡ [])
unfolding step
step_quiet s (finding b u) k = rw (k) (refl, refl, refl)
step_quiet s (remembering b u) k = absurd (ground (arith, k))
step_quiet s (forgetting u) k = absurd (ground (arith, k))
step_quiet s (dispatching e) k = absurd (ground (arith, k))
step_quiet s finished k = (refl, refl, refl)

step_at_quiet :
    (n : ℕ) (s : Store) (hs : List Handler)
    → all (is_quiet s) hs ≡ true
    → (all (is_quiet s) (step_at n s hs).0 ≡ true)
      × ((step_at n s hs).1 ≡ s)
      × ((step_at n s hs).2 ≡ [])
unfolding step_at
step_at_quiet n s [] k = (refl, refl, refl)
step_at_quiet zero s (h ∷ hs) k =
    let (q, same, none_sent) = step_quiet s h (ground (arith, k)) in
    (ground (arith, q, k), same, none_sent)
step_at_quiet (suc n) s (h ∷ hs) k =
    let (q, same, none_sent) = step_at_quiet n s hs (ground (arith, k)) in
    (ground (arith, q, k), same, none_sent)

throw_at_quiet :
    (n : ℕ) (b : Bool) (s : Store) (hs : List Handler)
    → all (is_quiet s) hs ≡ true
    → (all (is_quiet s) (throw_at n b s hs).0 ≡ true) × ((throw_at n b s hs).1 ≡ s)
unfolding throw_at
throw_at_quiet n b s [] k = (refl, refl)
throw_at_quiet zero true s (h ∷ hs) k = (ground (arith, k), (step_quiet s h (ground (arith, k))).1)
throw_at_quiet zero false s (h ∷ hs) k = (ground (arith, k), refl)
throw_at_quiet (suc n) b s (h ∷ hs) k =
    let (q, same) = throw_at_quiet n b s hs (ground (arith, k)) in (ground (arith, q, k), same)

-- The store has the users, no handler has anything to dispatch, and nothing was dispatched.
abbrev Silent : List User → Operator → Type 0
Silent us o = KnowsAll us o.store × (all (is_quiet o.store) o.handlers ≡ true) × (o.dispatched ≡ [])

at_same_store :
    (us : List User) (s t : Store) (hs : List Handler) (es : List Event) (thrown : List Handler)
    → t ≡ s
    → KnowsAll us s
    → all (is_quiet s) hs ≡ true
    → es ≡ []
    → Silent us (record { store = t; handlers = hs; dispatched = es; thrown = thrown })
at_same_store us s t hs es thrown same k q d =
    subst (λ v. KnowsAll us v × (all (is_quiet v) hs ≡ true) × (es ≡ [])) (sym same) (k, q, d)

move-Silent :
    (us : List User) (m : Move) (o : Operator)
    → is_listing us m ≡ true
    → Silent us o
    → Silent us (move m o)
unfolding move
move-Silent us (receives (on_added u)) o l h =
    (h.0, ground (arith, h.1, listed_known us u o.store h.0 l), h.2)
move-Silent us (receives (on_modified u)) o l h = absurd (ground (arith, l))
move-Silent us (receives (on_deleted u)) o l h = absurd (ground (arith, l))
move-Silent us (steps n) o l h =
    (let (q, same, none_sent) = step_at_quiet n o.store o.handlers h.1 in
      at_same_store us o.store (step_at n o.store o.handlers).1 (step_at n o.store o.handlers).0
        ((step_at n o.store o.handlers).2 ++ o.dispatched) o.thrown same h.0 q (rw (none_sent) h.2))
move-Silent us (throws n b) o l h =
    (let (q, same) = throw_at_quiet n b o.store o.handlers h.1 in
      at_same_store us o.store (throw_at n b o.store o.handlers).1
        (throw_at n b o.store o.handlers).0 o.dispatched
        ((throw_at n b o.store o.handlers).2 ++ o.thrown) same h.0 q h.2)

run-Silent :
    (us : List User) (ms : List Move) (o : Operator)
    → all (is_listing us) ms ≡ true
    → Silent us o
    → Silent us (run ms o)
run-Silent us [] o l h = h
run-Silent us (m ∷ ms) o l h =
    run-Silent us ms (move m o) (ground (arith, l)) (move-Silent us m o (ground (arith, l)) h)

-- On a first start, with a listing of users of different uids, none of them the key of the marker: when the
-- watch then reports users of the listing as added, at their generations, in any order and any number of
-- times, nothing is dispatched, in whatever order the calls of the handlers answer or throw.
pub seeded_silent :
    (us : List User) (s : Store) (ms : List Move)
    → IsDistinct (uids us)
    → contains initialized_key (uids us) ≡ false
    → has initialized_key s ≡ false
    → all (is_listing us) ms ≡ true
    → (run ms (starting_from (seed_on_first_run (some us) s))).dispatched ≡ []
unfolding seed_on_first_run
seeded_silent us s ms d m h l =
    rw (h)
      (run-Silent us ms (starting_from (insert initialized_key initialized (remember_all us s))) l
        (insert-KnowsAll us (remember_all us s) m (remember_all-KnowsAll us s d), refl, refl)).2
