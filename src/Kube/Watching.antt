-- ===== src/Kube/Watching.antt =====
-- The runs of the watch of adapters/kubernetes.js: the platform's events and the calls of an operator
-- that stands down and comes back.
use passmower.Prelude.{
  ℕ, suc, ◌+◌, ◌≤◌, ◌<◌, Option, none, some, true, false, List, [], ◌∷◌, ◌≡◌, refl, ap, arith,
  Option-cases, Bool-cases, ◌⊎◌, inl, inr,
}
use passmower.Kube.Watch.{
  WatchError, watch_restart_delay_ms, Watcher, listed, dropped, is_pending, cleared, clear_timer,
  stop_watching, watch_objects, established, done, fire,
}

-- What happens without a call of watchObjects by an operator.
pub data Step (w : Watcher) : Watcher → Type 0 where
  -- The request was opened; it may have ended before its promise is settled.
  establishes : (r : ℕ) → r < w.opened → Step w (established r w)
  ends : (r : ℕ) (err : Option WatchError) → listed r w.in_flight ≡ true → Step w (done r err w)
  fires : (t : ℕ) → is_pending t w.pending ≡ true → Step w (fire t w)
  stops : Step w (stop_watching w)

-- Any number of those steps.
pub data Steps (w : Watcher) : Watcher → Type 0 where
  stays : Steps w w
  goes : (v u : Watcher) → Steps w v → Step v u → Steps w u

-- An operator calls watchObjects once the requests and the timers of its last watch are gone.
pub data Orderly (w : Watcher) : Watcher → Type 0 where
  begins : Orderly w w
  moves : (v u : Watcher) → Orderly w v → Step v u → Orderly w u
  starts :
      (v : Watcher) → Orderly w v → v.in_flight ≡ [] → v.pending ≡ [] → Orderly w (watch_objects v)

-- One request or one timer unless stopped, and the adapter holds the timer.
pub data Single (w : Watcher) : Type 0 where
  idle : w.stopped ≡ true → w.in_flight ≡ [] → w.pending ≡ [] → Single w
  watches : (r : ℕ) → w.in_flight ≡ r ∷ [] → w.pending ≡ [] → Single w
  waits :
      (t d : ℕ)
      → w.in_flight ≡ []
      → w.pending ≡ (t, d) ∷ []
      → w.timer ≡ some t
      → d ≤ 10000
      → Single w

watch_restart_delay_ms-bound : (err : Option WatchError) → watch_restart_delay_ms err ≤ 10000
unfolding watch_restart_delay_ms
watch_restart_delay_ms-bound none = ground arith
watch_restart_delay_ms-bound (some e) = ground arith

Step-Single : (w u : Watcher) → Single w → Step w u → Single u
unfolding established done fire stop_watching watch_objects dropped cleared clear_timer listed
    is_pending
Step-Single w _ (idle o f p) (establishes r h) =
    idle (ground (arith, o)) (ground (arith, o, f)) (ground (arith, o, p))
Step-Single w _ (idle o f p) (ends r err h) = absurd (ground (arith, f, h))
Step-Single w _ (idle o f p) (fires t h) = absurd (ground (arith, p, h))
Step-Single w _ (idle o f p) stops = idle refl f (ground (arith, p, Option-cases w.timer))
Step-Single w _ (watches q f p) (establishes r h) = elim (Bool-cases w.stopped) [
  | inl s ↦ watches q (ground (arith, f, s)) (ground (arith, p, s))
  | inr s ↦ watches q (ground (arith, f, s)) (ground (arith, p, s))
]
Step-Single w _ (watches q f p) (ends r err h) = elim (Bool-cases w.stopped) [
  | inl s ↦ idle (ground (arith, s)) (ground (arith, f, s, h)) (ground (arith, p, s))
  | inr s ↦
      waits w.timers_set (watch_restart_delay_ms err) (ground (arith, f, s, h))
        (ground (arith, p, s)) (ground (arith, s)) (watch_restart_delay_ms-bound err)
]
Step-Single w _ (watches q f p) (fires t h) = absurd (ground (arith, p, h))
Step-Single w _ (watches q f p) stops = watches q f (ground (arith, p, Option-cases w.timer))
Step-Single w _ (waits t d f p m b) (establishes r h) = elim (Bool-cases w.stopped) [
  | inl s ↦ waits t d (ground (arith, f, s)) (ground (arith, p, s)) (ground (arith, m, s)) b
  | inr s ↦ waits t d (ground (arith, f, s)) (ground (arith, p, s)) (ground (arith, m, s)) b
]
Step-Single w _ (waits t d f p m b) (ends r err h) = absurd (ground (arith, f, h))
Step-Single w _ (waits t d f p m b) (fires s h) =
    watches w.opened (ap (λ (xs : List ℕ). w.opened ∷ xs) f) (ground (arith, p, h))
Step-Single w _ (waits t d f p m b) stops = idle refl f (ground (arith, p, m))

Orderly-Single : (w u : Watcher) → Single w → Orderly w u → Single u
unfolding watch_objects
Orderly-Single w _ h begins = h
Orderly-Single w _ h (moves v u run step) = Step-Single v u (Orderly-Single w v h run) step
Orderly-Single w _ h (starts v run f p) = watches v.opened (ap (λ (xs : List ℕ). v.opened ∷ xs) f) p

watch_objects-Single : (w : Watcher) → w.in_flight ≡ [] → w.pending ≡ [] → Single (watch_objects w)
unfolding watch_objects
watch_objects-Single w f p = watches w.opened (ap (λ (xs : List ℕ). w.opened ∷ xs) f) p

-- After `n` requests the watch is stopped, and nothing is left that starts it.
data Halted (n : ℕ) (w : Watcher) : Type 0 where
  halted :
      w.stopped ≡ true
      → w.opened ≡ n
      → w.pending ≡ []
      → w.timer ≡ none
      → w.controller ≡ none
      → Halted n w

Step-Halted : (n : ℕ) (w u : Watcher) → Halted n w → Step w u → Halted n u
unfolding established done stop_watching clear_timer is_pending
Step-Halted n w _ (halted s o p t c) (establishes r h) =
    halted (ground (arith, s)) (ground (arith, s)) (ground (arith, s)) (ground (arith, s))
      (ground (arith, s))
Step-Halted n w _ (halted s o p t c) (ends r err h) =
    halted (ground (arith, s)) (ground (arith, s)) (ground (arith, s)) (ground (arith, s))
      (ground (arith, s))
Step-Halted n w _ (halted s o p t c) (fires k h) = absurd (ground (arith, p, h))
Step-Halted n w _ (halted s o p t c) stops = halted refl o (ground (arith, p, t)) refl refl

Steps-Halted : (n : ℕ) (w u : Watcher) → Halted n w → Steps w u → Halted n u
Steps-Halted n w _ h stays = h
Steps-Halted n w _ h (goes v u run step) = Step-Halted n v u (Steps-Halted n w v h run) step

stop_watching-Halted : (w : Watcher) → Single w → Halted w.opened (stop_watching w)
unfolding stop_watching clear_timer cleared
stop_watching-Halted w (idle s f p) =
    halted refl refl (ground (arith, p, Option-cases w.timer)) refl refl
stop_watching-Halted w (watches r f p) =
    halted refl refl (ground (arith, p, Option-cases w.timer)) refl refl
stop_watching-Halted w (waits t d f p m b) = halted refl refl (ground (arith, p, m)) refl refl

-- A watch is started when the adapter has no request open and no timer set, and is started again only
-- when its requests and timers are gone. Once stopWatching is called, then whatever happens without a
-- further call of watchObjects by an operator, no request is opened, no timer is set, and the adapter
-- holds neither a timer nor a controller.
pub stop_is_final :
    (w v u : Watcher)
    → w.in_flight ≡ []
    → w.pending ≡ []
    → Orderly (watch_objects w) v
    → Steps (stop_watching v) u
    → (u.opened ≡ v.opened) × (u.pending ≡ []) × (u.timer ≡ none) × (u.controller ≡ none)
stop_is_final w v u f p run steps =
    (let single = Orderly-Single (watch_objects w) v (watch_objects-Single w f p) run in
      elim (Steps-Halted v.opened (stop_watching v) u (stop_watching-Halted v single) steps) [
        | halted s o q t c ↦ (o, q, t, c)
      ])

-- A watch that is so started and started again, and that is not stopped, has exactly one request open
-- and no timer set, or no request open and exactly one timer set, of ten seconds at most.
pub never_blind :
    (w u : Watcher)
    → w.in_flight ≡ []
    → w.pending ≡ []
    → Orderly (watch_objects w) u
    → u.stopped ≡ false
    → ((r : ℕ) × (u.in_flight ≡ r ∷ []) × (u.pending ≡ []))
      ⊎ ((t : ℕ) × (d : ℕ) × (u.in_flight ≡ []) × (u.pending ≡ (t, d) ∷ []) × (d ≤ 10000))
never_blind w u f p run on =
    elim (Orderly-Single (watch_objects w) u (watch_objects-Single w f p) run) [
      | idle s _ _ ↦ absurd (ground (arith, s, on))
      | watches r g q ↦ inl (r, g, q)
      | waits t d g q m b ↦ inr (t, d, g, q, b)
    ]

-- The operator comes back before the request that it stopped has ended.
unfoldable pub early_restart : ℕ → Option WatchError → Watcher → Watcher
early_restart first err w =
    (let both = watch_objects (stop_watching (established first (watch_objects w))) in
      done (suc first) err (done first err both))

-- A watch is stopped after its request is established, and watchObjects is called again before that
-- request has ended; both requests then end. A call of stopWatching leaves a timer set, which calls
-- watchObjects when it runs out: the watch is no longer stopped, and a third request is opened.
pub early_restart-fires :
    (w : Watcher) (err : Option WatchError)
    → w.in_flight ≡ []
    → w.pending ≡ []
    → (t : ℕ) × (is_pending t (stop_watching (early_restart w.opened err w)).pending ≡ true)
      × ((fire t (stop_watching (early_restart w.opened err w))).stopped ≡ false)
      × ((fire t (stop_watching (early_restart w.opened err w))).opened ≡ w.opened + 3)
unfolding early_restart stop_watching fire watch_objects done established is_pending cleared
    clear_timer
early_restart-fires w err f p = (w.timers_set, ground (arith, f, p), refl, ground arith)
