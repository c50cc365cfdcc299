-- ===== src/Kube/Tests.antt =====
-- Tests of the calls of the Kubernetes API.
use passmower.Prelude.{
  ℕ, suc, ◌<◌, ◌≤◌, none, some, false, List, [], ◌∷◌, ◌≡◌, ◌⊎◌, inl, inr, refl, Bool-cases, nat_eq,
  arith, if◌then◌else◌,
}
use passmower.Kube.{Reply, ok, error, missing, failed, object_result}
use passmower.Kube.Mutation.{Versioned, Answers, attempt, mutate_loop, mutate_status}
use passmower.Kube.Atomicity.{
  Server, Interference, turn, turns, answers, answers_of, written_reply, after_attempt, Took,
  mutate_status-Took,
}
use passmower.Kube.Watch.{Watcher, listed, stop_watching, watch_objects, established, done}
use passmower.Kube.Watching.{
  Steps, stays, goes, Orderly, begins, moves, establishes, ends, stop_is_final, never_blind,
}

-- A server of one object, whose version is counted.
abbrev put : ℕ → ℕ → Versioned ℕ → Versioned ℕ
put n x s = if nat_eq s.version n then record { version = suc s.version; status = x } else s

abbrev put_reply : ℕ → ℕ → Versioned ℕ → Reply (Versioned ℕ)
put_reply n x s =
    if nat_eq s.version n
    then ok (record { version = suc s.version; status = x })
    else error (some 409)

read_is_ok : (s v : Versioned ℕ) → ok s ≡ ok v → some s ≡ some v
read_is_ok s v h = ground arith

put_is_new :
    (n x : ℕ) (s w : Versioned ℕ)
    → put_reply n x s ≡ ok w
    → (v : Versioned ℕ) × (some s ≡ some v) × (v.version ≡ n) × (v.version < w.version)
put_is_new n x s w h = elim (Bool-cases (nat_eq s.version n)) [
  | inl e ↦ (s, refl, ground (arith, e), ground (arith, e, h))
  | inr e ↦ absurd (ground (arith, e, h))
]

put_is_written :
    (n x : ℕ) (s w : Versioned ℕ)
    → put_reply n x s ≡ ok w
    → (some (put n x s) ≡ some w) × (w.status ≡ x)
put_is_written n x s w h = elim (Bool-cases (nat_eq s.version n)) [
  | inl e ↦ (ground (arith, e, h), ground (arith, e, h))
  | inr e ↦ absurd (ground (arith, e, h))
]

put_is_refused :
    (n x : ℕ) (s : Versioned ℕ) (c : ℕ)
    → put_reply n x s ≡ error (some c)
    → some (put n x s) ≡ some s
put_is_refused n x s c h = elim (Bool-cases (nat_eq s.version n)) [
  | inl e ↦ absurd (ground (arith, e, h))
  | inr e ↦ ground (arith, e, h)
]

abbrev counter : Server ℕ
counter = record {
  State = Versioned ℕ;
  object = λ s. some s;
  read = λ s. ok s;
  replace = put_reply;
  replaced = put;
  read_ok = read_is_ok;
  replace_version = put_is_new;
  replace_object = put_is_written;
  replace_refused = put_is_refused;
}

abbrev increment : Versioned ℕ → Versioned ℕ
increment s = record { version = suc s.version; status = suc s.status }

nobody_keeps :
    (s v w : Versioned ℕ) → some s ≡ some v → some s ≡ some w → v.version ≡ w.version → v ≡ w
nobody_keeps s v w h k e = ground arith

increment_keeps :
    (s v w : Versioned ℕ)
    → some s ≡ some v
    → some (increment s) ≡ some w
    → v.version ≡ w.version
    → v ≡ w
increment_keeps s v w h k e = absurd (ground arith)

abbrev nobody : Interference counter
nobody = record { acts = λ s. s; keeps = nobody_keeps }

abbrev somebody : Interference counter
somebody = record { acts = increment; keeps = increment_keeps }

abbrev stored : Versioned ℕ
stored = record { version = 7; status = 40 }

abbrev conflict_then_none : List (Interference counter × Interference counter)
conflict_then_none = (somebody, nobody) ∷ (nobody, nobody) ∷ []

mutate_status-Took_example :
    Took counter nat_eq suc
      (record { version = 9; status = 42 })
      (turns counter nat_eq suc stored conflict_then_none)
unfolding mutate_status mutate_loop attempt turns answers turn answers_of written_reply
    after_attempt
mutate_status-Took_example =
    mutate_status-Took counter nat_eq suc stored conflict_then_none
      (record { version = 9; status = 42 }) refl

abbrev refused_once : Answers ℕ
refused_once = record { read = ok stored; written = error (some 409) }

absent_object : object_result {R = ℕ} suc (error (some 404)) ≡ missing
unfolding object_result
absent_object = refl

failed_object : object_result {R = ℕ} suc (error none) ≡ failed
unfolding object_result
failed_object = refl

abbrev idle_watcher : Watcher
idle_watcher = record {
  stopped = false;
  timer = none;
  controller = none;
  opened = 0;
  timers_set = 0;
  in_flight = [];
  aborted = [];
  pending = [];
}

abbrev watching : Watcher
watching = watch_objects idle_watcher

established_run : Orderly watching (established 0 watching)
unfolding watch_objects listed
established_run = moves watching (established 0 watching) begins (establishes 0 (ground arith))

request_end :
    Steps
      (stop_watching (established 0 watching))
      (done 0 none (stop_watching (established 0 watching)))
unfolding watch_objects stop_watching established listed
request_end =
    goes (stop_watching (established 0 watching))
      (done 0 none (stop_watching (established 0 watching))) stays (ends 0 none refl)

stop_is_final_example :
    let u = done 0 none (stop_watching (established 0 watching)) in
    (u.opened ≡ (established 0 watching).opened)
    × (u.pending ≡ [])
    × (u.timer ≡ none)
    × (u.controller ≡ none)
stop_is_final_example =
    stop_is_final idle_watcher (established 0 watching)
      (done 0 none (stop_watching (established 0 watching))) refl refl established_run request_end

never_blind_example :
    let u = established 0 watching in
    ((r : ℕ) × (u.in_flight ≡ r ∷ []) × (u.pending ≡ []))
    ⊎ ((t : ℕ) × (d : ℕ) × (u.in_flight ≡ []) × (u.pending ≡ (t, d) ∷ []) × (d ≤ 10000))
unfolding watch_objects established
never_blind_example =
    never_blind idle_watcher (established 0 watching) refl refl established_run refl
