-- ===== src/Election/Tests.antt =====
-- Runs of the election, and its theorems at concrete leases and pods.
use passmower.Prelude.{
  ℕ, suc, Option, none, some, true, false, List, [], ◌∷◌, ◌≡◌, refl, ap, ◌∙◌, arith, nat_eq, ◌||◌,
  if◌then◌else◌, is_some,
}
use passmower.Election.{
  Config, Clock, Lease, LeaseSpec, Request, create, replace, absent, found, done, write_failed,
  Elector, tick, stop, stop_leading,
}
use passmower.Election.Calls.{Event, ticks, stops, run, calls_of, follows, calls_alternate}
use passmower.Election.Takeover.{live_lease_respected, claims_lease, leads_by_lease}
use passmower.Election.Race.{LeaseApi, tick_at, state_after, one_winner}

abbrev first_pod : Config
first_pod = record { identity = "pod-1"; lease_duration_seconds = 15; renew_deadline_seconds = 10 }

abbrev second_pod : Config
second_pod = record first_pod { identity = "pod-2" }

abbrev fresh : Elector
fresh = record { leading = false; timer = true; last_renewed_at = none; is_stopped = false }

abbrev leader : Elector
leader = record fresh { leading = true; last_renewed_at = some 1000 }

abbrev lease : Lease
lease = record {
  version = 7;
  spec = record {
    holder_identity = some "pod-1";
    lease_duration_seconds = some 15;
    acquire_time = some 1000;
    renew_time = some 1000;
    lease_transitions = some 3;
  };
}

abbrev at : ℕ → Clock
at t = record { at_read = t; at_write = t; after_write = t }

abbrev history : List Event
history =
    ticks (at 1000) absent done
    ∷ ticks (at 4000) (found lease) done
    ∷ ticks (at 9000) (found lease) (write_failed 403)
    ∷ stops (found lease)
    ∷ []

calls_alternate_example :
    follows false (calls_of first_pod history fresh) ≡ some (run first_pod history fresh).leading
calls_alternate_example = calls_alternate first_pod history fresh

-- The last instant at which the lease of the first pod still counts.
live_lease_respected_example :
    ((tick second_pod (at 16000) (found lease) done leader).request ≡ none)
    × ((tick second_pod (at 16000) (found lease) done leader).elector.leading ≡ false)
live_lease_respected_example =
    live_lease_respected second_pod (at 16000) lease done leader
      (record {
        holder = "pod-1";
        renewed_at = 1000;
        named = refl;
        present = refl;
        other = refl;
        stamped = refl;
        live = omega arith;
      })
      refl

takes_over : (tick second_pod (at 16001) (found lease) done fresh).elector.leading ≡ true
unfolding tick
takes_over = refl

leads_by_lease_example :
    (claims_lease second_pod (tick second_pod (at 16001) (found lease) done fresh).request done
      || false
      || false)
    ≡ true
leads_by_lease_example =
    leads_by_lease second_pod (at 16001) (found lease) done fresh refl takes_over

abbrev free : LeaseSpec
free = record lease.spec { holder_identity = none; renew_time = none }

gives_up : (stop first_pod (found lease) leader).request ≡ some (replace 7 free)
unfolding stop stop_leading
gives_up = refl

-- An API server that counts the versions of the lease.
abbrev store : Request → Option Lease → Option (Option Lease)
store (create x) none = some (some (record { version = 1; spec = x }))
store (create x) (some l) = none
store (replace v x) none = none
store (replace v x) (some l) =
    if nat_eq l.version v then some (some (record { version = suc v; spec = x })) else none

store-is_some :
    (s : Option Lease) (r : Request) (t : Option Lease) → store r s ≡ some t → is_some t ≡ true
store-is_some none (create x) none h = cc
store-is_some s r (some m) h = refl
store-is_some (some l) (create x) none h = cc
store-is_some none (replace v x) none h = cc
store-is_some (some l) (replace v x) none h = ground arith

store-version :
    (s : Option Lease) (r : Request) (t : Option Lease) (l m : Lease)
    → store r s ≡ some t
    → s ≡ some l
    → t ≡ some m
    → m.version ≡ suc l.version
store-version none r t l m h p q = cc
store-version (some x) (create y) t l m h p q = cc
store-version (some x) (replace v y) t l m h p q = ground arith

abbrev counting_api : LeaseApi
counting_api = record {
  State = Option Lease;
  read = λ s. s;
  write = λ s r. store r s;
  create_once = λ s l x h. ap (store (create x)) h;
  replace_absent = λ s v x h. ap (store (replace v x)) h;
  replace_stale = λ s l v x h n. ap (store (replace v x)) h ∙ ground arith;
  read_after = λ s r t h. store-is_some s r t h;
  new_version = λ s r t l m h p q e. ground (arith, store-version s r t l m h p q);
}

-- Both pods read no lease; the first one's write arrives first.
first_leads : (tick_at counting_api first_pod (at 1000) none none fresh).elector.leading ≡ true
unfolding tick
first_leads = refl

one_winner_example :
    (tick_at counting_api second_pod
      (at 1000)
      none
      (state_after counting_api first_pod (at 1000) none fresh)
      fresh).elector.leading
    ≡ false
one_winner_example =
    one_winner counting_api first_pod second_pod (at 1000) (at 1000) none fresh fresh refl
      first_leads refl
