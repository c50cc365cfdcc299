-- ===== src/Election.antt =====
-- Leader election on a Kubernetes Lease: services/leader-election.js. Times are milliseconds; the
-- text of a timestamp (microTime) keeps them. A call of `onStartedLeading` or `onStoppedLeading`
-- is an entry of the outcome's `calls`.
pub mod Calls
pub mod Takeover
pub mod Race
pub mod Renewal
mod Tests
use passmower.Prelude.{
  ℕ, ◌+◌, ◌*◌, String, Option, none, some, Bool, true, false, not, List, [], ◌∷◌, ◌++◌, ◌==◌, ◌||◌,
  ◌&&◌, ltb, nat_eq, truthy, same_text, get_or, if◌then◌else◌,
}

-- A lease's spec; a lease without one has nothing set.
pub record LeaseSpec : Type 0 where
  pub holder_identity : Option String
  pub lease_duration_seconds : Option ℕ
  pub acquire_time : Option ℕ
  pub renew_time : Option ℕ
  pub lease_transitions : Option ℕ

-- The resource version travels with the object that `{...lease, spec}` copies.
pub record Lease : Type 0 where
  pub version : ℕ
  pub spec : LeaseSpec

-- The body of `createLease`, or of `replaceLease` with the version that it was read at.
pub data Request : Type 0 where
  create : LeaseSpec → Request
  replace : ℕ → LeaseSpec → Request

-- What the API server answers: `getLease` turns a 404 into undefined and throws the rest.
pub data ReadReply : Type 0 where
  absent : ReadReply
  found : Lease → ReadReply
  read_failed : ℕ → ReadReply

pub data WriteReply : Type 0 where
  done : WriteReply
  write_failed : ℕ → WriteReply

pub data Call : Type 0 where
  started stopped : Call

pub record Config : Type 0 where
  pub identity : String
  pub lease_duration_seconds : ℕ
  pub renew_deadline_seconds : ℕ

pub record Elector : Type 0 where
  pub leading : Bool
  pub timer : Bool  -- an interval is set
  pub last_renewed_at : Option ℕ
  pub is_stopped : Bool

-- `now()` at the places of one tick that read it.
pub record Clock : Type 0 where
  pub at_read : ℕ
  pub at_write : ℕ
  pub after_write : ℕ

pub record Outcome : Type 0 where
  pub elector : Elector
  pub request : Option Request
  pub calls : List Call
  pub thrown : Option ℕ

abbrev quiet : Elector → Outcome
quiet e = record { elector = e; request = none; calls = []; thrown = none }

pub start_leading : Elector → Outcome
start_leading e = if e.leading then quiet e else record {
  elector = record e { leading = true };
  request = none;
  calls = started ∷ [];
  thrown = none;
}

pub stop_leading : Elector → Outcome
stop_leading e =
    if e.leading
    then record {
      elector = record e { leading = false };
      request = none;
      calls = stopped ∷ [];
      thrown = none;
    }
    else quiet e

-- Missing permissions: run the operators without an election.
abbrev is_forbidden : ℕ → Bool
is_forbidden code = nat_eq code 403 || nat_eq code 401

pub handle_api_error : ℕ → Elector → Outcome
unfolding start_leading
handle_api_error code e =
    if is_forbidden code
    then start_leading (record e { timer = false })
    else record { elector = e; request = none; calls = []; thrown = some code }

abbrev past_deadline : Config → ℕ → Option ℕ → Bool
past_deadline c now none = true
past_deadline c now (some t) = ltb (t + c.renew_deadline_seconds * 1000) now

pub fail_renewal : Config → ℕ → Elector → Outcome
unfolding stop_leading
fail_renewal c now e =
    if not e.leading
    then quiet e
    else if past_deadline c now e.last_renewed_at
    then stop_leading e
    else quiet e

pub expired : Config → ℕ → LeaseSpec → Bool
expired c now l = if not (truthy l.holder_identity) then true else elim l.renew_time [
  | none ↦ true
  | some t ↦ ltb (t + get_or l.lease_duration_seconds c.lease_duration_seconds * 1000) now
]

abbrev with_request : Request → Outcome → Outcome
with_request r o = record o { request = some r }

-- A second step of the same tick: its calls come after those of the first, and it is not reached
-- if the first one throws.
abbrev and_then : Outcome → (Elector → Outcome) → Outcome
and_then o next = elim o.thrown [
  | some code ↦ o
  | none ↦
      let p = next o.elector in
      record {
        elector = p.elector;
        request = p.request;
        calls = o.calls ++ p.calls;
        thrown = p.thrown;
      }
]

abbrev transitions_of : Option Lease → ℕ
transitions_of none = 0
transitions_of (some l) = get_or l.spec.lease_transitions 0

abbrev acquire_spec : Config → ℕ → Option Lease → LeaseSpec
acquire_spec c now existing = record {
  holder_identity = some c.identity;
  lease_duration_seconds = some c.lease_duration_seconds;
  acquire_time = some now;
  renew_time = some now;
  lease_transitions = some (transitions_of existing + 1);
}

abbrev acquire_request : Config → ℕ → Option Lease → Request
acquire_request c now none = create (acquire_spec c now none)
acquire_request c now (some l) = replace l.version (acquire_spec c now (some l))

pub acquired : ℕ → WriteReply → Elector → Outcome
unfolding start_leading stop_leading handle_api_error
acquired after done e = start_leading (record e { last_renewed_at = some after })
acquired after (write_failed code) e =
    if nat_eq code 409 then stop_leading e else handle_api_error code e

pub acquire : Config → Clock → WriteReply → Option Lease → Elector → Outcome
unfolding acquired
acquire c k reply existing e =
    with_request (acquire_request c k.at_write existing) (acquired k.after_write reply e)

abbrev renew_spec : Config → ℕ → LeaseSpec → LeaseSpec
renew_spec c now s = record s {
  renew_time = some now;
  lease_duration_seconds = some c.lease_duration_seconds;
}

pub renewed : Config → ℕ → WriteReply → Elector → Outcome
unfolding start_leading handle_api_error fail_renewal
renewed c after done e = start_leading (record e { last_renewed_at = some after })
renewed c after (write_failed code) e =
    if nat_eq code 409
    then fail_renewal c after e
    else and_then (handle_api_error code e) (fail_renewal c after)

pub renew : Config → Clock → WriteReply → Lease → Elector → Outcome
unfolding renewed
renew c k reply l e =
    with_request (replace l.version (renew_spec c k.at_write l.spec))
      (renewed c k.after_write reply e)

pub after_read : Config → Clock → WriteReply → ReadReply → Elector → Outcome
unfolding acquire renew expired stop_leading handle_api_error
after_read c k reply absent e = acquire c k reply none e
after_read c k reply (read_failed code) e = handle_api_error code e
after_read c k reply (found l) e =
    if same_text l.spec.holder_identity (some c.identity)
    then renew c k reply l e
    else if expired c k.at_read l.spec
    then acquire c k reply (some l) e
    else stop_leading e

-- One pass; the write's answer is used only if there is a write.
pub tick : Config → Clock → ReadReply → WriteReply → Elector → Outcome
unfolding after_read
tick c k read reply e = if e.is_stopped then quiet e else after_read c k reply read e

abbrev released : LeaseSpec → LeaseSpec
released s = record s { holder_identity = none; renew_time = none }

abbrev release_request : Config → ReadReply → Option Request
release_request c absent = none
release_request c (read_failed code) = none
release_request c (found l) =
    if same_text l.spec.holder_identity (some c.identity)
    then some (replace l.version (released l.spec))
    else none

-- Errors of the release are logged and go no further.
pub stop : Config → ReadReply → Elector → Outcome
unfolding stop_leading
stop c read e =
    let e' = record e { is_stopped = true; timer = false } in
    if not e.leading
    then quiet e'
    else record (stop_leading e') { request = release_request c read }
