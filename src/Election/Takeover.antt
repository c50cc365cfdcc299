-- ===== src/Election/Takeover.antt =====
-- When a pod writes its name into the lease, and when it leads.
use passmower.Prelude.{
  eq_refl, ◌||◌, ℕ, ◌+◌, ◌*◌, ◌≤◌, String, Option, none, some, Bool, true, false, ◌==◌, ◌≡◌, arith,
  same_text, get_or,
}
use passmower.Election.{
  Config, Clock, Lease, LeaseSpec, Request, create, replace, ReadReply, absent, found, read_failed,
  WriteReply, done, write_failed, Elector, stop_leading, expired, tick, stop, is_forbidden,
}

-- The lease names another pod, whose last renewal is no older than the lease's duration.
pub record IsHeldByOther (c : Config) (now : ℕ) (l : Lease) : Type 0 where
  pub holder : String
  pub renewed_at : ℕ
  pub named : l.spec.holder_identity ≡ some holder
  pub present : (holder == "") ≡ false
  pub other : (holder == c.identity) ≡ false
  pub stamped : l.spec.renew_time ≡ some renewed_at
  pub live : now ≤ renewed_at + get_or l.spec.lease_duration_seconds c.lease_duration_seconds * 1000

-- A pod that reads a live lease of another pod writes nothing and does not lead afterwards.
pub live_lease_respected :
    (c : Config) (k : Clock) (l : Lease) (reply : WriteReply) (e : Elector)
    → IsHeldByOther c k.at_read l
    → e.is_stopped ≡ false
    → ((tick c k (found l) reply e).request ≡ none)
      × ((tick c k (found l) reply e).elector.leading ≡ false)
unfolding tick stop_leading expired
live_lease_respected c k l reply e h s =
    ground (arith, h.named, h.present, h.other, h.stamped, h.live)

-- A write of the pod's own name that the API server accepted.
abbrev pub claims_lease : Config → Option Request → WriteReply → Bool
claims_lease c (some (create s)) done = same_text s.holder_identity (some c.identity)
claims_lease c (some (replace v s)) done = same_text s.holder_identity (some c.identity)
claims_lease c none reply = false
claims_lease c (some r) (write_failed code) = false

abbrev pub refused_read : ReadReply → Bool
refused_read absent = false
refused_read (found l) = false
refused_read (read_failed code) = is_forbidden code

abbrev pub refused_write : WriteReply → Bool
refused_write done = false
refused_write (write_failed code) = is_forbidden code

-- A pod comes to lead by a tick only if the API server accepted a lease that names the pod, or
-- refused its access to leases.
pub leads_by_lease :
    (c : Config) (k : Clock) (read : ReadReply) (reply : WriteReply) (e : Elector)
    → e.leading ≡ false
    → (tick c k read reply e).elector.leading ≡ true
    → (claims_lease c (tick c k read reply e).request reply
        || refused_read read
        || refused_write reply)
      ≡ true
unfolding tick
leads_by_lease c k absent done e h g = ground (arith, eq_refl c.identity)
leads_by_lease c k absent (write_failed code) e h g = ground arith
leads_by_lease c k (read_failed code) reply e h g = ground arith
leads_by_lease c k (found l) done e h g = ground (arith, eq_refl c.identity)
leads_by_lease c k (found l) (write_failed code) e h g = ground arith

-- A lease that was handed back is free: a pod that is not stopped, reads it and has its write
-- accepted leads at once, whatever the time is.
pub released_is_taken :
    (c d : Config) (k : Clock) (l : Lease) (e f : Elector) (v v' : ℕ) (s : LeaseSpec)
    → (stop c (found l) e).request ≡ some (replace v s)
    → f.is_stopped ≡ false
    → (tick d k (found (record { version = v'; spec = s })) done f).elector.leading ≡ true
unfolding stop stop_leading tick
released_is_taken c d k l e f v v' s h i = ground arith
