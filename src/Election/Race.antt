-- ===== src/Election/Race.antt =====
-- Two pods that read the same lease, against the API server's optimistic concurrency. A refused write is a
-- conflict here; the other errors are in Election.Takeover.
use passmower.Prelude.{
  is_some, nat_eq, ℕ, Option, none, some, Bool, true, false, ◌≡◌, ◌≢◌, refl, ◌∙◌, ap, arith,
}
use passmower.Election.{
  Config, Clock, Lease, LeaseSpec, Request, create, replace, ReadReply, absent, found, WriteReply,
  done, write_failed, Elector, Outcome, tick,
}

-- What the algorithm relies on: an accepted write gives the lease a version it did not have
-- before, and a write is refused if the lease is no longer the one it was based on.
pub record LeaseApi : Type 1 where
  pub State : Type 0
  pub read : State → Option Lease
  pub write : State → Request → Option State
  pub create_once :
      (s : State) (l : Lease) (x : LeaseSpec) → read s ≡ some l → write s (create x) ≡ none
  pub replace_absent :
      (s : State) (v : ℕ) (x : LeaseSpec) → read s ≡ none → write s (replace v x) ≡ none
  pub replace_stale :
      (s : State) (l : Lease) (v : ℕ) (x : LeaseSpec)
      → read s ≡ some l
      → l.version ≢ v
      → write s (replace v x) ≡ none
  pub read_after :
      (s : State) (r : Request) (t : State) → write s r ≡ some t → is_some (read t) ≡ true
  pub new_version :
      (s : State) (r : Request) (t : State) (l m : Lease)
      → write s r ≡ some t
      → read s ≡ some l
      → read t ≡ some m
      → m.version ≢ l.version

-- The read that a request is made from.
abbrev based_on : Option Lease → Request → Bool
based_on none (create x) = true
based_on none (replace v x) = false
based_on (some l) (create x) = false
based_on (some l) (replace v x) = nat_eq l.version v

abbrev to_reply : Option Lease → ReadReply
to_reply none = absent
to_reply (some l) = found l

based_on_all : Option Lease → Option Request → Bool
based_on_all l none = true
based_on_all l (some r) = based_on l r

request-based_on :
    (c : Config) (k : Clock) (l : Option Lease) (e : Elector)
    → based_on_all l (tick c k (to_reply l) done e).request ≡ true
unfolding tick based_on_all
request-based_on c k none e = ground arith
request-based_on c k (some l) e = ground arith

refused-leading :
    (d : Config) (j : Clock) (l : Option Lease) (f : Elector)
    → f.leading ≡ false
    → (tick d j (to_reply l) (write_failed 409) f).elector.leading ≡ false
unfolding tick
refused-leading d j none f h = ground arith
refused-leading d j (some l) f h = ground arith

silent-leading :
    (d : Config) (j : Clock) (l : Option Lease) (reply : WriteReply) (f : Elector)
    → f.leading ≡ false
    → (tick d j (to_reply l) done f).request ≡ none
    → (tick d j (to_reply l) reply f).elector.leading ≡ false
unfolding tick
silent-leading d j none done f h n = ground arith
silent-leading d j none (write_failed x) f h n = ground arith
silent-leading d j (some l) done f h n = ground arith
silent-leading d j (some l) (write_failed x) f h n = ground arith

module _ (api : LeaseApi) where
  abbrev pub reading : api.State → ReadReply
  reading s = to_reply (api.read s)

  -- The write that a tick makes after reading `s`; it does not depend on the answer.
  abbrev pub request_at : Config → Clock → api.State → Elector → Option Request
  request_at c k s e = (tick c k (reading s) done e).request

  abbrev pub written_at : Option Request → api.State → Option api.State
  written_at none s = none
  written_at (some r) s = api.write s r

  abbrev pub answer : Option api.State → WriteReply
  answer none = write_failed 409
  answer (some t) = done

  -- A tick that reads `s` and whose write reaches the server in the state `t`.
  abbrev pub tick_at : Config → Clock → api.State → api.State → Elector → Outcome
  tick_at c k s t e = tick c k (reading s) (answer (written_at (request_at c k s e) t)) e

  abbrev kept : Option api.State → api.State → api.State
  kept none s = s
  kept (some t) s = t

  abbrev pub state_after : Config → Clock → api.State → Elector → api.State
  state_after c k s e = kept (written_at (request_at c k s e) s) s

  second_refused :
      (s t : api.State) (r q : Request) (l m : Option Lease)
      → api.read s ≡ l
      → api.read t ≡ m
      → based_on l q ≡ true
      → api.write s r ≡ some t
      → api.write t q ≡ none
  second_refused s t r q l none h g b w = ground (arith, api.read_after s r t w)
  second_refused s t r (create x) none (some m) h g b w = api.create_once t m x g
  second_refused s t r (replace v x) none (some m) h g b w = cc
  second_refused s t r (create x) (some l) (some m) h g b w = cc
  second_refused s t r (replace v x) (some l) (some m) h g b w =
      api.replace_stale t m v x g (λ e. api.new_version s r t l m w h g (ground (arith, e, b)))

  based_on_at :
      (d : Config) (j : Clock) (s : api.State) (f : Elector) (q : Request)
      → request_at d j s f ≡ some q
      → based_on (api.read s) q ≡ true
  unfolding based_on_all
  based_on_at d j s f q h = ground (arith, h, request-based_on d j (api.read s) f)

  loser-leading :
      (d : Config) (j : Clock) (s t : api.State) (r : Request) (f : Elector)
      → api.write s r ≡ some t
      → f.leading ≡ false
      → (q : Option Request) → request_at d j s f ≡ q
      → (tick_at d j s t f).elector.leading ≡ false
  loser-leading d j s t r f w i none h = silent-leading d j (api.read s) _ f i h
  loser-leading d j s t r f w i (some q) h = rw (
    h,
    second_refused s t r q _ _ refl refl (based_on_at d j s f q h) w,
    refused-leading d j (api.read s) f i,
  )

  winner-leading :
      (c d : Config) (k j : Clock) (s : api.State) (e f : Elector)
      → e.leading ≡ false
      → (tick_at c k s s e).elector.leading ≡ true
      → f.leading ≡ false
      → (r : Option Request) → request_at c k s e ≡ r
      → (t : Option api.State) → written_at r s ≡ t
      → (tick_at d j s (state_after c k s e) f).elector.leading ≡ false
  winner-leading c d k j s e f h g i none x t y =
      cc (g, silent-leading c k (api.read s) (answer (written_at (request_at c k s e) s)) e h x)
  winner-leading c d k j s e f h g i (some r) x none y =
      cc (g, x, y, refused-leading c k (api.read s) e h)
  winner-leading c d k j s e f h g i (some r) x (some t) y =
      ap (λ u. (tick_at d j s u f).elector.leading)
        (ap (λ o. kept (written_at o s) s) x ∙ ap (λ o. kept o s) y)
      ∙ loser-leading d j s t r f y i _ refl

  -- Of two pods that read the same lease at most one has its write accepted: if the first pod
  -- comes to lead by its tick, the second pod, whose tick read the same lease and writes after
  -- the first, does not lead, unless it led before.
  pub one_winner :
      (c d : Config) (k j : Clock) (s : api.State) (e f : Elector)
      → e.leading ≡ false
      → (tick_at c k s s e).elector.leading ≡ true
      → f.leading ≡ false
      → (tick_at d j s (state_after c k s e) f).elector.leading ≡ false
  one_winner c d k j s e f h g i = winner-leading c d k j s e f h g i _ refl _ refl
