-- ===== src/Election/Calls.antt =====
-- The operators are started and stopped in turn.
use passmower.Prelude.{
  ℕ, Option, none, some, Bool, true, false, List, [], ◌∷◌, ◌++◌, ◌≡◌, refl, ◌∙◌, arith,
}
use passmower.Election.{
  Config, Clock, ReadReply, absent, found, read_failed, WriteReply, done, write_failed, Call,
  started, stopped, Elector, Outcome, acquired, renewed, after_read, tick, stop,
}

-- Whether the operators run after the calls, if they may be made in this order.
abbrev pub follows : Bool → List Call → Option Bool
follows running [] = some running
follows false (started ∷ cs) = follows true cs
follows true (stopped ∷ cs) = follows false cs
follows false (stopped ∷ cs) = none
follows true (started ∷ cs) = none

-- One thing that happens to a pod's elector.
pub data Event : Type 0 where
  ticks : Clock → ReadReply → WriteReply → Event
  stops : ReadReply → Event

abbrev pub react : Config → Event → Elector → Outcome
react c (ticks k read reply) e = tick c k read reply e
react c (stops read) e = stop c read e

unfoldable pub run : Config → List Event → Elector → Elector
run c [] e = e
run c (x ∷ xs) e = run c xs (react c x e).elector

pub calls_of : Config → List Event → Elector → List Call
calls_of c [] e = []
calls_of c (x ∷ xs) e = (react c x e).calls ++ calls_of c xs (react c x e).elector

abbrev Sound : Bool → Outcome → Type 0
Sound running o = follows running o.calls ≡ some o.elector.leading

acquired-Sound : (n : ℕ) (r : WriteReply) (e : Elector) → Sound e.leading (acquired n r e)
unfolding acquired
acquired-Sound n done e = ground arith
acquired-Sound n (write_failed code) e = ground arith

renewed-Sound :
    (c : Config) (n : ℕ) (r : WriteReply) (e : Elector) → Sound e.leading (renewed c n r e)
unfolding renewed
renewed-Sound c n done e = ground arith
renewed-Sound c n (write_failed code) e = ground arith

after_read-Sound :
    (c : Config) (k : Clock) (reply : WriteReply) (read : ReadReply) (e : Elector)
    → Sound e.leading (after_read c k reply read e)
unfolding after_read
after_read-Sound c k reply absent e = acquired-Sound k.after_write reply e
after_read-Sound c k reply (read_failed code) e = ground arith
after_read-Sound c k reply (found l) e =
    ground (arith, acquired-Sound k.after_write reply e, renewed-Sound c k.after_write reply e)

react-Sound : (c : Config) (x : Event) (e : Elector) → Sound e.leading (react c x e)
unfolding tick stop
react-Sound c (ticks k read reply) e = ground (arith, after_read-Sound c k reply read e)
react-Sound c (stops read) e = ground arith

follows-append :
    (b b' : Bool) (xs ys : List Call)
    → follows b xs ≡ some b'
    → follows b (xs ++ ys) ≡ follows b' ys
follows-append b b' [] ys h = ground arith
follows-append false b' (started ∷ xs) ys h = follows-append true b' xs ys h
follows-append true b' (stopped ∷ xs) ys h = follows-append false b' xs ys h
follows-append false b' (stopped ∷ xs) ys h = cc
follows-append true b' (started ∷ xs) ys h = cc

-- Whatever the API server answers and however the clock runs, the starts and stops of the
-- operators alternate, and the operators run afterwards exactly if the pod takes itself for the
-- leader.
pub calls_alternate :
    (c : Config) (xs : List Event) (e : Elector)
    → follows e.leading (calls_of c xs e) ≡ some (run c xs e).leading
unfolding calls_of run
calls_alternate c [] e = refl
calls_alternate c (x ∷ xs) e =
    follows-append e.leading (react c x e).elector.leading (react c x e).calls
      (calls_of c xs (react c x e).elector) (react-Sound c x e)
    ∙ calls_alternate c xs (react c x e).elector
