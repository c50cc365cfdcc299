-- ===== src/Election/Renewal.antt =====
-- The renewal of a lease by the pod that holds it, and the errors that it meets.
use passmower.Prelude.{
  ℕ, some, Bool, true, false, not, List, [], ◌∷◌, ◌&&◌, ◌≡◌, refl, ◌∙◌, ap, arith, same_text, all,
  nat_eq,
}
use passmower.Election.{
  Config, Clock, Lease, absent, found, read_failed, done, write_failed, Elector, tick, is_forbidden,
  past_deadline,
}
use passmower.Election.Calls.{Event, ticks, stops, react, run}

-- A pod that leads, reads its own lease and is told of a conflict leads on exactly if its last
-- renewal is within the renew deadline.
pub conflict_waits :
    (c : Config) (k : Clock) (l : Lease) (e : Elector)
    → same_text l.spec.holder_identity (some c.identity) ≡ true
    → e.is_stopped ≡ false
    → e.leading ≡ true
    → (tick c k (found l) (write_failed 409) e).elector.leading
      ≡ not (past_deadline c k.after_write e.last_renewed_at)
unfolding tick
conflict_waits c k l e h s g = ground arith

-- A pod that may not renew its own lease any more ends the tick without a timer, and leads
-- afterwards exactly if its last renewal is within the renew deadline.
pub forbidden_renewal :
    (c : Config) (k : Clock) (l : Lease) (code : ℕ) (e : Elector)
    → same_text l.spec.holder_identity (some c.identity) ≡ true
    → is_forbidden code ≡ true
    → e.is_stopped ≡ false
    → ((tick c k (found l) (write_failed code) e).elector.timer ≡ false)
      × ((tick c k (found l) (write_failed code) e).elector.leading
          ≡ not (past_deadline c k.after_write e.last_renewed_at))
unfolding tick
forbidden_renewal c k l code e h b s = (ground arith, ground arith)

-- A tick of a pod that cannot reach the API server: the read fails, or the write of a renewal,
-- for another reason than a conflict or missing permissions.
abbrev pub is_cut_off : Config → Event → Bool
is_cut_off c (ticks k absent reply) = false
is_cut_off c (ticks k (read_failed code) reply) = not (is_forbidden code)
is_cut_off c (ticks k (found l) done) = false
is_cut_off c (ticks k (found l) (write_failed code)) =
    same_text l.spec.holder_identity (some c.identity)
    && not (is_forbidden code)
    && not (nat_eq code 409)
is_cut_off c (stops read) = false

react-is_cut_off :
    (c : Config) (x : Event) (e : Elector) → is_cut_off c x ≡ true → (react c x e).elector ≡ e
unfolding tick
react-is_cut_off c (ticks k absent reply) e h = cc
react-is_cut_off c (ticks k (read_failed code) reply) e h = ground arith
react-is_cut_off c (ticks k (found l) done) e h = cc
react-is_cut_off c (ticks k (found l) (write_failed code)) e h = ground arith
react-is_cut_off c (stops read) e h = cc

-- Ticks that cannot reach the API server change nothing, however many there are and however much
-- time passes between them: a pod that leads goes on leading past its renew deadline.
pub run-is_cut_off :
    (c : Config) (xs : List Event) (e : Elector) → all (is_cut_off c) xs ≡ true → run c xs e ≡ e
unfolding run
run-is_cut_off c [] e h = refl
run-is_cut_off c (x ∷ xs) e h =
    ap (run c xs) (react-is_cut_off c x e (ground (arith, h)))
    ∙ run-is_cut_off c xs e (ground (arith, h))
