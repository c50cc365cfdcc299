-- ===== src/ClientSecret/Tests.antt =====
-- Runs of overlapping reconciles, and their theorem at one of them.
use passmower.Prelude.{ℕ, String, none, some, true, false, List, [], ◌∷◌, ◌≡◌, refl, all}
use passmower.ClientSecret.{Client, Move, starting, finished, World, run}
use passmower.ClientSecret.Steps.{agrees, keeps}
use passmower.ClientSecret.Convergence.{run-agrees}

abbrev wiki : Client
wiki = record {
  uses_client_secret = true;
  fields = ("OIDC_CLIENT_ID", "apps-wiki") ∷ [];
  has_refresh_job = false;
}

abbrev call : ℕ → String → Move
call n s = record { pod = n; fresh = s; answered = true }

-- Both reconciles find no Secret; the second one loses the race and adopts the winner's.
abbrev race : List Move
race = call 0 "a" ∷ call 1 "b" ∷ call 0 "a" ∷ call 1 "b" ∷ call 1 "b" ∷ call 1 "b" ∷ []

abbrev before : World
before = record { secret = none; pods = starting false ∷ starting false ∷ [] }

run-agrees_example :
    (keeps none (run wiki race before).secret ≡ true)
    × (all (agrees (run wiki race before).secret) (run wiki race before).pods ≡ true)
run-agrees_example = run-agrees wiki race before refl refl refl refl

both_have_first : (run wiki race before).pods ≡ finished (some "a") ∷ finished (some "a") ∷ []
unfolding run
both_have_first = refl

-- A Secret that a public client left has no client_secret: both reconciles make one of their own.
abbrev was_public : World
was_public = record {
  secret = some (("OIDC_CLIENT_ID", "apps-wiki") ∷ []);
  pods = starting false ∷ starting false ∷ [];
}

switched_to_confidential :
    (run wiki (call 0 "a" ∷ call 1 "b" ∷ call 0 "a" ∷ call 1 "b" ∷ []) was_public).pods
    ≡ finished (some "a") ∷ finished (some "b") ∷ []
unfolding run
switched_to_confidential = refl
