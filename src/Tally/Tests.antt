-- ===== src/Tally/Tests.antt =====
-- Runs of the counted records.
use passmower.Prelude.{none, List, [], ◌∷◌, ◌≡◌, refl}
use passmower.Session.Table.{table}
use passmower.Tally.{AccessRequest, Store, incident_ttl_seconds}
use passmower.Tally.Counts.{Ask}

abbrev requests : Store (table AccessRequest)
requests = record { records = []; index = "anna:wiki" ∷ "bob:wiki" ∷ [] }

abbrev visits : List Ask
visits =
    record { account_id = "anna"; client_id = "wiki"; allowed_groups = none; now = 3 }
    ∷ record { account_id = "bob"; client_id = "wiki"; allowed_groups = none; now = 4 }
    ∷ record { account_id = "anna"; client_id = "wiki"; allowed_groups = none; now = 9 }
    ∷ []

week : incident_ttl_seconds none ≡ 604800
unfolding incident_ttl_seconds
week = refl
