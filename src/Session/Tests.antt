-- ===== src/Session/Tests.antt =====
-- Runs of the sessions.
use passmower.Prelude.{none, some, true, false, [], ◌∷◌, ◌≡◌, refl, Assoc}
use passmower.Access.{can_impersonate_account}
use passmower.Fixtures.{anna}
use passmower.Session.{
  Impersonation, Cookies, create_impersonation, activate_found, activate_impersonation,
  get_impersonation, Lists, get_last_session_info_per_client,
}
use passmower.Session.Table.{table}
use passmower.Session.Links.{creates, Steps, stays, goes, one_time_link, create-activate-get}

abbrev made : Impersonation
made = record { jti = "n1"; actor = "root"; account_id = "anna"; activated = false }

abbrev opened : Impersonation
opened = record made { activated = true }

abbrev stored : Assoc Impersonation
stored = ("n1", made) ∷ []

abbrev spent_table : Assoc Impersonation
spent_table = ("n1", opened) ∷ []

one_link_later :
    Steps
      (table Impersonation)
      "n1"
      (activate_impersonation (table Impersonation) "imp" "n1" [] stored).2
      (create_impersonation
        (table Impersonation)
        "https://x/"
        "n2"
        "root"
        "bob"
        none
        (activate_impersonation (table Impersonation) "imp" "n1" [] stored).2).1
one_link_later = goes _ _ stays (creates "https://x/" "n2" "root" "bob" none refl)

one_time_link_example :
    (activate_impersonation
      (table Impersonation)
      "imp"
      "n1"
      []
      (create_impersonation
        (table Impersonation)
        "https://x/"
        "n2"
        "root"
        "bob"
        none
        (activate_impersonation (table Impersonation) "imp" "n1" [] stored).2).1).0
    ≡ none
unfolding activate_impersonation activate_found
one_time_link_example =
    one_time_link (table Impersonation) "imp" "n1" [] [] stored _ opened refl one_link_later

create-activate-get_example :
    let opened_link =
      activate_impersonation
        (table Impersonation)
        "imp"
        "n1"
        []
        (create_impersonation
          (table Impersonation)
          "https://x/"
          "n1"
          "root"
          "anna"
          (some anna)
          []).1 in
    (can_impersonate_account (some anna) ≡ true)
    × (get_impersonation (table Impersonation) "imp" opened_link.1 opened_link.2 ≡ some opened)
unfolding create_impersonation can_impersonate_account
create-activate-get_example =
    create-activate-get (table Impersonation) "https://x/" "imp" "n1" "root" "anna" (some anna) []
      [] "https://x/impersonate/n1" refl refl

abbrev cookies : Cookies
cookies = ("imp", "n1") ∷ ("session", "s9") ∷ ("admin", "s1") ∷ []

abbrev lists : Lists
lists = record {
  session_uid = ("s1", "u1") ∷ [];
  account_sessions = ("anna", "s1" ∷ "s2" ∷ []) ∷ [];
  uid_sessions = ("u1", "m1" ∷ []) ∷ [];
  metadata = ("m1", record { session_id = "s1"; client_id = some "app"; ts = 4 }) ∷ [];
}

last_session :
    get_last_session_info_per_client "anna" "app" lists
    ≡ some (record { session_id = "s1"; client_id = some "app"; ts = 4 })
unfolding get_last_session_info_per_client
last_session = refl
