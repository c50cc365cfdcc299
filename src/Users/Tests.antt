-- ===== src/Users/Tests.antt =====
-- Runs of the user service.
use passmower.Prelude.{none, some, List, [], ◌∷◌, ◌==◌, ◌≡◌, refl}
use passmower.Account.{Account, Passkey}
use passmower.Ownership.{Conflict, assess_email_ownership, is_eligible}
use passmower.Fixtures.{email_text, anna, carl}
use passmower.Users.{not_found, remove_passkey, verdict, conflicts_of}
use passmower.Users.Uniqueness.{verdict-is_eligible}

abbrev phone : Passkey
phone = record { id = "k1"; name = none; counter = 0; public_key = "p" }

abbrev laptop : Passkey
laptop = record { id = "k2"; name = some "laptop"; counter = 3; public_key = "q" }

abbrev keyed : Account
keyed = record anna { passkeys = phone ∷ [] }

missing_passkey : remove_passkey "k9" (some keyed) ≡ not_found
unfolding remove_passkey
missing_passkey = refl

abbrev taken : List Conflict
taken = record { email = "a@x"; owner_account_id = "anna" } ∷ []

verdict-is_eligible_example :
    let o = assess_email_ownership email_text (anna ∷ carl ∷ []) in
    ((verdict (conflicts_of o carl)).status == "True") ≡ is_eligible o carl
verdict-is_eligible_example = verdict-is_eligible email_text (anna ∷ carl ∷ []) carl
