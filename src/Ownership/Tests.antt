-- ===== src/Ownership/Tests.antt =====
-- Runs of the lookups, and the theorems at three accounts of which two claim one address.
use passmower.Prelude.{String, Option, none, some, ◌≡◌, refl, Bool, List, [], ◌∷◌, same_text}
use passmower.Account.{Account}
use passmower.Fixtures.{email_text, anna, bob, carl}
use passmower.Ownership.{
  Found, ok, error, different_users, find_user_by_emails, find_unique_stable_identity,
  assess_email_ownership, candidates, is_eligible, canonicalize_email, get_claimed_emails,
  account_order, claims_from, claim_emails, claim_email, owners_from, conflicts_from, add_conflicts,
  add_conflict, distinct_accounts,
}
use passmower.Ownership.Eligible.{eligible_disjoint}

abbrev users : List Account
users = carl ∷ bob ∷ anna ∷ []

-- Opening this opens all that a lookup computes with.
look_up : List (Option String) → Found
unfolding find_user_by_emails assess_email_ownership candidates is_eligible canonicalize_email
    get_claimed_emails account_order claims_from claim_emails claim_email owners_from conflicts_from
    add_conflicts add_conflict distinct_accounts find_unique_stable_identity
look_up = find_user_by_emails email_text users

found_bob : look_up (some "b@x" ∷ []) ≡ ok (some bob)
unfolding look_up
found_bob = refl

-- The address of `anna` was claimed by `carl` too: the older account owns it, and only the younger
-- one is in conflict.
older_owns : look_up (some "a@x" ∷ []) ≡ ok (some anna)
unfolding look_up
older_owns = refl

different : look_up (some "a@x" ∷ some "b@x" ∷ []) ≡ error different_users
unfolding look_up
different = refl

nobody_found : look_up (some "c@x" ∷ []) ≡ ok none
unfolding look_up
nobody_found = refl

eligible_disjoint_example : bob.account_id ≡ bob.account_id
unfolding look_up
eligible_disjoint_example = eligible_disjoint email_text users bob bob "b@x" refl refl refl refl

abbrev is_bob : Account → Bool
is_bob a = same_text (some a.account_id) (some "bob")
