-- ===== src/Enrollment/Tests.antt =====
-- Sign-ins at two accounts.
use passmower.Prelude.{String, Option, none, some, true, false, List, [], ◌∷◌, ◌≡◌, refl, any}
use passmower.Account.{Account}
use passmower.Username.{Validator, get_username_source}
use passmower.Fixtures.{settings, email_text, upstream_email, anna, bob}
use passmower.Ownership.{ok, find_user_by_identity, find_user_by_github_id, find_user_by_emails}
use passmower.Ownership.Eligible.{claims_email}
use passmower.Evidence.{is_email_linkable}
use passmower.Enrollment.{
  Login, Resolution, refused, Outcome, creates, resolve, is_proven, enroll,
  create_or_update_by_emails, find_by_stable_identity, linkable_emails, incoming_emails,
  normalize_github_emails, put_email, put_emails,
}
use passmower.Enrollment.Linking.{linked_by_proof, created_fresh}

abbrev untrusted : String → Option String
untrusted provider = none

abbrev lax : Validator
lax = record { is_length = λ lo hi u. true; is_alphanumeric = λ u. true; is_lowercase = λ u. true }

abbrev users : List Account
users = anna ∷ bob ∷ []

abbrev magic_link : String → Login
magic_link e = record {
  email = some e;
  github_emails = none;
  username = none;
  preferred_username = none;
  identity = record { provider_key = none; subject = none; github_id = none };
}

-- An upstream sign-in that reports an address without verifying it.
abbrev upstream : String → String → Login
upstream sub e = record {
  email = none;
  github_emails = some (upstream_email e none ∷ []);
  username = none;
  preferred_username = none;
  identity = record { provider_key = some "google"; subject = some sub; github_id = none };
}

sign_in : Login → Resolution
unfolding resolve is_proven find_by_stable_identity linkable_emails incoming_emails
    normalize_github_emails put_email put_emails find_user_by_identity find_user_by_github_id
    find_user_by_emails is_email_linkable
sign_in l = resolve email_text untrusted l users

abbrev enter : Login → Outcome
enter l = create_or_update_by_emails email_text lax settings (λ u. true) "u1" untrusted l users

takeover_refused : sign_in (upstream "g-eve" "a@x") ≡ refused
unfolding sign_in
takeover_refused = refl

created : enter (magic_link "c@x") ≡ creates "u1"
unfolding sign_in create_or_update_by_emails enroll get_username_source
created = refl

linked_by_proof_example :
    any
      (λ e. is_email_linkable email_text untrusted (some e) anna)
      (linkable_emails email_text (magic_link "a@x"))
    ≡ true
unfolding sign_in
linked_by_proof_example =
    linked_by_proof email_text untrusted (magic_link "a@x") users anna refl refl

created_fresh_example :
    (find_by_stable_identity email_text (magic_link "c@x") users ≡ ok none)
    × (claims_email email_text users "anna" "c@x" ≡ false)
unfolding sign_in
created_fresh_example =
    created_fresh email_text untrusted lax settings (λ u. true) "u1" (magic_link "c@x") users "u1"
      "anna" "c@x" created refl
