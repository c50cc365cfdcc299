-- ===== src/Enrollment/Linking.antt =====
-- When a sign-in is linked to an existing account, and when a new account is made.
use passmower.Prelude.{
  String, Option, none, some, ◌≡◌, Bool, true, false, List, map, any, filter_map, ◌⊎◌, Option-cases,
  contains, arith, same_text,
}
use passmower.Settings.{Settings}
use passmower.Account.{Account}
use passmower.Ownership.{EmailText, ok, find_user_by_emails, canonicalize_email}
use passmower.Ownership.Eligible.{claims_email}
use passmower.Ownership.Lookup.{find_user_by_emails_complete}
use passmower.Evidence.{is_email_linkable}
use passmower.Username.{Validator, is_username_valid, get_username_source, sanitize_username}
use passmower.Enrollment.{
  Login, nobody, belongs_to, creates, incoming_emails, linkable_emails, find_by_stable_identity,
  is_proven, resolve, enroll, create_or_update_by_emails,
}

module _ (t : EmailText) (provider_mode : String → Option String) (l : Login)
    (users : List Account) where
  -- A sign-in whose stable identity is not known yet is linked to an existing account only by an
  -- address that the sign-in proves (a magic link, or one that the upstream calls verified) and
  -- that the account may be linked by.
  pub linked_by_proof :
      (a : Account)
      → find_by_stable_identity t l users ≡ ok none
      → resolve t provider_mode l users ≡ belongs_to a
      → any (λ e. is_email_linkable t provider_mode (some e) a) (linkable_emails t l) ≡ true
  unfolding resolve is_proven
  linked_by_proof a h r = ground arith

  -- A known stable identity decides: the sign-in is that account's, or it is blocked; an address
  -- never takes it to another account.
  pub stable_identity_decides :
      (u a : Account)
      → find_by_stable_identity t l users ≡ ok (some u)
      → resolve t provider_mode l users ≡ belongs_to a
      → a ≡ u
  unfolding resolve
  stable_identity_decides u a h r = ground arith

  resolve-nobody :
      resolve t provider_mode l users ≡ nobody
      → (find_by_stable_identity t l users ≡ ok none)
        × (find_user_by_emails t users (map some (incoming_emails t l)) ≡ ok none)
  unfolding resolve
  resolve-nobody h = ground arith

module _ (t : EmailText) (provider_mode : String → Option String) (v : Validator) (s : Settings)
    (available : String → Bool) (uid : String) (l : Login) (users : List Account) where
  -- A new account is made only if no account has the sign-in's stable identity and none claims any
  -- of its addresses.
  pub created_fresh :
      (id other e : String)
      → create_or_update_by_emails t v s available uid provider_mode l users ≡ creates id
      → contains e (filter_map (canonicalize_email t) (map some (incoming_emails t l))) ≡ true
      → (find_by_stable_identity t l users ≡ ok none) × (claims_email t users other e ≡ false)
  unfolding create_or_update_by_emails
  created_fresh id other e h inc =
      let (stable, mail) = resolve-nobody t provider_mode l users (ground (arith, h)) in
      (
        stable,
        find_user_by_emails_complete t users (map some (incoming_emails t l)) other e mail inc,
      )

  -- The name of a new account is the one that was asked for; or else enrollment is not switched
  -- off, and the name is the generated one or a free one that keeps the rules for usernames.
  pub created_name :
      (id : String)
      → create_or_update_by_emails t v s available uid provider_mode l users ≡ creates id
      → (l.username ≡ some id)
        ⊎ ((same_text s.enroll_users (some "false") ≡ false)
            × ((id ≡ uid) ⊎ ((is_username_valid v (some id) ≡ true) × (available id ≡ true))))
  unfolding create_or_update_by_emails enroll
  created_name id h = ground (
    arith,
    Option-cases l.username,
    Option-cases (get_username_source s),
    Option-cases (sanitize_username t.to_lower_case l.preferred_username),
  )
