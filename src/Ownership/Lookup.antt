-- ===== src/Ownership/Lookup.antt =====
-- The lookups of an account by its addresses and by a stable identity.
use passmower.Prelude.{
  String, Option, none, some, ◌≡◌, refl, sym, ◌∙◌, Bool, true, false, not, List, [], ◌∷◌, ◌==◌,
  ◌||◌, eq_iff, ==→≡, lookup, filter, filter_map, any, contains, arith, inl, inr, Bool-cases,
}
use passmower.Account.{Account}
use passmower.Ownership.{
  EmailText, Ownership, IntegrityError, ok, different_users, attached_to_multiple, candidates,
  distinct_accounts, is_eligible, canonicalize_email, find_user_by_emails,
  find_unique_stable_identity, single,
}
use passmower.Ownership.Eligible.{claims_email, ownership, eligible_owns, unowned_unclaimed}

any_without :
    (q : String → Bool) (id : String) (xs : List Account)
    → (q id
        || any
            (λ (b : Account). q b.account_id)
            (filter (λ (b : Account). not (b.account_id == id)) xs))
      ≡ (q id || any (λ (b : Account). q b.account_id) xs)
any_without q id [] = refl
any_without q id (x ∷ xs) = ground (arith, any_without q id xs, eq_iff x.account_id id)

-- Taking each account once keeps what holds of the names.
any-distinct_accounts :
    (q : String → Bool) (xs : List Account)
    → any (λ (b : Account). q b.account_id) (distinct_accounts xs)
      ≡ any (λ (b : Account). q b.account_id) xs
unfolding distinct_accounts
any-distinct_accounts q [] = refl
any-distinct_accounts q (x ∷ xs) =
    ground (arith, any_without q x.account_id (distinct_accounts xs), any-distinct_accounts q xs)

any-filter_map_owner :
    (q : Account → Bool) (owners : String → Option Account) (e : String) (es : List String)
    (o : Account)
    → contains e es ≡ true
    → owners e ≡ some o
    → q o ≡ true
    → any q (filter_map owners es) ≡ true
any-filter_map_owner q owners e [] o h k m = cc
any-filter_map_owner q owners e (x ∷ es) o h k m =
    ground (arith, eq_iff x e, any-filter_map_owner q owners e es o)

none_owner :
    (owners : String → Option Account) (e : String) (es : List String)
    → contains e es ≡ true
    → filter_map owners es ≡ []
    → owners e ≡ none
none_owner owners e [] h k = cc
none_owner owners e (x ∷ es) h k = ground (arith, eq_iff x e, none_owner owners e es)

distinct_accounts-nil : (xs : List Account) → distinct_accounts xs ≡ [] → xs ≡ []
unfolding distinct_accounts
distinct_accounts-nil [] h = refl
distinct_accounts-nil (x ∷ xs) h = cc

module _ (t : EmailText) where
  single-some :
      (o : Ownership) (several : IntegrityError) (a : Account) (xs : List Account)
      → single t o several xs ≡ ok (some a)
      → (xs ≡ a ∷ []) × (is_eligible o a ≡ true)
  single-some o several a [] h = cc
  single-some o several a (x ∷ []) h = ground arith
  single-some o several a (x ∷ y ∷ xs) h = cc

  single-none :
      (o : Ownership) (several : IntegrityError) (xs : List Account)
      → single t o several xs ≡ ok none
      → xs ≡ []
  single-none o several [] h = refl
  single-none o several (x ∷ []) h = absurd (ground arith)
  single-none o several (x ∷ y ∷ xs) h = cc

  -- The account that `findUserByEmails` returns is eligible, and no other eligible account claims
  -- any of the incoming addresses.
  pub find_user_by_emails_sound :
      (accounts : List Account) (emails : List (Option String)) (a b : Account) (e : String)
      → find_user_by_emails t accounts emails ≡ ok (some a)
      → contains e (filter_map (canonicalize_email t) emails) ≡ true
      → is_eligible (ownership t accounts) b ≡ true
      → claims_email t accounts b.account_id e ≡ true
      → (is_eligible (ownership t accounts) a ≡ true) × (a.account_id ≡ b.account_id)
  unfolding find_user_by_emails candidates
  find_user_by_emails_sound accounts emails a b e h inc hb kb =
      let own = ownership t accounts in
      let (only, fit) = single-some own different_users a (candidates t own emails) h in
      let (o, owned, same) = eligible_owns t accounts b e hb kb in
      (fit, the_owner own o only owned ∙ same)
    where
      owners_in : Ownership → List Account
      owners_in own =
          filter_map (λ x. lookup x own.owners) (filter_map (canonicalize_email t) emails)

      differs : String → Bool
      differs id = not (id == a.account_id)

      the_owner :
          (own : Ownership) (o : Account)
          → distinct_accounts (owners_in own) ≡ a ∷ []
          → lookup e own.owners ≡ some o
          → a.account_id ≡ o.account_id
      the_owner own o only owned = elim (Bool-cases (differs o.account_id)) [
        | inl d ↦ absurd (
            ground (
              arith,
              eq_iff a.account_id a.account_id,
              only,
              any-filter_map_owner (λ (x : Account). differs x.account_id)
                  (λ x. lookup x own.owners) e (filter_map (canonicalize_email t) emails) o inc
                  owned d,
              any-distinct_accounts differs (owners_in own),
            ))
        | inr d ↦ sym (==→≡ o.account_id a.account_id (ground (arith, d)))
      ]

  -- Where it returns nobody, no account claims any of the incoming addresses.
  pub find_user_by_emails_complete :
      (accounts : List Account) (emails : List (Option String)) (id e : String)
      → find_user_by_emails t accounts emails ≡ ok none
      → contains e (filter_map (canonicalize_email t) emails) ≡ true
      → claims_email t accounts id e ≡ false
  unfolding find_user_by_emails candidates
  find_user_by_emails_complete accounts emails id e h inc = unowned_unclaimed t accounts id e (
      none_owner (λ x. lookup x (ownership t accounts).owners) e _ inc
        (distinct_accounts-nil _ (single-none (ownership t accounts) different_users _ h)))

  -- A stable identity (an OIDC subject, a GitHub id) resolves to an account only if that account
  -- alone has the identity, and it is eligible.
  pub find_unique_stable_identity_sound :
      (predicate : Account → Bool) (accounts : List Account) (a : Account)
      → find_unique_stable_identity t predicate accounts ≡ ok (some a)
      → (filter predicate accounts ≡ a ∷ []) × (is_eligible (ownership t accounts) a ≡ true)
  unfolding find_unique_stable_identity
  find_unique_stable_identity_sound predicate accounts a h =
      single-some (ownership t accounts) attached_to_multiple a (filter predicate accounts) h
