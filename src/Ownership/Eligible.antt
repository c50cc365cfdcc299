-- ===== src/Ownership/Eligible.antt =====
-- What it means that an account is eligible: it owns every address that it claims.
use passmower.Prelude.{
  String, Option, none, some, ◌≡◌, refl, sym, ◌∙◌, Bool, true, false, List, [], ◌∷◌, ◌==◌, ◌&&◌,
  ◌||◌, eq_iff, Assoc, lookup, lookup-insert, has, has-insert, keys, get_or, or_else, filter, any,
  contains, contains-keys, IsDistinct, head?, tail, sort_by, any-sort_by, arith, ==→≡,
}
use passmower.Account.{Account}
use passmower.Ownership.{
  EmailText, Ownership, owners_from, add_conflict, add_conflicts, conflicts_from, is_eligible,
  claims_from, get_claimed_emails, account_order, assess_email_ownership,
}
use passmower.Ownership.Claims.{claimants-claims_from, keys-claims_from}

abbrev named : String → Account → Bool
named id a = a.account_id == id

has-add_conflicts :
    (id e owner : String) (ds : List Account) (m : Assoc (List _))
    → has id (add_conflicts e owner m ds) ≡ (has id m || any (named id) ds)
unfolding add_conflicts add_conflict
has-add_conflicts id e owner [] m = ground arith
has-add_conflicts id e owner (d ∷ ds) m =
    has-add_conflicts id e owner ds (add_conflict e owner m d.account_id)
    ∙ rw has-insert (ground arith)

-- An account is in conflict exactly if some address lists it after the first claimant.
has-conflicts_from :
    (id : String) (claims : Assoc (List Account)) (m : Assoc (List _))
    → has id (conflicts_from m claims) ≡ (has id m || any (λ c. any (named id) (tail c.1)) claims)
unfolding conflicts_from
has-conflicts_from id [] m = ground arith
has-conflicts_from id ((e, []) ∷ claims) m = has-conflicts_from id claims m
has-conflicts_from id ((e, o ∷ ds) ∷ claims) m =
    has-conflicts_from id claims (add_conflicts e o.account_id m ds)
    ∙ ground (arith, has-add_conflicts id e o.account_id ds m)

-- The owner of an address is its first claimant.
lookup-owners_from :
    (e : String) (claims : Assoc (List Account)) (m : Assoc Account)
    → IsDistinct (keys claims)
    → lookup e (owners_from m claims) ≡ or_else (head? (get_or (lookup e claims) [])) (lookup e m)
unfolding owners_from
lookup-owners_from e [] m h = refl
lookup-owners_from e ((x, []) ∷ claims) m h =
    lookup-owners_from e claims m h.1 ∙ ground (arith, contains-keys e claims, eq_iff x e)
lookup-owners_from e ((x, o ∷ ds) ∷ claims) m h =
    lookup-owners_from e claims _ h.1
    ∙ ground (arith, lookup-insert x e o m, contains-keys e claims, eq_iff x e)

conflicted_entry :
    (id e : String) (claims : Assoc (List Account))
    → any (λ c. any (named id) (tail c.1)) claims ≡ false
    → any (named id) (tail (get_or (lookup e claims) [])) ≡ false
conflicted_entry id e [] h = refl
conflicted_entry id e ((x, c) ∷ claims) h = ground (arith, conflicted_entry id e claims)

any-filter :
    (p q : Account → Bool) (xs : List Account) → any q (filter p xs) ≡ any (λ a. q a && p a) xs
any-filter p q [] = refl
any-filter p q (x ∷ xs) = ground (arith, any-filter p q xs)

or_else-none : (o : Option Account) → or_else o none ≡ o
or_else-none none = refl
or_else-none (some a) = refl

head?-none : (q : Account → Bool) (xs : List Account) → head? xs ≡ none → any q xs ≡ false
head?-none q [] h = refl
head?-none q (x ∷ xs) h = cc

first_named :
    (id : String) (xs : List Account)
    → any (named id) xs ≡ true
    → any (named id) (tail xs) ≡ false
    → (o : Account) × (head? xs ≡ some o) × (o.account_id ≡ id)
first_named id [] h k = cc
first_named id (x ∷ xs) h k = (x, refl, ==→≡ x.account_id id (ground arith))

module _ (t : EmailText) (accounts : List Account) where
  -- An account of that name claims the address.
  abbrev pub claims_email : String → String → Bool
  claims_email id e = any (λ a. a.account_id == id && contains e (get_claimed_emails t a)) accounts

  abbrev pub ownership : Ownership
  ownership = assess_email_ownership t accounts

  abbrev claims : Assoc (List Account)
  claims = claims_from t [] (sort_by (account_order t) accounts)

  claims-IsDistinct : IsDistinct (keys claims)
  claims-IsDistinct = keys-claims_from t (sort_by (account_order t) accounts) [] tt

  pub claimants_of :
      (e : String)
      → get_or (lookup e claims) []
        ≡ filter (λ a. contains e (get_claimed_emails t a)) (sort_by (account_order t) accounts)
  claimants_of e = claimants-claims_from t e (sort_by (account_order t) accounts) []

  pub lookup-owners :
      (e : String)
      → lookup e ownership.owners
        ≡ head?
            (filter (λ a. contains e (get_claimed_emails t a)) (sort_by (account_order t) accounts))
  unfolding assess_email_ownership
  lookup-owners e =
      lookup-owners_from e claims [] claims-IsDistinct ∙ rw (claimants_of e) (or_else-none _)

  claimed_listed :
      (id e : String) → any (named id) (get_or (lookup e claims) []) ≡ claims_email id e
  claimed_listed id e = rw (claimants_of e) (
      any-filter (λ a. contains e (get_claimed_emails t a)) (named id) _
      ∙ any-sort_by (λ a. named id a && contains e (get_claimed_emails t a)) (account_order t)
          accounts)

  -- An eligible account owns every address that it claims.
  pub eligible_owns :
      (a : Account) (e : String)
      → is_eligible ownership a ≡ true
      → claims_email a.account_id e ≡ true
      → (o : Account) × (lookup e ownership.owners ≡ some o) × (o.account_id ≡ a.account_id)
  unfolding assess_email_ownership is_eligible
  eligible_owns a e h k =
      let (o, first, same) =
        first_named a.account_id (get_or (lookup e claims) []) (claimed_listed a.account_id e ∙ k) (
          conflicted_entry a.account_id e claims
            (ground (arith, has-conflicts_from a.account_id claims []))) in
      (o, lookup-owners_from e claims [] claims-IsDistinct ∙ rw first, same)

  -- Two accounts that are both eligible have no address in common.
  pub eligible_disjoint :
      (a b : Account) (e : String)
      → is_eligible ownership a ≡ true
      → is_eligible ownership b ≡ true
      → claims_email a.account_id e ≡ true
      → claims_email b.account_id e ≡ true
      → a.account_id ≡ b.account_id
  eligible_disjoint a b e ha hb ka kb =
      let (o, p, q) = eligible_owns a e ha ka in
      let (o', p', q') = eligible_owns b e hb kb in ground (arith, p, p', q, q')

  -- An address has an owner exactly if some account claims it.
  pub unowned_unclaimed :
      (id e : String) → lookup e ownership.owners ≡ none → claims_email id e ≡ false
  unowned_unclaimed id e h =
      sym (claimed_listed id e)
      ∙ head?-none (named id) (get_or (lookup e claims) [])
          (rw (claimants_of e) (sym (lookup-owners e) ∙ h))
