-- ===== src/Status/Primary.antt =====
-- The addresses of the intended status of an account.
use mathlib.Core.List.{map-append}
use passmower.Prelude.{
  String, Option, none, some, Bool, true, false, List, [], ◌∷◌, ◌++◌, ◌==◌, ◌||◌, ◌≡◌, inl, inr,
  refl, sym, ap, ◌∙◌, any, any-append, same_text→≡, ==→≡, dedup, find, find_passes, filter_map, map,
  contains, contains-dedup, truthy, same_text, is_true, arith, eq_iff, eq_refl, Bool-cases,
  Option-cases,
}
use passmower.Settings.{Settings}
use passmower.Account.{Account, UpstreamEmail}
use passmower.Ownership.{EmailText, canonicalize_email, flat_emails, get_claimed_emails}
use passmower.Status.{
  email_domain, first_truthy, email_of, primary_of, first_of, fallback_email, intended_emails,
  preferred_email, intended_primary_email, get_intended_status,
}

contains-filter_map :
    {A : Type 0} (f : A → Option String) (e : String) (xs : List A)
    → contains e (filter_map f xs) ≡ any (λ x. same_text (f x) (some e)) xs
contains-filter_map f e [] = refl
contains-filter_map f e (x ∷ xs) = ground (arith, Option-cases (f x), contains-filter_map f e xs)

any_source :
    (x y z p q r s github upstream : Bool)
    → (x || (y || (z || (p || (q || (r || (s || false))))))) ≡ true
    → (p ≡ true → github ≡ true)
    → (q ≡ true → github ≡ true)
    → (r ≡ true → upstream ≡ true)
    → (s ≡ true → upstream ≡ true)
    → (x || (y || (z || (github || upstream)))) ≡ true
any_source true y z p q r s github upstream h f g i j = refl
any_source false true z p q r s github upstream h f g i j = refl
any_source false false true p q r s github upstream h f g i j = refl
any_source false false false true q r s github upstream h f g i j = ground (arith, f refl)
any_source false false false false true r s github upstream h f g i j = ground (arith, g refl)
any_source false false false false false true s github upstream h f g i j = ground (arith, i refl)
any_source false false false false false false s github upstream h f g i j = ground (arith, h, j)

found_in :
    (p : String → Bool) (xs : List String) {x : String} → find p xs ≡ some x → contains x xs ≡ true
found_in p [] {x} h = absurd (ground (arith, h))
found_in p (y ∷ ys) {x} h = elim (Bool-cases (p y)) [
  | inl k ↦ ground (arith, k, h, eq_iff y x)
  | inr k ↦ ground (arith, found_in p ys {x = x} (ground (arith, k, h)))
]

find_some :
    (p : String → Bool) (e : String) (xs : List String)
    → p e ≡ true
    → contains e xs ≡ true
    → (x : String) × (find p xs ≡ some x)
find_some p e [] h k = absurd (ground (arith, k))
find_some p e (y ∷ ys) h k = elim (Bool-cases (p y)) [
  | inl q ↦ (y, ground (arith, q))
  | inr q ↦
      let differs : (y == e) ≡ false = elim (Bool-cases (y == e)) [
        | inl same ↦ absurd (ground (arith, ap p (==→≡ y e same), q, h))
        | inr other ↦ other
      ] in
      let (x, found) = find_some p e ys h (ground (arith, k, differs)) in
      (x, ground (arith, q, found))
]

module _ (t : EmailText) (e : String) where
  abbrev gives : Option String → Bool
  gives x = same_text (canonicalize_email t x) (some e)

  gives-first_truthy :
      (xs : List (Option String)) → gives (first_truthy xs) ≡ true → any gives xs ≡ true
  unfolding canonicalize_email
  gives-first_truthy [] h = h
  gives-first_truthy (x ∷ xs) h = elim (Bool-cases (truthy x)) [
    | inl k ↦ ground (arith, k, h)
    | inr k ↦ ground (arith, gives-first_truthy xs (ground (arith, k, h)))
  ]

  gives-find :
      (p : UpstreamEmail → Bool) (es : List UpstreamEmail)
      → gives (email_of (find p es)) ≡ true
      → any gives (map (λ (u : UpstreamEmail). u.email) es) ≡ true
  unfolding canonicalize_email
  gives-find p [] h = h
  gives-find p (u ∷ es) h = elim (Bool-cases (p u)) [
    | inl k ↦ ground (arith, k, h)
    | inr k ↦ ground (arith, gives-find p es (ground (arith, k, h)))
  ]

  gives-fallback_email :
      (a : Account) → gives (fallback_email a) ≡ true → contains e (intended_emails t a) ≡ true
  unfolding fallback_email intended_emails
  gives-fallback_email a h =
      (let github = map (λ (u : UpstreamEmail). u.email) a.github.emails in
        let upstream = map (λ (u : UpstreamEmail). u.email) (flat_emails a.identities) in
        let all = a.spec.email ∷ a.spec.company_email ∷ a.passmower.email ∷ (github ++ upstream) in
        let sources =
          a.spec.email
          ∷ a.spec.company_email
          ∷ a.passmower.email
          ∷ primary_of a.github.emails
          ∷ first_of a.github.emails
          ∷ primary_of (flat_emails a.identities)
          ∷ first_of (flat_emails a.identities)
          ∷ [] in
        let given : any gives sources ≡ true = gives-first_truthy sources h in
        let one =
          any_source (gives a.spec.email) (gives a.spec.company_email) (gives a.passmower.email)
            (gives (primary_of a.github.emails)) (gives (first_of a.github.emails))
            (gives (primary_of (flat_emails a.identities)))
            (gives (first_of (flat_emails a.identities))) (any gives github) (any gives upstream)
            given (gives-find (λ (u : UpstreamEmail). is_true u.primary) a.github.emails)
            (gives-find (λ (u : UpstreamEmail). truthy u.email) a.github.emails)
            (gives-find (λ (u : UpstreamEmail). is_true u.primary) (flat_emails a.identities))
            (gives-find (λ (u : UpstreamEmail). truthy u.email) (flat_emails a.identities)) in
        let some_gives : any gives all ≡ true = rw (any-append gives github upstream) one in
        contains-dedup e (filter_map (canonicalize_email t) all)
        ∙ (contains-filter_map (canonicalize_email t) e all ∙ some_gives))

  preferred-contains :
      (d : Option String) (emails : List String)
      → preferred_email t d emails ≡ some e
      → contains e emails ≡ true
  unfolding preferred_email
  preferred-contains none emails h = absurd (ground (arith, h))
  preferred-contains (some d) emails h = elim (Bool-cases (d == "")) [
    | inl k ↦ absurd (ground (arith, k, h))
    | inr k ↦
        found_in (λ x. same_text (email_domain x) (some (t.to_lower_case d))) emails
          (ground (arith, k, h))
  ]

module _ (t : EmailText) (provider_mode : String → Option String) where
  -- The addresses of the intended status are those that the account claims, in the same order.
  pub intended_emails-get_claimed_emails :
      (s : Settings) (document : Option String) (a : Account)
      → (get_intended_status t provider_mode s document a).emails ≡ get_claimed_emails t a
  unfolding get_intended_status intended_emails get_claimed_emails
  intended_emails-get_claimed_emails s document a =
      ap
        (λ (xs : List (Option String)). dedup (
          filter_map (canonicalize_email t)
            (a.spec.email ∷ a.spec.company_email ∷ a.passmower.email ∷ xs)))
        (sym
          (map-append (λ (u : UpstreamEmail). u.email) a.github.emails (flat_emails a.identities)))

  -- The primary address of the intended status is one that the account claims.
  pub primary_email-IsClaimed :
      (s : Settings) (document : Option String) (a : Account) (e : String)
      → (get_intended_status t provider_mode s document a).primary_email ≡ some e
      → contains e (get_claimed_emails t a) ≡ true
  unfolding get_intended_status intended_primary_email
  primary_email-IsClaimed s document a e h =
      (let same = ap (contains e) (sym (intended_emails-get_claimed_emails s document a)) in
        same
        ∙ elim (Option-cases (preferred_email t s.preferred_email_domain (intended_emails t a))) [
          | inl k ↦ gives-fallback_email t e a (ground (arith, k, h, eq_refl e))
          | inr (x, k) ↦
              preferred-contains t e s.preferred_email_domain (intended_emails t a)
                (ground (arith, k, h))
        ])

  -- Where a preferred domain is set and a claimed address has it, in lower case, the primary address of
  -- the intended status has it.
  pub primary_email-is_preferred :
      (s : Settings) (document : Option String) (a : Account) (d e : String)
      → s.preferred_email_domain ≡ some d
      → (d == "") ≡ false
      → contains e (get_claimed_emails t a) ≡ true
      → email_domain e ≡ some (t.to_lower_case d)
      → (x : String) × ((get_intended_status t provider_mode s document a).primary_email ≡ some x)
        × (email_domain x ≡ some (t.to_lower_case d))
  unfolding get_intended_status intended_primary_email preferred_email
  primary_email-is_preferred s document a d e is_set full claims has_it =
      (let p = λ (x : String). same_text (email_domain x) (some (t.to_lower_case d)) in
        let passes : p e ≡ true = ground (arith, has_it, eq_refl (t.to_lower_case d)) in
        let (x, is_x) =
          find_some p e (intended_emails t a) passes
            (ap (contains e) (intended_emails-get_claimed_emails s document a) ∙ claims) in
        (
          x,
          ground (arith, is_set, full, is_x),
          same_text→≡ (email_domain x) (t.to_lower_case d)
              (find_passes p (intended_emails t a) x is_x),
        ))
