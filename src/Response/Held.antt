-- ===== src/Response/Held.antt =====
-- What the claims of an account say of its groups and of its address.
use passmower.Prelude.{
  String, Option, none, some, Bool, true, false, not, List, [], ◌∷◌, ◌==◌, ◌&&◌, ◌≡◌, refl, sym, ap,
  ◌∙◌, inl, inr, Assoc, lookup, insert, lookup-insert, contains, filter, map, is_empty,
  if◌then◌else◌, arith, Bool-cases,
}
use passmower.Account.{Account, display_name}
use passmower.Ownership.{EmailText}
use passmower.Evidence.{is_primary_email_verified}
use passmower.Response.{
  Claim, text, texts, flag, Request, has_word, includes, with_email, with_profile_fields,
  with_profile, with_allowed_groups, with_groups, with_applications, initial_claims, own_claims,
  claims,
}
use passmower.Response.Protected.{claims-own_claims}

contains-filter :
    (n : String) (p : String → Bool) (gs : List String)
    → contains n (filter p gs) ≡ true
    → contains n gs ≡ true
contains-filter n p [] h = h
contains-filter n p (g ∷ gs) h = elim (Bool-cases (p g)) [
  | inl e ↦ ground (arith, e, h, contains-filter n p gs)
  | inr e ↦ ground (arith, contains-filter n p gs (ground (arith, e, h)))
]

empty-contains : (n : String) (xs : List String) → is_empty xs ≡ true → contains n xs ≡ false
empty-contains n [] h = refl
empty-contains n (x ∷ xs) h = absurd (ground (arith, h))

module _ {X : Type 0} where
  insert-other :
      (k key : String) (v : Claim X) (m : Assoc (Claim X))
      → (k == key) ≡ false
      → lookup key (insert k v m) ≡ lookup key m
  insert-other k key v m h = ground (arith, h, lookup-insert k key v m)

  -- Where the two results of a test agree on a key, so does what the test chooses.
  lookup-if :
      (key : String) (b : Bool) (x y : Assoc (Claim X))
      → lookup key x ≡ lookup key y
      → lookup key (if b then x else y) ≡ lookup key y
  lookup-if key true x y h = h
  lookup-if key false x y h = refl

  with_email-kept :
      (r : Request X) (e : Option String) (verified : Bool) (key : String) (m : Assoc (Claim X))
      → ("email_verified" == key) ≡ false
      → ("email" == key) ≡ false
      → lookup key (with_email r e verified m) ≡ lookup key m
  unfolding with_email
  with_email-kept r none verified key m h k = refl
  with_email-kept r (some e) verified key m h k =
      lookup-if key (has_word "email" r.scope && not (e == "")) _ m (
        insert-other "email_verified" key (flag verified) (insert "email" (text e) m) h
        ∙ insert-other "email" key (text e) m k)

  with_profile_fields-kept :
      (a : Account) (key : String) (m : Assoc (Claim X))
      → ("phones" == key) ≡ false
      → ("company" == key) ≡ false
      → ("name" == key) ≡ false
      → lookup key (with_profile_fields a m) ≡ lookup key m
  unfolding with_profile_fields
  with_profile_fields-kept a key m i j k = lookup-if key a.has_profile _ m (
      insert-other "phones" key _ _ i
      ∙ (insert-other "company" key _ _ j ∙ insert-other "name" key _ m k))

  with_profile-kept :
      (r : Request X) (a : Account) (key : String) (m : Assoc (Claim X))
      → ("emails" == key) ≡ false
      → ("phones" == key) ≡ false
      → ("company" == key) ≡ false
      → ("name" == key) ≡ false
      → lookup key (with_profile r a m) ≡ lookup key m
  unfolding with_profile
  with_profile-kept r a key m h i j k =
      lookup-if key (includes "profile" r.scope) _ m
        (insert-other "emails" key _ _ h ∙ with_profile_fields-kept a key m i j k)

  with_applications-kept :
      (r : Request X) (key : String) (m : Assoc (Claim X))
      → ("applications" == key) ≡ false
      → lookup key (with_applications r m) ≡ lookup key m
  unfolding with_applications
  with_applications-kept r key m h =
      lookup-if key (r.is_userinfo && has_word "applications" r.scope) _ m
        (insert-other "applications" key _ m h)

  with_groups-kept :
      (r : Request X) (groups : List String) (key : String) (m : Assoc (Claim X))
      → ("groups" == key) ≡ false
      → lookup key (with_groups r groups m) ≡ lookup key m
  unfolding with_groups
  with_groups-kept r groups key m h =
      lookup-if key (includes " groups" r.scope) _ m (insert-other "groups" key _ m h)

  with_allowed_groups-kept :
      (r : Request X) (groups : List String) (key : String) (m : Assoc (Claim X))
      → ("groups" == key) ≡ false
      → lookup key (with_allowed_groups r groups m) ≡ lookup key m
  unfolding with_allowed_groups
  with_allowed_groups-kept r groups key m h =
      lookup-if key (includes "allowed_groups" r.scope) _ m (insert-other "groups" key _ m h)

  -- A group in the claim is one of `groups`, or was in the claim before.
  with_allowed_groups-contains :
      (r : Request X) (groups : List String) (m : Assoc (Claim X)) (gs : List String) (n : String)
      → lookup "groups" m ≡ none
      → lookup "groups" (with_allowed_groups r groups m) ≡ some (texts gs)
      → contains n gs ≡ true
      → contains n groups ≡ true
  unfolding with_allowed_groups
  with_allowed_groups-contains r groups m gs n before h k =
      elim (Bool-cases (includes "allowed_groups" r.scope)) [
        | inl e ↦ elim (Bool-cases (is_empty r.allowed_groups)) [
          | inl f ↦
              let is_gs : r.allowed_groups ≡ gs =
                ground
                  (arith, e, f, h, lookup-insert "groups" "groups" (texts r.allowed_groups) m) in
              absurd (ground (arith, ap (contains n) is_gs, k, empty-contains n r.allowed_groups f))
          | inr f ↦
              let chosen = filter (λ g. contains g r.allowed_groups) groups in
              let is_gs : chosen ≡ gs =
                ground (arith, e, f, h, lookup-insert "groups" "groups" (texts chosen) m) in
              contains-filter n (λ g. contains g r.allowed_groups) groups
                (ap (contains n) is_gs ∙ k)
        ]
        | inr e ↦ absurd (ground (arith, e, before, h))
      ]

  with_groups-contains :
      (r : Request X) (groups : List String) (m : Assoc (Claim X)) (gs : List String) (n : String)
      → lookup "groups" m ≡ none
      → lookup "groups" (with_groups r groups (with_allowed_groups r groups m)) ≡ some (texts gs)
      → contains n gs ≡ true
      → contains n groups ≡ true
  unfolding with_groups
  with_groups-contains r groups m gs n before h k = elim (Bool-cases (includes " groups" r.scope)) [
    | inl e ↦
        let is_gs : groups ≡ gs = ground (
          arith,
          e,
          h,
          lookup-insert "groups" "groups" (texts groups) (with_allowed_groups r groups m),
        ) in
        ap (contains n) is_gs ∙ k
    | inr e ↦ with_allowed_groups-contains r groups m gs n before (ground (arith, e, h)) k
  ]

  with_email-email :
      (r : Request X) (o : Option String) (verified : Bool) (username : String) (v : Claim X)
      → lookup "email" (with_email r o verified (initial_claims username)) ≡ some v
      → (e : String) × (o ≡ some e)
        × (v ≡ text e)
        × (lookup "email_verified" (with_email r o verified (initial_claims username))
            ≡ some (flag verified))
  unfolding with_email
  with_email-email r none verified username v h = absurd (ground (arith, h))
  with_email-email r (some e) verified username v h =
      elim (Bool-cases (has_word "email" r.scope && not (e == ""))) [
        | inl q ↦ (e, refl, ground (arith, q, h), ground (arith, q))
        | inr q ↦ absurd (ground (arith, q, h))
      ]

  -- The parts after the address leave the claims of the address.
  later-kept :
      (r : Request X) (a : Account) (groups : List String) (key : String) (m : Assoc (Claim X))
      → ("applications" == key) ≡ false
      → ("groups" == key) ≡ false
      → ("emails" == key) ≡ false
      → ("phones" == key) ≡ false
      → ("company" == key) ≡ false
      → ("name" == key) ≡ false
      → lookup key (
          with_applications r
            (with_groups r groups (with_allowed_groups r groups (with_profile r a m))))
        ≡ lookup key m
  later-kept r a groups key m f g h i j k =
      with_applications-kept r key _ f
      ∙ (with_groups-kept r groups key _ g
          ∙ (with_allowed_groups-kept r groups key _ g ∙ with_profile-kept r a key m h i j k))

  module _ (t : EmailText) (provider_mode : String → Option String) where
    -- A group in the groups claim of an account is one that the account has, whatever the webhook answers
    -- and the client maps.
    pub groups_claim_held :
        (r : Request X) (a : Account) (m : Assoc (Claim X)) (gs : List String) (n : String)
        → claims t provider_mode r a ≡ some m
        → lookup "groups" m ≡ some (texts gs)
        → contains n gs ≡ true
        → contains n (map display_name a.groups) ≡ true
    unfolding own_claims
    groups_claim_held r a m gs n h g k =
        (let groups = map display_name a.groups in
          let verified = is_primary_email_verified t provider_mode a in
          let first = with_email r a.primary_email verified (initial_claims a.account_id) in
          let own = sym (claims-own_claims t provider_mode r a m "groups" h refl) ∙ g in
          let before =
            with_profile-kept r a "groups" first refl refl refl refl
            ∙ with_email-kept r a.primary_email verified "groups" (initial_claims a.account_id) refl
                refl in
          with_groups-contains r groups (with_profile r a first) gs n before
            (sym (
                with_applications-kept r "groups"
                  (with_groups r groups (with_allowed_groups r groups (with_profile r a first)))
                  refl)
              ∙ own)
            k)

    -- The claim sub of an account is its name, whatever the webhook answers and the client maps.
    pub sub_claim_true :
        (r : Request X) (a : Account) (m : Assoc (Claim X))
        → claims t provider_mode r a ≡ some m
        → lookup "sub" m ≡ some (text a.account_id)
    unfolding own_claims
    sub_claim_true r a m h =
        (let verified = is_primary_email_verified t provider_mode a in
          let first = with_email r a.primary_email verified (initial_claims a.account_id) in
          claims-own_claims t provider_mode r a m "sub" h refl
          ∙ (later-kept r a (map display_name a.groups) "sub" first refl refl refl refl refl refl
              ∙ with_email-kept r a.primary_email verified "sub" (initial_claims a.account_id) refl
                  refl))

    -- Where the claims of an account have an e-mail address, it is the primary address of the account, and
    -- the claim email_verified says whether the account has verified evidence of it, whatever the webhook
    -- answers and the client maps.
    pub email_claim_true :
        (r : Request X) (a : Account) (m : Assoc (Claim X)) (v : Claim X)
        → claims t provider_mode r a ≡ some m
        → lookup "email" m ≡ some v
        → (e : String) × (a.primary_email ≡ some e)
          × (v ≡ text e)
          × (lookup "email_verified" m ≡ some (flag (is_primary_email_verified t provider_mode a)))
    unfolding own_claims
    email_claim_true r a m v h g =
        (let groups = map display_name a.groups in
          let verified = is_primary_email_verified t provider_mode a in
          let first = with_email r a.primary_email verified (initial_claims a.account_id) in
          let own =
            sym (later-kept r a groups "email" first refl refl refl refl refl refl)
            ∙ (sym (claims-own_claims t provider_mode r a m "email" h refl) ∙ g) in
          let (e, is_e, is_v, is_verified) =
            with_email-email r a.primary_email verified a.account_id v own in
          (
            e,
            is_e,
            is_v,
            claims-own_claims t provider_mode r a m "email_verified" h refl
                ∙ (later-kept r a groups "email_verified" first refl refl refl refl refl refl
                    ∙ is_verified),
          ))
