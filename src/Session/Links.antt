-- ===== src/Session/Links.antt =====
-- The one-time links of an impersonation.
use passmower.Prelude.{
  String, Option, none, some, Bool, true, false, ◌==◌, ◌≡◌, inl, inr, refl, lookup, lookup-insert,
  arith, eq_refl, ==→≡, Bool-cases, Option-cases,
}
use passmower.Account.{Account}
use passmower.Access.{can_impersonate_account}
use passmower.Session.{
  Records, Impersonation, Cookies, link, create_impersonation, activate_found,
  activate_impersonation, get_impersonation, end_impersonation,
}

module _ (r : Records Impersonation) where
  -- What happens to the records beside the link `jti`: other links are made, any link is opened, and
  -- impersonations end.
  pub data Step (jti : String) (s : r.State) : r.State → Type 0 where
    creates :
        (url j actor id : String) (found : Option Account)
        → (j == jti) ≡ false
        → Step jti s (create_impersonation r url j actor id found s).1
    activates :
        (cookie j : String) (cookies : Cookies)
        → Step jti s (activate_impersonation r cookie j cookies s).2
    stops :
        (i x a : String) (cookies : Cookies) → Step jti s (end_impersonation r i x a cookies s).1

  pub data Steps (jti : String) (s : r.State) : r.State → Type 0 where
    stays : Steps jti s s
    goes : (u v : r.State) → Steps jti s u → Step jti u v → Steps jti s v

  -- The record of a link is gone or says that it was activated.
  abbrev spent_record : Option Impersonation → Bool
  spent_record none = true
  spent_record (some i) = i.activated

  abbrev spent : String → r.State → Bool
  spent jti s = spent_record (r.find jti s)

  spent-upsert :
      (jti j : String) (i : Impersonation) (s : r.State)
      → i.activated ≡ true
      → spent jti s ≡ true
      → spent jti (r.upsert j i s) ≡ true
  spent-upsert jti j i s a h = elim (Bool-cases (j == jti)) [
    | inl e ↦ ground (arith, a, ==→≡ j jti e, r.find-upsert j i s)
    | inr e ↦ ground (arith, h, r.find-upsert_other j jti i s e)
  ]

  spent-destroy :
      (jti j : String) (s : r.State) → spent jti s ≡ true → spent jti (r.destroy j s) ≡ true
  spent-destroy jti j s h = elim (Bool-cases (j == jti)) [
    | inl e ↦ ground (arith, ==→≡ j jti e, r.find-destroy j s)
    | inr e ↦ ground (arith, h, r.find-destroy_other j jti s e)
  ]

  spent-create :
      (jti url j actor id : String) (found : Option Account) (s : r.State)
      → (j == jti) ≡ false
      → spent jti s ≡ true
      → spent jti (create_impersonation r url j actor id found s).1 ≡ true
  unfolding create_impersonation
  spent-create jti url j actor id none s e h = h
  spent-create jti url j actor id (some a) s e h =
      elim (Bool-cases (can_impersonate_account (some a))) [
        | inl c ↦ rw (c) (
            ground (
              arith,
              h,
              r.find-upsert_other j jti
                  (record { jti = j; actor = actor; account_id = id; activated = false }) s e,
            ))
        | inr c ↦ rw (c) h
      ]

  spent-activate :
      (jti cookie j : String) (found : Option Impersonation) (cookies : Cookies) (s : r.State)
      → spent jti s ≡ true
      → spent jti (activate_found r cookie j found cookies s).2 ≡ true
  unfolding activate_found
  spent-activate jti cookie j none cookies s h = h
  spent-activate jti cookie j (some i) cookies s h = elim (Bool-cases i.activated) [
    | inl c ↦ rw (c) h
    | inr c ↦ rw (c) (spent-upsert jti j (record i { activated = true }) s refl h)
  ]

  Step-spent :
      (jti : String) (u v : r.State) → spent jti u ≡ true → Step jti u v → spent jti v ≡ true
  unfolding activate_impersonation end_impersonation
  Step-spent jti u _ h (creates url j actor id found e) =
      spent-create jti url j actor id found u e h
  Step-spent jti u _ h (activates cookie j cookies) =
      spent-activate jti cookie j (r.find j u) cookies u h
  Step-spent jti u _ h (stops i x a cookies) = elim (Option-cases (lookup i cookies)) [
    | inl e ↦ rw (e, end_impersonation) h
    | inr (j, e) ↦ rw (e, end_impersonation) (spent-destroy jti j u h)
  ]

  Steps-spent :
      (jti : String) (u v : r.State) → spent jti u ≡ true → Steps jti u v → spent jti v ≡ true
  Steps-spent jti u _ h stays = h
  Steps-spent jti u _ h (goes v w run step) = Step-spent jti v w (Steps-spent jti u v h run) step

  activate-spends :
      (cookie jti : String) (found : Option Impersonation) (cookies : Cookies) (s : r.State)
      (i : Impersonation)
      → (activate_found r cookie jti found cookies s).0 ≡ some i
      → spent jti (activate_found r cookie jti found cookies s).2 ≡ true
  unfolding activate_found
  activate-spends cookie jti none cookies s i h = absurd (ground (arith, h))
  activate-spends cookie jti (some k) cookies s i h = elim (Bool-cases k.activated) [
    | inl c ↦ absurd (ground (arith, c, h))
    | inr c ↦ rw (c) (ground (arith, r.find-upsert jti (record k { activated = true }) s))
  ]

  activate-refuses :
      (cookie jti : String) (found : Option Impersonation) (cookies : Cookies) (s : r.State)
      → spent_record found ≡ true
      → (activate_found r cookie jti found cookies s).0 ≡ none
  unfolding activate_found
  activate-refuses cookie jti none cookies s h = refl
  activate-refuses cookie jti (some i) cookies s h = ground (arith, h)

  -- Once a link was activated, no later activation of it succeeds, whatever links are made beside it,
  -- whichever are opened and whichever impersonations end in between, each of these in one go.
  pub one_time_link :
      (cookie jti : String) (cookies later : Cookies) (s u : r.State) (i : Impersonation)
      → (activate_impersonation r cookie jti cookies s).0 ≡ some i
      → Steps jti (activate_impersonation r cookie jti cookies s).2 u
      → (activate_impersonation r cookie jti later u).0 ≡ none
  unfolding activate_impersonation
  one_time_link cookie jti cookies later s u i h steps =
      activate-refuses cookie jti (r.find jti u) later u
        (Steps-spent jti _ u (activate-spends cookie jti (r.find jti s) cookies s i h) steps)

  -- Two browsers read the record of a link that is not activated before either writes it: both of them
  -- get the impersonation.
  pub both_activate :
      (cookie jti : String) (mine yours : Cookies) (s : r.State) (i : Impersonation)
      → r.find jti s ≡ some i
      → i.activated ≡ false
      → let first = activate_found r cookie jti (r.find jti s) mine s in
        let second = activate_found r cookie jti (r.find jti s) yours first.2 in
        (first.0 ≡ some (record i { activated = true }))
        × (second.0 ≡ some (record i { activated = true }))
  unfolding activate_found
  both_activate cookie jti mine yours s i h a = (ground (arith, h, a), ground (arith, h, a))

  opened_is_held :
      (cookie jti actor id : String) (cookies : Cookies) (s : r.State)
      → (jti == "") ≡ false
      → let made : Impersonation = record {
        jti = jti;
        actor = actor;
        account_id = id;
        activated = false;
      } in
        let opened = activate_impersonation r cookie jti cookies (r.upsert jti made s) in
        get_impersonation r cookie opened.1 opened.2 ≡ some (record made { activated = true })
  unfolding activate_impersonation activate_found get_impersonation
  opened_is_held cookie jti actor id cookies s n =
      (let made : Impersonation = record {
        jti = jti;
        actor = actor;
        account_id = id;
        activated = false;
      } in
        let stored = r.find-upsert jti made s in
        ground (
          arith,
          n,
          stored,
          r.find-upsert jti (record made { activated = true }) (r.upsert jti made s),
          lookup-insert cookie cookie jti cookies,
          eq_refl cookie,
        ))

  -- The link that createImpersonation gives is for an account that exists and whose type may be
  -- impersonated. The browser that then opens it holds, by its cookie, the impersonation of that account by
  -- that administrator.
  pub create-activate-get :
      (url cookie jti actor id : String) (found : Option Account) (cookies : Cookies) (s : r.State)
      (l : String)
      → (create_impersonation r url jti actor id found s).0 ≡ link l
      → (jti == "") ≡ false
      → let opened =
          activate_impersonation r cookie jti cookies
            (create_impersonation r url jti actor id found s).1 in
        (can_impersonate_account found ≡ true)
        × (get_impersonation r cookie opened.1 opened.2
            ≡ some (record { jti = jti; actor = actor; account_id = id; activated = true }))
  unfolding create_impersonation
  create-activate-get url cookie jti actor id none cookies s l h n = absurd (ground (arith, h))
  create-activate-get url cookie jti actor id (some a) cookies s l h n =
      elim (Bool-cases (can_impersonate_account (some a))) [
        | inl c ↦ (c, rw (c) (opened_is_held cookie jti actor id cookies s n))
        | inr c ↦ absurd (ground (arith, c, h))
      ]
