-- ===== src/Access/Policy.antt =====
-- The access decision as a whole (utils/user/check-account-access.js), against a description by
-- what must hold of the account.
use passmower.Prelude.{
  ap, ◌∙◌, ==→≡, Option-cases, String, Option, none, some, ◌≡◌, ◌↔◌, refl, true, false, List, [],
  ◌∷◌, ◌⊎◌, inl, inr, contains, map, truthy, any, is_empty, arith, Bool-cases, ◌&&◌, eq_iff,
}
use passmower.Settings.{Settings}
use passmower.Account.{Account, display_name, is_admin}
use passmower.Access.{
  account_banned, login_type_allowed, ClientAccess, get_account_access_failure, approved_check,
  tos_required, check_account_groups, can_impersonate_account,
}

-- What a client asks of an account: nothing, or to be listed, or to hold a listed group.
abbrev MayUse : ClientAccess → Account → Type 0
MayUse c a =
    ((c.allowed_users ≡ []) × (c.allowed_groups ≡ []))
    ⊎ (contains a.account_id c.allowed_users ≡ true)
    ⊎ ((g : String) × (contains g c.allowed_groups ≡ true)
        × (contains g (map display_name a.groups) ≡ true))

pub record MaySignIn (s : Settings) (c : ClientAccess) (a : Account) (document : Option String)
    : Type 0 where
  pub person : (a.spec.kind ≡ none) ⊎ (a.spec.kind ≡ some "person")
  pub trusted : (is_admin s a ≡ true) ⊎ (approved_check s a ≡ true)
  pub named : truthy a.profile_name ≡ true
  pub agreed : tos_required (some a) document ≡ false
  pub client : MayUse c a

held_listed :
    (a : Account) (gs : List String)
    → any (λ g. contains g (map display_name a.groups)) gs ≡ true
    → (g : String) × (contains g gs ≡ true) × (contains g (map display_name a.groups) ≡ true)
held_listed a [] h = cc
held_listed a (g ∷ gs) h = elim (Bool-cases (contains g (map display_name a.groups))) [
  | inl e ↦ (g, ground (arith, eq_iff g g), e)
  | inr e ↦ let (g', p, q) = held_listed a gs (ground (arith, e, h)) in (g', ground (arith, p), q)
]

listed_held :
    (a : Account) (gs : List String) (g : String)
    → contains g gs ≡ true
    → contains g (map display_name a.groups) ≡ true
    → any (λ g. contains g (map display_name a.groups)) gs ≡ true
listed_held a [] g p q = cc
listed_held a (x ∷ gs) g p q = ground (arith, eq_iff x g, listed_held a gs g)

is_empty→≡ : (xs : List String) → is_empty xs ≡ true → xs ≡ []
is_empty→≡ [] h = refl
is_empty→≡ (x ∷ xs) h = cc

check_account_groups→MayUse :
    (c : ClientAccess) (a : Account) → check_account_groups c a ≡ true → MayUse c a
unfolding check_account_groups
check_account_groups→MayUse c a h =
    elim (Bool-cases (is_empty c.allowed_users && is_empty c.allowed_groups)) [
      | inl e ↦
          inl
            (is_empty→≡ c.allowed_users (ground arith), is_empty→≡ c.allowed_groups (ground arith))
      | inr e ↦ elim (Bool-cases (contains a.account_id c.allowed_users)) [
        | inl l ↦ inr (inl l)
        | inr l ↦ inr (inr (held_listed a c.allowed_groups (rw (e, l) at h)))
      ]
    ]

MayUse→check_account_groups :
    (c : ClientAccess) (a : Account) → MayUse c a → check_account_groups c a ≡ true
unfolding check_account_groups
MayUse→check_account_groups c a (inl m) = rw (m.0, m.1)
MayUse→check_account_groups c a (inr (inl m)) = ground arith
MayUse→check_account_groups c a (inr (inr (g, p, q))) =
    ground (arith, listed_held a c.allowed_groups g p q)

allowed_person :
    (a : Account)
    → login_type_allowed false a.spec.kind ≡ true
    → (a.spec.kind ≡ none) ⊎ (a.spec.kind ≡ some "person")
allowed_person a h = elim (Option-cases a.spec.kind) [
  | inl e ↦ inl e
  | inr (t, e) ↦ inr (e ∙ ap some (==→≡ t "person" (ground (arith, e, h))))
]

-- `getAccountAccessFailure` finds nothing exactly for an account that is a person (or has no
-- type), is an administrator or approved, has a name, has accepted the current terms where that is
-- asked of it, and is one the client admits: a client with no lists admits everybody, any other
-- one the users it lists and the holders of a group it lists.
pub get_account_access_failure-MaySignIn :
    (s : Settings) (c : ClientAccess) (a : Account) (document : Option String)
    → (get_account_access_failure s c (some a) document ≡ none) ↔ MaySignIn s c a document
unfolding get_account_access_failure
get_account_access_failure-MaySignIn s c a document = (
  λ h. record {
    person = allowed_person a (ground arith);
    trusted = ground arith;
    named = ground arith;
    agreed = ground arith;
    client = check_account_groups→MayUse c a (ground arith);
  },
  λ m.
      ground
        (arith, MayUse→check_account_groups c a m.client, m.person, m.trusted, m.named, m.agreed),
)

-- A banned account is refused at every client and may not be impersonated, whatever else holds.
pub banned-refused :
    (s : Settings) (c : ClientAccess) (a : Account) (document : Option String)
    → a.spec.kind ≡ some "banned"
    → (get_account_access_failure s c (some a) document ≡ some account_banned)
      × (can_impersonate_account (some a) ≡ false)
unfolding get_account_access_failure can_impersonate_account
banned-refused s c a document h = (rw h, rw h)
