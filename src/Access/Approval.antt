-- ===== src/Access/Approval.antt =====
-- Approving an account (conditions/approved.js).
use passmower.Prelude.{
  String, some, ◌≡◌, sym, Bool, true, ◌∷◌, [], ◌++◌, any, concat, js_text, ◌==◌, eq_iff,
  concat-strip_prefix, any-append, arith, ◌⊎◌, inl, inr, Option-cases, ap, ◌∙◌,
}
use text.Mathlib.TextLemmas.{append_assoc}
use passmower.Settings.{Settings}
use passmower.Account.{Account, Group, display_name}
use passmower.Access.{approved_check, approve, local_name}

-- Whatever REQUIRED_GROUP, GROUP_PREFIX and ADMIN_GROUP name, an account that was approved passes
-- the approval check.
pub approved_check-approve : (s : Settings) (a : Account) → approved_check s (approve s a) ≡ true
unfolding approved_check approve
approved_check-approve s a = ground arith

-- What is granted beside the approval is REQUIRED_GROUP.
local_name-display :
    (s : Settings) (n : String)
    → local_name s ≡ some n
    → s.required_group ≡ some (display_name (record { prefix = s.group_prefix; name = n }))
local_name-display s n h = elim (Option-cases s.required_group) [
  | inl e ↦ absurd (ground (arith, e, h))
  | inr (r, e) ↦
      e
      ∙ ap some (
          sym (concat-strip_prefix (concat (js_text s.group_prefix) ":") r (ground (arith, e, h)))
          ∙ append_assoc (js_text s.group_prefix) ":" n)
]

abbrev pub holds_custom : String → Account → Bool
holds_custom t a = any (λ g. display_name g == t) a.passmower.groups

-- Approving grants no group but REQUIRED_GROUP itself, and leaves the groups that the upstream
-- providers gave as they were: a group of Passmower that the account holds afterwards it held
-- before, or it is REQUIRED_GROUP.
pub approve-grants :
    (s : Settings) (a : Account) (t : String)
    → holds_custom t (approve s a) ≡ true
    → (holds_custom t a ≡ true) ⊎ (s.required_group ≡ some t)
unfolding approve
approve-grants s a t h = elim (Option-cases (local_name s)) [
  | inl e ↦ inl (rw e at h)
  | inr (n, e) ↦ granted n (local_name-display s n e) (rw e at h)
]
  where
    granted :
        (n : String)
        → s.required_group ≡ some (display_name (record { prefix = s.group_prefix; name = n }))
        → any
            (λ (g : Group). display_name g == t)
            (a.passmower.groups ++ record { prefix = s.group_prefix; name = n } ∷ [])
          ≡ true
        → (holds_custom t a ≡ true) ⊎ (s.required_group ≡ some t)
    granted n q k = ground (
      arith,
      any-append (λ (g : Group). display_name g == t) a.passmower.groups
          (record { prefix = s.group_prefix; name = n } ∷ []),
      eq_iff (display_name (record { prefix = s.group_prefix; name = n })) t,
    )
