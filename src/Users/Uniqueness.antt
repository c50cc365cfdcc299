-- ===== src/Users/Uniqueness.antt =====
-- The condition EmailUnique of an account.
use passmower.Prelude.{
  ℕ, some, Bool, true, not, List, [], ◌∷◌, ◌++◌, ◌==◌, ◌≡◌, refl, ◌∙◌, inl, inr, find, filter,
  is_empty, arith, eq_refl, Bool-cases,
}
use passmower.Account.{Account, Condition}
use passmower.Ownership.{EmailText, Conflict, is_eligible, assess_email_ownership}
use passmower.Ownership.Conflicts.{no_conflicts-is_eligible}
use passmower.Users.{
  is_email_unique, verdict, is_settled, email_unique_condition, set_email_unique, conflicts_of,
  settled, reconcile_account,
}

find-last :
    {A : Type 0} (p : A → Bool) (xs : List A) (y : A)
    → p y ≡ true
    → find p (filter (λ x. not (p x)) xs ++ y ∷ []) ≡ some y
find-last p [] y h = ground (arith, h)
find-last p (x ∷ xs) y h = elim (Bool-cases (p x)) [
  | inl e ↦ rw (e) (find-last p xs y h)
  | inr e ↦ rw (e) (rw (e) (find-last p xs y h))
]

-- A condition that was written from some conflicts is not written again while the conflicts are the same,
-- whatever the conditions were before.
pub reconcile_account-again :
    (conflicts : List Conflict) (updated : Bool) (now : ℕ) (conditions : List Condition)
    → reconcile_account updated conflicts (set_email_unique (verdict conflicts) now conditions)
      ≡ settled
unfolding reconcile_account is_settled set_email_unique
reconcile_account-again conflicts updated now conditions =
    (let v = verdict conflicts in
      let last =
        find-last is_email_unique conditions (email_unique_condition v now conditions) refl in
      rw (last) (ground (arith, eq_refl v.status, eq_refl v.reason, eq_refl v.message)))

verdict-is_empty : (cs : List Conflict) → ((verdict cs).status == "True") ≡ is_empty cs
unfolding verdict
verdict-is_empty [] = refl
verdict-is_empty (c ∷ cs) = refl

-- The condition that an account is to have says True exactly for the accounts that are eligible.
pub verdict-is_eligible :
    (t : EmailText) (accounts : List Account) (a : Account)
    → let o = assess_email_ownership t accounts in
      ((verdict (conflicts_of o a)).status == "True") ≡ is_eligible o a
verdict-is_eligible t accounts a =
    verdict-is_empty (conflicts_of (assess_email_ownership t accounts) a)
    ∙ no_conflicts-is_eligible t accounts a
