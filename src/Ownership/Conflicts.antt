-- ===== src/Ownership/Conflicts.antt =====
-- The conflicts of an account that is not eligible.
use passmower.Prelude.{
  String, Option, none, some, Bool, true, false, not, List, [], ◌∷◌, ◌++◌, ◌==◌, ◌≡◌, refl, Assoc,
  lookup, lookup-insert, is_empty, is_some, get_or, arith, Bool-cases,
}
use passmower.Account.{Account}
use passmower.Ownership.{
  EmailText, Conflict, add_conflict, add_conflicts, conflicts_from, is_eligible,
  assess_email_ownership,
}

-- No account has an empty list of conflicts.
abbrev full : Assoc (List Conflict) → String → Bool
full m id = elim (lookup id m) [ none ↦ true | some cs ↦ not (is_empty cs) ]

nonempty-append : (xs : List Conflict) (x : Conflict) → is_empty (xs ++ x ∷ []) ≡ false
nonempty-append [] x = refl
nonempty-append (y ∷ ys) x = refl

full-add_conflicts :
    (id e owner : String) (ds : List Account) (m : Assoc (List Conflict))
    → full m id ≡ true
    → full (add_conflicts e owner m ds) id ≡ true
unfolding add_conflicts add_conflict
full-add_conflicts id e owner [] m h = h
full-add_conflicts id e owner (d ∷ ds) m h =
    full-add_conflicts id e owner ds (add_conflict e owner m d.account_id) (
      let cs =
        get_or (lookup d.account_id m) [] ++ record { email = e; owner_account_id = owner } ∷ [] in
      ground (
        arith,
        h,
        lookup-insert d.account_id id cs m,
        nonempty-append (get_or (lookup d.account_id m) [])
            (record { email = e; owner_account_id = owner }),
        Bool-cases (d.account_id == id),
      ))

full-conflicts_from :
    (id : String) (claims : Assoc (List Account)) (m : Assoc (List Conflict))
    → full m id ≡ true
    → full (conflicts_from m claims) id ≡ true
unfolding conflicts_from
full-conflicts_from id [] m h = h
full-conflicts_from id ((e, []) ∷ claims) m h = full-conflicts_from id claims m h
full-conflicts_from id ((e, o ∷ ds) ∷ claims) m h =
    full-conflicts_from id claims (add_conflicts e o.account_id m ds)
      (full-add_conflicts id e o.account_id ds m h)

full-is_empty :
    (o : Option (List Conflict))
    → (elim o [ none ↦ true | some cs ↦ not (is_empty cs) ]) ≡ true
    → is_empty (get_or o []) ≡ not (is_some o)
full-is_empty none h = refl
full-is_empty (some []) h = absurd (ground (arith, h))
full-is_empty (some (c ∷ cs)) h = refl

-- An account has no conflicts exactly if it is eligible.
pub no_conflicts-is_eligible :
    (t : EmailText) (accounts : List Account) (a : Account)
    → let o = assess_email_ownership t accounts in
      is_empty (get_or (lookup a.account_id o.conflicts) []) ≡ is_eligible o a
unfolding is_eligible assess_email_ownership
no_conflicts-is_eligible t accounts a =
    full-is_empty (lookup a.account_id (assess_email_ownership t accounts).conflicts)
      (full-conflicts_from a.account_id _ [] refl)
