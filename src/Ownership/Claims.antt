-- ===== src/Ownership/Claims.antt =====
-- The table of claims is, for each address, the accounts that claim it, in order.
use mathlib.Core.List.{append-nil, append_assoc}
use passmower.Prelude.{
  String, ◌≡◌, sym, ◌∙◌, List, [], ◌∷◌, ◌++◌, eq_iff, Assoc, lookup, lookup-insert, get_or, filter,
  contains, IsDistinct, dedup-IsDistinct, keys, insert-IsDistinct, if◌then◌else◌, arith,
}
use passmower.Account.{Account}
use passmower.Ownership.{EmailText, claim_email, claim_emails, claims_from, get_claimed_emails}

claimants-claim_emails :
    (a : Account) (e : String) (es : List String) (m : Assoc (List Account))
    → IsDistinct es
    → get_or (lookup e (claim_emails a m es)) []
      ≡ get_or (lookup e m) [] ++ (if contains e es then a ∷ [] else [])
unfolding claim_emails claim_email
claimants-claim_emails a e [] m h = sym (append-nil _)
claimants-claim_emails a e (x ∷ es) m h =
    claimants-claim_emails a e es (claim_email a m x) h.1
    ∙ ground (
      arith,
      lookup-insert x e (get_or (lookup x m) [] ++ a ∷ []) m,
      eq_iff x e,
      append-nil (get_or (lookup e m) [] ++ a ∷ []),
      append-nil (get_or (lookup e m) []),
    )

keys-claim_emails :
    (a : Account) (es : List String) (m : Assoc (List Account))
    → IsDistinct (keys m)
    → IsDistinct (keys (claim_emails a m es))
unfolding claim_emails claim_email
keys-claim_emails a [] m h = h
keys-claim_emails a (e ∷ es) m h = keys-claim_emails a es _ (insert-IsDistinct e _ m h)

module _ (t : EmailText) where
  claimed-IsDistinct : (a : Account) → IsDistinct (get_claimed_emails t a)
  unfolding get_claimed_emails
  claimed-IsDistinct a = dedup-IsDistinct _

  pub keys-claims_from :
      (accounts : List Account) (m : Assoc (List Account))
      → IsDistinct (keys m)
      → IsDistinct (keys (claims_from t m accounts))
  unfolding claims_from
  keys-claims_from [] m h = h
  keys-claims_from (a ∷ rest) m h =
      keys-claims_from rest (claim_emails a m (get_claimed_emails t a))
        (keys-claim_emails a (get_claimed_emails t a) m h)

  pub claimants-claims_from :
      (e : String) (accounts : List Account) (m : Assoc (List Account))
      → get_or (lookup e (claims_from t m accounts)) []
        ≡ get_or (lookup e m) [] ++ filter (λ a. contains e (get_claimed_emails t a)) accounts
  unfolding claims_from
  claimants-claims_from e [] m = sym (append-nil _)
  claimants-claims_from e (a ∷ rest) m =
      claimants-claims_from e rest (claim_emails a m (get_claimed_emails t a))
      ∙ ground (
        arith,
        claimants-claim_emails a e (get_claimed_emails t a) m (claimed-IsDistinct a),
        append_assoc (get_or (lookup e m) []) (a ∷ [])
            (filter (λ b. contains e (get_claimed_emails t b)) rest),
        append-nil (get_or (lookup e m) []),
      )
