-- ===== src/Access/Terms.antt =====
-- The terms of service (utils/user/tos-required.js, and the acceptance in models/account.js).
use passmower.Prelude.{
  ℕ, String, Option, none, some, ◌≡◌, refl, Bool, false, not, ◌&&◌, ◌==◌, filter, same_text, truthy,
  arith,
}
use passmower.Account.{
  Account, TosAcceptance, accept_terms_of_service, get_terms_of_service_acceptance,
  get_intended_terms_of_service_acceptance,
}
use passmower.Access.{tos_required}

-- Whether the terms are for this type of account: people, and accounts with no type.
abbrev pub asked : Account → Bool
asked a = not (truthy a.spec.kind && not (same_text a.spec.kind (some "person")))

-- After accepting the document with one hash, an account is asked again exactly for a document
-- with another hash, and only if the terms are for accounts of its type. Without a document nobody
-- is asked.
pub tos_required-accept :
    (a : Account) (content_hash : String) (now : ℕ) (document : Option String)
    → tos_required (some (accept_terms_of_service content_hash now a)) document
      ≡ elim document [ none ↦ false | some hash ↦ asked a && not (content_hash == hash) ]
unfolding tos_required accept_terms_of_service get_terms_of_service_acceptance
tos_required-accept a content_hash now none = refl
tos_required-accept a content_hash now (some hash) = ground arith

-- What a status reconcile makes of the acceptance (`getIntendedStatus`, read back).
abbrev pub reconcile_terms : Option String → Account → Account
reconcile_terms document a = record a {
  terms_of_service = get_intended_terms_of_service_acceptance document a;
  conditions = filter (λ c. not (c.kind == "ToSv1")) a.conditions;
}

-- An acceptance that predates content hashes is never asked for again by itself; a reconcile gives
-- it the hash of the current document, and from then on the account is asked exactly when the
-- document is another one and the terms are for accounts of its type.
pub tos_required-reconcile_terms :
    (a : Account) (current hash : String) (t : TosAcceptance)
    → get_terms_of_service_acceptance a ≡ some t
    → t.content_hash ≡ none
    → (tos_required (some a) (some hash) ≡ false)
      × (tos_required (some (reconcile_terms (some current) a)) (some hash)
          ≡ (asked a && not (current == hash)))
unfolding tos_required get_intended_terms_of_service_acceptance get_terms_of_service_acceptance
tos_required-reconcile_terms a current hash t h n = (ground arith, ground arith)
