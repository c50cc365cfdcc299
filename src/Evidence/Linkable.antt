-- ===== src/Evidence/Linkable.antt =====
-- Where a verified address gets its evidence from, and what a magic link does.
use passmower.Prelude.{
  String, Option, none, some, ◌≡◌, refl, Bool, true, false, not, List, [], ◌∷◌, ◌++◌, ◌==◌, ◌&&◌,
  ◌||◌, Assoc, insert, values, any, any-append, filter_map, same_text, is_true, is_false, arith,
  Option-cases,
}
use passmower.Account.{Account, Evidence, Identity, UpstreamEmail}
use passmower.Ownership.{EmailText, canonicalize_email}
use passmower.Evidence.{
  status_of, still_verified, evidence_key, last_by_key, github_evidence, identity_evidence,
  identities_evidence, stored_evidence, get_email_verifications, has_verified,
}

any-values-insert :
    (p : Evidence → Bool) (k : String) (e : Evidence) (m : Assoc Evidence)
    → any p (values (insert k e m)) ≡ true
    → (any p (values m) || p e) ≡ true
any-values-insert p k e [] h = ground arith
any-values-insert p k e ((j, w) ∷ m) h = ground (arith, any-values-insert p k e m)

-- What is left after removing duplicates was there.
any-last_by_key :
    (p : Evidence → Bool) (es : List Evidence) (m : Assoc Evidence)
    → any p (values (last_by_key m es)) ≡ true
    → (any p (values m) || any p es) ≡ true
unfolding last_by_key
any-last_by_key p [] m h = ground arith
any-last_by_key p (e ∷ es) m h = ground (
  arith,
  any-last_by_key p es (insert (evidence_key e) e m),
  any-values-insert p (evidence_key e) e m,
)

status_of-verified : (v : Option Bool) → (status_of v == "verified") ≡ is_true v
status_of-verified none = refl
status_of-verified (some true) = refl
status_of-verified (some false) = refl

module _ (t : EmailText) (provider_mode : String → Option String) (email : String) where
  abbrev is_verified : Evidence → Bool
  is_verified e = same_text e.email (some email) && e.status == "verified"

  -- A magic link for the address was opened.
  abbrev pub by_magic_link : Evidence → Bool
  by_magic_link e =
      e.method == "magic-link"
      && (same_text (canonicalize_email t e.email) (some email) && e.status == "verified")

  abbrev pub vouched : UpstreamEmail → Bool
  vouched i = same_text (canonicalize_email t i.email) (some email) && is_true i.verified

  -- The provider calls the address verified, and where the claim rests on the operator's trust,
  -- the provider is trusted today.
  abbrev pub vouched_by : String → UpstreamEmail → Bool
  vouched_by provider i =
      vouched i && (not (is_true i.trusted) || same_text (provider_mode provider) (some "trusted"))

  -- An identity that is not deactivated vouches for the address.
  abbrev pub vouched_by_identity : Assoc Identity → Bool
  vouched_by_identity m = any (λ p. not (is_false p.1.active) && any (vouched_by p.0) p.1.emails) m

  any-stored : (es : List Evidence) → any is_verified (stored_evidence t es) ≡ any by_magic_link es
  unfolding stored_evidence
  any-stored [] = refl
  any-stored (e ∷ es) = ground (arith, any-stored es)

  github_item :
      (e : UpstreamEmail)
      → elim (github_evidence t e) [ none ↦ false | some x ↦ is_verified x ] ≡ vouched e
  unfolding github_evidence
  github_item e =
      ground (arith, Option-cases (canonicalize_email t e.email), status_of-verified e.verified)

  any-github :
      (es : List UpstreamEmail)
      → any is_verified (filter_map (github_evidence t) es) ≡ any vouched es
  any-github [] = refl
  any-github (e ∷ es) = ground (arith, any-github es, github_item e)

  identity_item :
      (provider : String) (e : UpstreamEmail)
      → elim (identity_evidence t provider_mode provider e) [
        | none ↦ false
        | some x ↦ is_verified x
      ]
        ≡ vouched_by provider e
  unfolding identity_evidence
  identity_item provider e = ground (
    arith,
    Option-cases (canonicalize_email t e.email),
    status_of-verified e.verified,
    status_of-verified (still_verified t provider_mode provider e),
  )

  any-identity :
      (provider : String) (es : List UpstreamEmail)
      → any is_verified (filter_map (identity_evidence t provider_mode provider) es)
        ≡ any (vouched_by provider) es
  any-identity provider [] = refl
  any-identity provider (e ∷ es) =
      ground (arith, any-identity provider es, identity_item provider e)

  any-identities :
      (m : Assoc Identity)
      → any is_verified (identities_evidence t provider_mode m) ≡ vouched_by_identity m
  unfolding identities_evidence
  any-identities [] = refl
  any-identities ((provider, i) ∷ m) = ground (
    arith,
    any-identities m,
    any-identity provider i.emails,
    any-append is_verified (filter_map (identity_evidence t provider_mode provider) i.emails)
        (identities_evidence t provider_mode m),
  )

  -- An address counts as verified only by a magic link, by GitHub's word, or by the word of an
  -- active identity that rests on no withdrawn trust of the operator.
  pub has_verified_origin :
      (a : Account)
      → has_verified email (get_email_verifications t provider_mode a) ≡ true
      → (any by_magic_link a.email_verifications
          || (any vouched a.github.emails || vouched_by_identity a.identities))
        ≡ true
  unfolding get_email_verifications
  has_verified_origin a h = ground (
    arith,
    any-last_by_key is_verified
        (stored_evidence t a.email_verifications
          ++ (filter_map (github_evidence t) a.github.emails
              ++ identities_evidence t provider_mode a.identities))
        [],
    any-append is_verified (stored_evidence t a.email_verifications) (
        filter_map (github_evidence t) a.github.emails
        ++ identities_evidence t provider_mode a.identities),
    any-append is_verified (filter_map (github_evidence t) a.github.emails)
        (identities_evidence t provider_mode a.identities),
    any-stored a.email_verifications,
    any-github a.github.emails,
    any-identities a.identities,
  )
