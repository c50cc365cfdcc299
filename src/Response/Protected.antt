-- ===== src/Response/Protected.antt =====
-- What the webhook and the mappings of a client cannot change in the claims of an account.
use passmower.Prelude.{
  String, Option, none, some, true, false, List, [], ◌∷◌, ◌==◌, ◌≡◌, refl, ap, ◌∙◌, inl, inr, Assoc,
  lookup, insert, lookup-insert, keys, contains, contains-append, contains-keys, map, is_some,
  arith, eq_iff, Bool-cases, Option-cases,
}
use passmower.Account.{Account, display_name}
use passmower.Ownership.{EmailText}
use passmower.Claims.{Mappings, protected_claims, reserved_claims, is_reserved}
use passmower.Claims.Evaluation.{evaluate_claim_mappings-is_reserved}
use passmower.Response.{
  Webhook, not_configured, not_ok, object, not_an_object, failed, sanitize_claims,
  fetch_extra_claims, mapped_claims_for, Claim, text, opaque, Request, assign, with_extra_claims,
  own_claims, claims,
}

mapped_claims_for-absent :
    (c : String) (ms : Option Mappings) (groups : List String) (mapped : Assoc String)
    → is_reserved c ≡ true
    → mapped_claims_for ms groups ≡ some mapped
    → contains c (keys mapped) ≡ false
unfolding mapped_claims_for
mapped_claims_for-absent c none groups mapped r h = ground (arith, h)
mapped_claims_for-absent c (some []) groups mapped r h = ground (arith, h)
mapped_claims_for-absent c (some (m ∷ ms)) groups mapped r h =
    contains-keys c mapped
    ∙ ap is_some (evaluate_claim_mappings-is_reserved (m ∷ ms) groups mapped c h r)

protected→reserved : (c : String) → contains c protected_claims ≡ true → is_reserved c ≡ true
unfolding is_reserved reserved_claims
protected→reserved c h =
    contains-append c protected_claims ("applications" ∷ "codemowers.io/namespaces" ∷ [])
    ∙ ground (arith, h)

module _ {X : Type 0} where
  assign-absent :
      {Y : Type 0} (f : Y → Claim X) (c : String) (response : Assoc (Claim X)) (more : Assoc Y)
      → contains c (keys more) ≡ false
      → lookup c (assign f response more) ≡ lookup c response
  unfolding assign
  assign-absent f c response [] h = refl
  assign-absent f c response ((k, v) ∷ more) h =
      assign-absent f c (insert k (f v) response) more (ground (arith, h, Bool-cases (k == c)))
      ∙ ground (arith, h, lookup-insert k c (f v) response)

  sanitize_claims-absent :
      (c : String) (m : Assoc X)
      → contains c protected_claims ≡ true
      → contains c (keys (sanitize_claims m)) ≡ false
  unfolding sanitize_claims
  sanitize_claims-absent c [] h = refl
  sanitize_claims-absent c ((k, v) ∷ m) h = elim (Bool-cases (contains k protected_claims)) [
    | inl p ↦ rw (p) (sanitize_claims-absent c m h)
    | inr p ↦ rw (p) (
        let differs : (k == c) ≡ false = elim (Bool-cases (k == c)) [
          | inl same ↦
              absurd
                (ground (arith, ap (λ x. contains x protected_claims) ((eq_iff k c).0 same), p, h))
          | inr other ↦ other
        ] in
        rw (differs) (sanitize_claims-absent c m h))
  ]

  fetch_extra_claims-absent :
      (c : String) (w : Webhook X)
      → contains c protected_claims ≡ true
      → contains c (keys (fetch_extra_claims w)) ≡ false
  unfolding fetch_extra_claims
  fetch_extra_claims-absent c not_configured h = refl
  fetch_extra_claims-absent c not_ok h = refl
  fetch_extra_claims-absent c (object m) h = sanitize_claims-absent c m h
  fetch_extra_claims-absent c not_an_object h = refl
  fetch_extra_claims-absent c failed h = refl

  module _ (t : EmailText) (provider_mode : String → Option String) where
    extra-kept :
        (r : Request X) (c : String) (response : Assoc (Claim X))
        → contains c protected_claims ≡ true
        → lookup c (with_extra_claims r response) ≡ lookup c response
    unfolding with_extra_claims
    extra-kept r c response p = ground (
      arith,
      assign-absent opaque c response (fetch_extra_claims r.webhook)
          (fetch_extra_claims-absent c r.webhook p),
    )

    -- Where the claims of an account are given, each protected claim is the one that Passmower computes,
    -- whatever the webhook answers and whatever the client maps.
    pub claims-own_claims :
        (r : Request X) (a : Account) (m : Assoc (Claim X)) (c : String)
        → claims t provider_mode r a ≡ some m
        → contains c protected_claims ≡ true
        → lookup c m ≡ lookup c (own_claims t provider_mode r a)
    unfolding claims
    claims-own_claims r a m c h p =
        elim (Option-cases (mapped_claims_for r.mappings (map display_name a.groups))) [
          | inl e ↦ absurd (ground (arith, e, h))
          | inr (mapped, e) ↦
              let response = with_extra_claims r (own_claims t provider_mode r a) in
              let is_m : m ≡ assign text response mapped = ground (arith, e, h) in
              let absent =
                mapped_claims_for-absent c r.mappings (map display_name a.groups) mapped
                  (protected→reserved c p) e in
              ap (lookup c) is_m
              ∙ (assign-absent text c response mapped absent
                  ∙ extra-kept r c (own_claims t provider_mode r a) p)
        ]
