-- ===== src/Discovery/Authority.antt =====
-- What a reconcile of an Ingress may do to the clients of its namespace
-- (operators/kube-ingress-discovery-operator.js).
use passmower.Prelude.{
  inl, inr, String, Option, none, some, Bool-cases, true, false, not, List, [], ◌∷◌, ◌++◌, ◌≡◌,
  refl, arith, if◌then◌else◌, ◌==◌, ◌&&◌, any, is_empty, is_some, same_text, truthy, eq_refl,
}
use passmower.Discovery.{
  Ingress, ExistingClient, ClientSpec, Web, Answers, Effect, reconciles, deletes, creates, patches,
  event, overlay, is_foreign, requests_discovery, discovery_problems, oidc_client_spec_for,
  discovered_client_labels, reconcile_referencing_clients, patch_client, create_client,
  write_client, discover, reconcile,
}

module _ (w : Web) (a : Answers) (i : Ingress) where
  -- The ingress is one that a client can be derived from.
  abbrev pub IsDerivable : Type 0
  IsDerivable = (requests_discovery i ≡ true) × (is_empty (discovery_problems w i) ≡ true)

  -- When an effect is the reconcile's to have.
  abbrev pub IsWarranted : Effect → Type 0
  IsWarranted (reconciles n) =
      any (λ c. c.client_name == n && same_text c.ingress_ref i.name) a.clients ≡ true
  IsWarranted deletes =
      (requests_discovery i ≡ false)
      × (is_some a.existing ≡ true)
      × (is_foreign a.existing i ≡ false)
  IsWarranted (creates spec labels) =
      IsDerivable
      × (a.existing ≡ none)
      × (oidc_client_spec_for w i ≡ some spec)
      × (labels ≡ discovered_client_labels i)
  IsWarranted (patches spec) =
      IsDerivable
      × (is_foreign a.existing i ≡ false)
      × ((c : ExistingClient) × (derived : ClientSpec) × (a.existing ≡ some c)
          × (oidc_client_spec_for w i ≡ some derived)
          × (spec ≡ overlay c.spec derived))
  IsWarranted (event reason) = Unit

  abbrev pub AreWarranted : List Effect → Type 0
  AreWarranted [] = Unit
  AreWarranted (e ∷ es) = IsWarranted e × AreWarranted es

  AreWarranted-++ :
      (es fs : List Effect) → AreWarranted es → AreWarranted fs → AreWarranted (es ++ fs)
  AreWarranted-++ [] fs h k = k
  AreWarranted-++ (e ∷ es) fs h k = (h.0, AreWarranted-++ es fs h.1 k)

  abbrev Refers : String → List ExistingClient → Type 0
  Refers n cs = any (λ c. c.client_name == n && same_text c.ingress_ref i.name) cs ≡ true

  referencing-AreWarranted :
      (cs : List ExistingClient)
      → ((n : String) → Refers n cs → Refers n a.clients)
      → AreWarranted (reconcile_referencing_clients cs i)
  unfolding reconcile_referencing_clients
  referencing-AreWarranted [] h = tt
  referencing-AreWarranted (c ∷ cs) h =
      (let rest = referencing-AreWarranted cs (λ n r. h n (ground (arith, r))) in
        elim (Bool-cases (same_text c.ingress_ref i.name)) [
          | inl e ↦ rw (e) (h c.client_name (ground (arith, e, eq_refl c.client_name)), rest)
          | inr e ↦ rw (e) rest
        ])

  patch_client-AreWarranted :
      (c : ExistingClient) (spec : ClientSpec)
      → IsWarranted (patches (overlay c.spec spec))
      → AreWarranted (patch_client a c spec)
  unfolding patch_client
  patch_client-AreWarranted c spec h = ground (arith, h)

  write_client-AreWarranted :
      (existing : Option ExistingClient) (spec : Option ClientSpec)
      → a.existing ≡ existing
      → oidc_client_spec_for w i ≡ spec
      → IsDerivable
      → is_foreign a.existing i ≡ false
      → AreWarranted (write_client a i existing spec)
  unfolding create_client
  write_client-AreWarranted existing none x y d own = tt
  write_client-AreWarranted none (some s) x y d own = ((d, x, y, refl), (tt, tt))
  write_client-AreWarranted (some c) (some s) x y d own =
      patch_client-AreWarranted c s (d, own, (c, s, x, y, refl))

  withdraw-AreWarranted :
      requests_discovery i ≡ false
      → AreWarranted (
          if is_some a.existing && not (is_foreign a.existing i)
          then deletes ∷ event "OIDCClientRemoved" ∷ []
          else [])
  withdraw-AreWarranted r =
      elim (Bool-cases (is_some a.existing && not (is_foreign a.existing i))) [
        | inl e ↦ rw (e) ((r, ground (arith, e), ground (arith, e)), (tt, tt))
        | inr e ↦ rw (e) tt
      ]

  discover-AreWarranted : AreWarranted (discover w a i)
  unfolding discover
  discover-AreWarranted = elim (Bool-cases (requests_discovery i)) [
    | inr r ↦ rw (r) (withdraw-AreWarranted r)
    | inl r ↦ rw (r) (elim (Bool-cases (is_foreign a.existing i)) [
      | inl f ↦ rw (f) (tt, tt)
      | inr f ↦ rw (f) (elim (Bool-cases (is_empty (discovery_problems w i))) [
        | inl p ↦
            rw (p)
              (write_client-AreWarranted a.existing (oidc_client_spec_for w i) refl refl (r, p) f)
        | inr p ↦ rw (p) (tt, tt)
      ])
    ])
  ]

  -- Whatever a reconcile does to a client is warranted: it asks the client operator only for clients that
  -- refer to the Ingress, deletes only a client that is there, that is not foreign (its label names this
  -- Ingress) and whose Ingress asks for nothing, creates only where there is no client and the Ingress is
  -- derivable (it asks for discovery and has no problems), with the derived spec and the label, and patches only a client that is not
  -- foreign, of a derivable Ingress, with the derived spec laid over the client's.
  pub reconcile-AreWarranted : AreWarranted (reconcile w a i)
  unfolding reconcile
  reconcile-AreWarranted = elim (Bool-cases (truthy i.namespace && truthy i.name)) [
    | inl e ↦ rw (e) (
        AreWarranted-++ (reconcile_referencing_clients a.clients i) (discover w a i)
          (referencing-AreWarranted a.clients (λ n r. r)) discover-AreWarranted)
    | inr e ↦ rw (e) tt
  ]
