-- ===== src/Discovery/Convergence.antt =====
-- Two reconciles of one Ingress, one after the other (operators/kube-ingress-discovery-operator.js).
use passmower.Prelude.{
  ◌≡◌, refl, arith, eq_refl, inl, inr, Option, none, some, concat, Bool, Bool-cases, true, false,
  not, List, [], ◌∷◌, ◌++◌, ◌&&◌, any, is_empty, is_some, get_or, same_text, truthy, if◌then◌else◌,
}
use passmower.Discovery.{
  Ingress, ExistingClient, ClientSpec, Web, Answers, Effect, reconciles, deletes, creates, patches,
  event, overlay, same_spec, is_foreign, requests_discovery, discovery_problems,
  oidc_client_spec_for, discovered_client_labels, reconcile_referencing_clients, is_discovered_from,
  patch_client, create_client, write_client, discover, reconcile,
}
use passmower.Discovery.Overlay.{
  HasFields, self_HasFields, has-overlay, spec_IsDistinct, patch_client-settled,
}

abbrev pub is_write : Effect → Bool
is_write deletes = true
is_write (creates spec labels) = true
is_write (patches spec) = true
is_write _ = false

-- The client of the Ingress' name after an effect that the server carries out.
abbrev pub applied : Ingress → Effect → Option ExistingClient → Option ExistingClient
applied i deletes c = none
applied i (creates spec labels) c =
    some
      (record { client_name = get_or i.name ""; labels = labels; spec = spec; ingress_ref = none })
applied i (patches spec) none = none
applied i (patches spec) (some c) = some (record c { spec = spec })
applied i (reconciles n) c = c
applied i (event r) c = c

abbrev pub all_applied : Ingress → List Effect → Option ExistingClient → Option ExistingClient
all_applied i [] c = c
all_applied i (e ∷ es) c = all_applied i es (applied i e c)

-- The answers of the server afterwards.
abbrev pub afterwards : Ingress → List Effect → Answers → Answers
afterwards i es a = record a { existing = all_applied i es a.existing }

referencing_applied :
    (i : Ingress) (cs : List ExistingClient) (es : List Effect) (c : Option ExistingClient)
    → all_applied i (reconcile_referencing_clients cs i ++ es) c ≡ all_applied i es c
unfolding reconcile_referencing_clients
referencing_applied i [] es c = refl
referencing_applied i (d ∷ cs) es c = elim (Bool-cases (same_text d.ingress_ref i.name)) [
  | inl e ↦ rw (e) (referencing_applied i cs es c)
  | inr e ↦ rw (e) (referencing_applied i cs es c)
]

referencing_writes :
    (i : Ingress) (cs : List ExistingClient) (es : List Effect)
    → any is_write (reconcile_referencing_clients cs i ++ es) ≡ any is_write es
unfolding reconcile_referencing_clients
referencing_writes i [] es = refl
referencing_writes i (d ∷ cs) es = elim (Bool-cases (same_text d.ingress_ref i.name)) [
  | inl e ↦ rw (e) (referencing_writes i cs es)
  | inr e ↦ rw (e) (referencing_writes i cs es)
]

module _ (w : Web) (i : Ingress) where
  abbrev unrequested : Answers → List Effect
  unrequested b =
      if is_some b.existing && not (is_foreign b.existing i)
      then deletes ∷ event "OIDCClientRemoved" ∷ []
      else []

  discover-unrequested :
      (b : Answers) → requests_discovery i ≡ false → discover w b i ≡ unrequested b
  unfolding discover
  discover-unrequested b r = rw (r) refl

  discover_conflict :
      (b : Answers)
      → requests_discovery i ≡ true
      → is_foreign b.existing i ≡ true
      → discover w b i ≡ event "OIDCClientConflict" ∷ []
  unfolding discover
  discover_conflict b r f = rw (r, f) refl

  discover_problem :
      (b : Answers)
      → requests_discovery i ≡ true
      → is_foreign b.existing i ≡ false
      → is_empty (discovery_problems w i) ≡ false
      → discover w b i ≡ event "IngressDiscoveryFailed" ∷ []
  unfolding discover
  discover_problem b r f p = rw (r, f, p) refl

  discover-write_client :
      (b : Answers)
      → requests_discovery i ≡ true
      → is_foreign b.existing i ≡ false
      → is_empty (discovery_problems w i) ≡ true
      → discover w b i ≡ write_client b i b.existing (oidc_client_spec_for w i)
  unfolding discover
  discover-write_client b r f p = rw (r, f, p) refl

  abbrev IsSettled : Answers → Type 0
  IsSettled b = any is_write (discover w b i) ≡ false

  unrequested-IsSettled :
      (b : Answers) → requests_discovery i ≡ false → IsSettled (afterwards i (discover w b i) b)
  unrequested-IsSettled b r =
      elim (Bool-cases (is_some b.existing && not (is_foreign b.existing i))) [
        | inl e ↦
            rw (discover-unrequested b r, e)
              (rw (discover-unrequested (record b { existing = none }) r) refl)
        | inr e ↦ rw (discover-unrequested b r, e) (rw (discover-unrequested b r, e) refl)
      ]

  conflict-IsSettled :
      (b : Answers)
      → requests_discovery i ≡ true
      → is_foreign b.existing i ≡ true
      → IsSettled (afterwards i (discover w b i) b)
  conflict-IsSettled b r f = rw (discover_conflict b r f) (rw (discover_conflict b r f) refl)

  problem-IsSettled :
      (b : Answers)
      → requests_discovery i ≡ true
      → is_foreign b.existing i ≡ false
      → is_empty (discovery_problems w i) ≡ false
      → IsSettled (afterwards i (discover w b i) b)
  problem-IsSettled b r f p = rw (discover_problem b r f p) (rw (discover_problem b r f p) refl)

  module _ (r : requests_discovery i ≡ true) (p : is_empty (discovery_problems w i) ≡ true) where
    laid_over-IsSettled :
        (b : Answers) (c : ExistingClient) (spec : ClientSpec)
        → oidc_client_spec_for w i ≡ some spec
        → is_foreign (some c) i ≡ false
        → HasFields c.spec spec
        → IsSettled (record b { existing = some c })
    laid_over-IsSettled b c spec s f h =
        rw (discover-write_client (record b { existing = some c }) r f p, s)
          (rw (patch_client-settled (record b { existing = some c }) c spec h) refl)

    patched-IsSettled :
        (b : Answers) (c : ExistingClient) (spec : ClientSpec)
        → oidc_client_spec_for w i ≡ some spec
        → is_foreign (some c) i ≡ false
        → IsSettled (record b { existing = all_applied i (patch_client b c spec) (some c) })
    unfolding patch_client is_discovered_from
    patched-IsSettled b c spec s f = elim (Bool-cases (same_spec (overlay c.spec spec) c.spec)) [
      | inl e ↦
          rw (e) (rw (discover-write_client (record b { existing = some c }) r f p, s, e) refl)
      | inr e ↦ rw (e) (
          laid_over-IsSettled b (record c { spec = overlay c.spec spec }) spec s f
            (has-overlay c.spec spec (spec_IsDistinct w i spec s)))
    ]

    created-IsSettled :
        (b : Answers) (spec : ClientSpec)
        → oidc_client_spec_for w i ≡ some spec
        → IsSettled (record b { existing = all_applied i (create_client b i spec) none })
    unfolding create_client discovered_client_labels is_discovered_from
    created-IsSettled b spec s =
        (let made : ExistingClient = record {
          client_name = get_or i.name "";
          labels = discovered_client_labels i;
          spec = spec;
          ingress_ref = none;
        } in
          laid_over-IsSettled b made spec s
            (ground (arith, eq_refl (concat "Ingress." (get_or i.name ""))))
            (self_HasFields spec (spec_IsDistinct w i spec s)))

    written-IsSettled :
        (b : Answers) (e : Option ExistingClient) (s : Option ClientSpec)
        → b.existing ≡ e
        → oidc_client_spec_for w i ≡ s
        → is_foreign e i ≡ false
        → IsSettled (record b { existing = all_applied i (write_client b i e s) e })
    written-IsSettled b e none x y f =
        rw (discover-write_client (record b { existing = e }) r f p, y) refl
    written-IsSettled b none (some s) x y f = created-IsSettled b s y
    written-IsSettled b (some c) (some s) x y f = patched-IsSettled b c s y f

  discover-IsSettled : (b : Answers) → IsSettled (afterwards i (discover w b i) b)
  discover-IsSettled b = elim (Bool-cases (requests_discovery i)) [
    | inr r ↦ unrequested-IsSettled b r
    | inl r ↦ elim (Bool-cases (is_foreign b.existing i)) [
      | inl f ↦ conflict-IsSettled b r f
      | inr f ↦ elim (Bool-cases (is_empty (discovery_problems w i))) [
        | inr p ↦ problem-IsSettled b r f p
        | inl p ↦
            rw (discover-write_client b r f p)
              (written-IsSettled r p b b.existing (oidc_client_spec_for w i) refl refl f)
      ]
    ]
  ]

  -- Two reconciles of one Ingress: when the server has carried out what the first one does, the second one
  -- deletes, creates and patches nothing.
  pub reconcile-settles :
      (a : Answers) → any is_write (reconcile w (afterwards i (reconcile w a i) a) i) ≡ false
  unfolding reconcile
  reconcile-settles a = elim (Bool-cases (truthy i.namespace && truthy i.name)) [
    | inl e ↦
        rw (e, referencing_applied i a.clients (discover w a i) a.existing)
          (rw (referencing_writes i a.clients (discover w (afterwards i (discover w a i) a) i))
            (discover-IsSettled a))
    | inr e ↦ rw (e) refl
  ]
