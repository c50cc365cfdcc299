-- ===== src/Discovery/Overlay.antt =====
-- What a patch of a discovered client leaves (#patchClient of operators/kube-ingress-discovery-operator.js).
use mathlib.Core.Path.{subst}
use mathlib.Core.Option.{some-injective}
use passmower.Prelude.{
  ◌≡◌, refl, sym, ◌∙◌, arith, eq_iff, eq_refl, inl, inr, String, Option, none, some, Option-cases,
  Bool-cases, true, false, List, [], ◌∷◌, is_empty, lookup, insert, keys, contains, lookup-insert,
  IsDistinct,
}
use passmower.Discovery.{
  Ingress, ExistingClient, ClientSpec, Field, text, texts, opaque, Web, Answers, overlay,
  same_texts, same_field, same_spec, patch_client, annotated, list_of, described_fields, all_hrefs,
  origin_of, oidc_client_spec_for,
}

abbrev pub or_else : Option Field → Option Field → Option Field
or_else none o = o
or_else (some v) o = some v

lookup-keys : (k : String) (m : ClientSpec) → contains k (keys m) ≡ false → lookup k m ≡ none
lookup-keys k [] h = refl
lookup-keys k ((j, v) ∷ m) h = ground (arith, eq_iff j k, eq_iff k j, lookup-keys k m)

-- A field of what is laid over it, else of the spec itself.
pub lookup-overlay :
    (k : String) (spec more : ClientSpec)
    → IsDistinct (keys more)
    → lookup k (overlay spec more) ≡ or_else (lookup k more) (lookup k spec)
lookup-overlay k spec [] h = refl
lookup-overlay k spec ((j, v) ∷ more) h =
    lookup-overlay k (insert j v spec) more h.1
    ∙ ground (arith, eq_iff j k, lookup-insert j k v spec, lookup-keys k more, h.0)

-- The fields of `more` are in the spec.
abbrev pub HasFields : ClientSpec → ClientSpec → Type 0
HasFields spec [] = Unit
HasFields spec ((k, v) ∷ more) = (lookup k spec ≡ some v) × HasFields spec more

insert-same : (k : String) (v : Field) (m : ClientSpec) → lookup k m ≡ some v → insert k v m ≡ m
insert-same k v [] h = ground (arith, h)
insert-same k v ((j, w) ∷ m) h = ground (arith, h, eq_iff j k, insert-same k v m)

overlay-HasFields : (spec more : ClientSpec) → HasFields spec more → overlay spec more ≡ spec
overlay-HasFields spec [] h = refl
overlay-HasFields spec ((k, v) ∷ more) h =
    rw (insert-same k v spec h.0) (overlay-HasFields spec more h.1)

same_texts_refl : (xs : List String) → same_texts xs xs ≡ true
unfolding same_texts
same_texts_refl [] = refl
same_texts_refl (x ∷ xs) = ground (arith, eq_refl x, same_texts_refl xs)

same_field_refl : (v : Field) → same_field v v ≡ true
unfolding same_field
same_field_refl (text x) = eq_refl x
same_field_refl (texts xs) = same_texts_refl xs
same_field_refl (opaque x) = eq_refl x

same_spec_refl : (m : ClientSpec) → same_spec m m ≡ true
unfolding same_spec
same_spec_refl [] = refl
same_spec_refl ((k, v) ∷ m) = ground (arith, eq_refl k, same_field_refl v, same_spec_refl m)

pub has-overlay :
    (spec more : ClientSpec) → IsDistinct (keys more) → HasFields (overlay spec more) more
has-overlay spec [] d = tt
has-overlay spec ((k, v) ∷ more) d = (
  lookup-overlay k (insert k v spec) more d.1
      ∙ ground (arith, eq_refl k, lookup-insert k k v spec, lookup-keys k more, d.0),
  has-overlay (insert k v spec) more d.1,
)

described_fields-IsDistinct :
    (w : Web) (i : Ingress) (uris : List String) → IsDistinct (keys (described_fields w i uris))
unfolding list_of
described_fields-IsDistinct w i uris =
    elim (Bool-cases (is_empty (annotated w "allowed-groups" i))) [
      | inl g ↦ rw (g) (elim (Bool-cases (is_empty (annotated w "allowed-users" i))) [
        | inl u ↦ rw (u) (refl, (refl, (refl, (refl, (refl, (refl, tt))))))
        | inr u ↦ rw (u) (refl, (refl, (refl, (refl, (refl, (refl, (refl, tt)))))))
      ])
      | inr g ↦ rw (g) (elim (Bool-cases (is_empty (annotated w "allowed-users" i))) [
        | inl u ↦ rw (u) (refl, (refl, (refl, (refl, (refl, (refl, (refl, tt)))))))
        | inr u ↦ rw (u) (refl, (refl, (refl, (refl, (refl, (refl, (refl, (refl, tt))))))))
      ])
    ]

rewritten_spec :
    (w : Web) (i : Ingress) (uris : List String)
    → all_hrefs w (origin_of i) (annotated w "redirect-path" i) ≡ some uris
    → oidc_client_spec_for w i ≡ some (described_fields w i uris)
unfolding oidc_client_spec_for
rewritten_spec w i uris h = rw (oidc_client_spec_for, h) refl

pub spec_IsDistinct :
    (w : Web) (i : Ingress) (spec : ClientSpec)
    → oidc_client_spec_for w i ≡ some spec
    → IsDistinct (keys spec)
unfolding oidc_client_spec_for
spec_IsDistinct w i spec h =
    elim (Option-cases (all_hrefs w (origin_of i) (annotated w "redirect-path" i))) [
      | inl n ↦ ground (arith, h, n)
      | inr u ↦
          subst (λ s. IsDistinct (keys s))
            (some-injective _ _ (sym (rewritten_spec w i u.0 u.1) ∙ h))
            (described_fields-IsDistinct w i u.0)
    ]

-- A patch of a spec that has what is laid over it does nothing.
pub patch_client-settled :
    (a : Answers) (c : ExistingClient) (spec : ClientSpec)
    → HasFields c.spec spec
    → patch_client a c spec ≡ []
unfolding patch_client
patch_client-settled a c spec h =
    ground (arith, overlay-HasFields c.spec spec h, same_spec_refl c.spec)

skip_HasFields :
    (k : String) (v : Field) (spec more : ClientSpec)
    → contains k (keys more) ≡ false
    → HasFields spec more
    → HasFields ((k, v) ∷ spec) more
skip_HasFields k v spec [] d h = tt
skip_HasFields k v spec ((j, w) ∷ more) d h = (
  ground (arith, d, h.0, eq_iff k j, eq_iff j k),
  skip_HasFields k v spec more (ground (arith, d)) h.1,
)

pub self_HasFields : (spec : ClientSpec) → IsDistinct (keys spec) → HasFields spec spec
self_HasFields [] d = tt
self_HasFields ((k, v) ∷ spec) d =
    (ground (arith, eq_refl k), skip_HasFields k v spec spec d.0 (self_HasFields spec d.1))
