-- ===== src/Claims/Registration.antt =====
-- The names that a provider supports after the mappings of a client are registered.
use passmower.Prelude.{
  String, Bool, true, false, not, List, [], ◌∷◌, ◌&&◌, ◌||◌, ◌≡◌, refl, arith, eq_iff, eq_refl,
  contains, filter, keys, contains-append,
}
use passmower.Claims.{Mappings, is_reserved, registered, register_mapped_claims}

contains-filter :
    (p : String → Bool) (c : String) (xs : List String)
    → contains c (filter p xs) ≡ (p c && contains c xs)
contains-filter p c [] = ground arith
contains-filter p c (x ∷ xs) = ground (arith, contains-filter p c xs, eq_iff x c)

nothing_passes :
    (p q : String → Bool) (xs : List String)
    → ((x : String) → contains x xs ≡ true → (q x && p x) ≡ false)
    → filter p (filter q xs) ≡ []
nothing_passes p q [] h = refl
nothing_passes p q (x ∷ xs) h =
    ground (
      arith,
      h x (ground (arith, eq_refl x)),
      nothing_passes p q xs (λ y e. h y (ground (arith, e))),
    )

after_registration :
    (supported : List String) (ms : Mappings) (c : String)
    → contains c (register_mapped_claims supported ms)
      ≡ (contains c supported || (contains c (keys ms) && not (is_reserved c)))
unfolding register_mapped_claims
after_registration supported ms c =
    let fresh = filter (λ d. not (is_reserved d)) (keys ms) in
    let new = filter (λ d. not (contains d supported)) fresh in
    ground (
      arith,
      contains-append c supported new,
      contains-filter (λ d. not (contains d supported)) c fresh,
      contains-filter (λ d. not (is_reserved d)) c (keys ms),
    )

-- After a registration a name is supported exactly if it was before, or a mapping has it and it
-- is not reserved; and a second registration of the same mappings adds nothing.
pub register_mapped_claims-contains :
    (supported : List String) (ms : Mappings) (c : String)
    → (contains c (register_mapped_claims supported ms)
        ≡ (contains c supported || (contains c (keys ms) && not (is_reserved c))))
      × (registered (register_mapped_claims supported ms) ms ≡ [])
unfolding registered
register_mapped_claims-contains supported ms c = (
  after_registration supported ms c,
  nothing_passes (λ d. not (contains d (register_mapped_claims supported ms)))
      (λ d. not (is_reserved d)) (keys ms)
      (λ x e. ground (arith, e, after_registration supported ms x)),
)
