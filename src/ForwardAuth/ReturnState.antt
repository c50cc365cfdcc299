-- ===== src/ForwardAuth/ReturnState.antt =====
-- The signed state that takes a browser back to the page that it asked for.
use Prim.Native.Char.{Char}
use passmower.Prelude.{
  ℕ, ◌+◌, ◌*◌, ◌<◌, String, Option, none, some, true, false, List, [], ◌∷◌, ◌==◌, ◌||◌, ◌≡◌, refl,
  sym, ap, inl, inr, contains, until, after, until-concat, until-free, ltb, ltb→lt, arith, eq_iff,
  eq_refl, Bool-cases, Option-cases,
}
use passmower.ForwardAuth.{
  Url, Web, Return, Crypto, is_host_in_base_domain, sign_return_state, return_page, signed_by,
  signature_in, verify_return_state,
}

signed_by-key :
    (c : Crypto) (keys : List String) (payload signature : String)
    → signed_by c keys payload signature ≡ true
    → (key : String) × (contains key keys ≡ true) × (c.sign payload key ≡ signature)
signed_by-key c [] payload signature h = absurd (ground (arith, h))
signed_by-key c (k ∷ keys) payload signature h = elim (Bool-cases (c.sign payload k == signature)) [
  | inl e ↦ (k, ground (arith, eq_refl k), (eq_iff (c.sign payload k) signature).0 e)
  | inr e ↦
      let (key, there, same) = signed_by-key c keys payload signature (ground (arith, e, h)) in
      (key, ground (arith, there, Bool-cases (k == key)), same)
]

signed_by-contains :
    (c : Crypto) (keys : List String) (payload key : String)
    → contains key keys ≡ true
    → signed_by c keys payload (c.sign payload key) ≡ true
signed_by-contains c [] payload key h = absurd (ground (arith, h))
signed_by-contains c (k ∷ keys) payload key h = elim (Bool-cases (k == key)) [
  | inl e ↦ ground (
    arith,
    ap (λ x. c.sign payload x == c.sign payload key) ((eq_iff k key).0 e),
    eq_refl (c.sign payload key),
  )
  | inr e ↦ ground (
    arith,
    signed_by-contains c keys payload key (ground (arith, e, h)),
    Bool-cases (c.sign payload k == c.sign payload key),
  )
]

return_page-safe :
    (w : Web) (base : String) (now : ℕ) (o : Option Return) (href : String)
    → return_page w base now o ≡ some href
    → (d : Return) × (u : Url) × (o ≡ some d)
      × (now < 1000 * d.e)
      × (w.parse d.u ≡ some u)
      × (u.href ≡ href)
      × (is_host_in_base_domain w.to_lower_case base u.hostname ≡ true)
return_page-safe w base now none href h = absurd (ground (arith, h))
return_page-safe w base now (some d) href h = elim (Bool-cases (ltb now (1000 * d.e))) [
  | inr e ↦ absurd (ground (arith, e, h))
  | inl e ↦ elim (Option-cases (w.parse d.u)) [
    | inl p ↦ absurd (ground (arith, e, p, h))
    | inr (u, p) ↦ elim (Bool-cases (is_host_in_base_domain w.to_lower_case base u.hostname)) [
      | inl k ↦ (d, u, refl, ltb→lt now (1000 * d.e) e, p, ground (arith, e, p, k, h), k)
      | inr k ↦ absurd (ground (arith, e, p, k, h))
    ]
  ]
]

-- The page that a state leads to is in the base domain, and is the one named by a payload that a current
-- key signed and that has not expired.
pub verify_return_state-safe :
    (w : Web) (c : Crypto) (base : String) (keys : List String) (now : ℕ) (state href : String)
    → verify_return_state w c base keys now (some state) ≡ some href
    → (key : String) × (d : Return) × (u : Url) × (contains key keys ≡ true)
      × (signature_in (after "." state) ≡ c.sign (until "." state) key)
      × (c.decode (until "." state) ≡ some d)
      × (now < 1000 * d.e)
      × (w.parse d.u ≡ some u)
      × (u.href ≡ href)
      × (is_host_in_base_domain w.to_lower_case base u.hostname ≡ true)
unfolding verify_return_state
verify_return_state-safe w c base keys now state href h =
    (let payload = until "." state in
      let signature = signature_in (after "." state) in
      elim (Bool-cases (payload == "" || signature == "")) [
        | inl e ↦ absurd (ground (arith, e, h))
        | inr e ↦ elim (Bool-cases (signed_by c keys payload signature)) [
          | inr f ↦ absurd (ground (arith, e, f, h))
          | inl f ↦
              let (key, there, same) = signed_by-key c keys payload signature f in
              let (d, u, is_d, fresh, is_u, is_href, inside) =
                return_page-safe w base now (c.decode payload) href (ground (arith, e, f, h)) in
              (key, d, u, there, sym same, is_d, fresh, is_u, is_href, inside)
        ]
      ])

-- A page in the base domain is put into a state that is signed with a key. If the payload decodes to what
-- was encoded and has no dot, the signature is not empty and has no dot, and the text of the URL parses to
-- it, then the state leads to that page as long as the key is current and the lifetime has not passed.
pub verify_return_state-sign :
    (w : Web) (c : Crypto) (base key nonce : String) (keys : List String) (lifetime signed now : ℕ)
    (url : Url)
    → let d : Return = record { u = url.href; e = signed + lifetime } in
      let payload = c.encode d nonce in
      c.decode payload ≡ some d
      → after "." payload ≡ none
      → (payload == "") ≡ false
      → after "." (c.sign payload key) ≡ none
      → (c.sign payload key == "") ≡ false
      → w.parse url.href ≡ some url
      → is_host_in_base_domain w.to_lower_case base url.hostname ≡ true
      → contains key keys ≡ true
      → now < 1000 * (signed + lifetime)
      → verify_return_state w c base keys now
          (some (sign_return_state c lifetime key nonce signed url))
        ≡ some url.href
unfolding verify_return_state sign_return_state
verify_return_state-sign w c base key nonce keys lifetime signed now url decodes plain full
      plain_sign full_sign parses inside there fresh =
    (let d : Return = record { u = url.href; e = signed + lifetime } in
      let payload = c.encode d nonce in
      let signature = c.sign payload key in
      let dot : Char = "." in
      let (first, second) = until-concat dot payload signature plain in
      let good = signed_by-contains c keys payload key there in
      let whole = until-free "." signature plain_sign in
      ground (arith, first, second, good, whole, full, full_sign, decodes, parses, inside, fresh))
