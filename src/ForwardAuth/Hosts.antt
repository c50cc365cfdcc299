-- ===== src/ForwardAuth/Hosts.antt =====
-- Which hosts are in the base domain, and which URLs a proxy can ask for.
use passmower.Prelude.{
  String, Option, none, some, true, false, ◌==◌, ◌||◌, ◌≡◌, ◌↔◌, ◌⊎◌, refl, sym, ap, ◌∙◌, inl, inr,
  concat, ends_with, ends_with_sound, ends_with-concat, is_some, strip_prefix, arith, eq_iff,
  Bool-cases, Option-cases,
}
use passmower.ForwardAuth.{
  Url, Web, Headers, without_last_dot, is_host_in_base_domain, first_value, is_shifted, page_of,
  page_scheme, proto_of, in_domain, with_port, has_port, requested_url,
}

-- A host, in lower case and without a dot at its end, is in the base domain exactly if it is that domain,
-- or ends with it after a dot.
pub is_host_in_base_domain_exact :
    (lower : String → String) (base host : String)
    → (is_host_in_base_domain lower base host ≡ true) ↔ (
        (without_last_dot (lower host) ≡ lower base)
        ⊎ ((sub : String) × (concat sub (concat "." (lower base)) ≡ without_last_dot (lower host))))
unfolding is_host_in_base_domain
is_host_in_base_domain_exact lower base host =
    (let h = without_last_dot (lower host) in
      let b = lower base in
      (
        λ k. elim (Bool-cases (h == b)) [
          | inl e ↦ inl ((eq_iff h b).0 e)
          | inr e ↦ inr (ends_with_sound (concat "." b) h (ground (arith, e, k)))
        ],
        λ k. elim k [
          | inl e ↦ ground (arith, (eq_iff h b).1 e)
          | inr (sub, e) ↦
              let ends : ends_with (concat "." b) h ≡ true =
                ap (ends_with (concat "." b)) (sym e) ∙ ends_with-concat (concat "." b) sub in
              ground (arith, ends, Bool-cases (h == b))
        ],
      ))

in_domain-safe :
    (w : Web) (base : String) (authority url : Option Url) (u : Url)
    → in_domain w base authority url ≡ some u
    → (a : Url) × (authority ≡ some a)
      × (url ≡ some u)
      × (is_shifted a u ≡ false)
      × (is_host_in_base_domain w.to_lower_case base u.hostname ≡ true)
in_domain-safe w base none url u h = absurd (ground (arith, h))
in_domain-safe w base (some a) none u h = absurd (ground (arith, h))
in_domain-safe w base (some a) (some x) u h = elim (Bool-cases (is_shifted a x)) [
  | inl e ↦ absurd (ground (arith, e, h))
  | inr e ↦ elim (Bool-cases (is_host_in_base_domain w.to_lower_case base x.hostname)) [
    | inl k ↦
        let is_u : x ≡ u = ground (arith, e, k, h) in
        (
          a,
          refl,
          ap some is_u,
          ap (is_shifted a) (sym is_u) ∙ e,
          ap (λ (y : Url). is_host_in_base_domain w.to_lower_case base y.hostname) (sym is_u) ∙ k,
        )
    | inr k ↦ absurd (ground (arith, e, k, h))
  ]
]

page_scheme-page : (s p : String) → page_scheme s ≡ some p → (p ≡ "http") ⊎ (p ≡ "https")
page_scheme-page s p h = elim (Bool-cases (s == "http" || s == "ws")) [
  | inl e ↦ inl (ground (arith, e, h))
  | inr e ↦ elim (Bool-cases (s == "https" || s == "wss")) [
    | inl f ↦ inr (ground (arith, e, f, h))
    | inr f ↦ absurd (ground (arith, e, f, h))
  ]
]

proto_of-page :
    (w : Web) (h : Headers) (p : String) → proto_of w h ≡ some p → (p ≡ "http") ⊎ (p ≡ "https")
proto_of-page w h p k = elim (Option-cases (first_value w h.forwarded_proto)) [
  | inl e ↦ inr (ground (arith, e, k))
  | inr (v, e) ↦ page_scheme-page (w.to_lower_case v) p (ground (arith, e, k))
]

-- The forwarded port is put behind a host that has none.
with_port-shown :
    (o : Option String) (host : String)
    → (with_port o host ≡ host)
      ⊎ ((port : String) × (o ≡ some port) × (with_port o host ≡ concat host (concat ":" port)))
with_port-shown none host = inl refl
with_port-shown (some port) host = elim (Bool-cases (has_port host)) [
  | inl k ↦ inl (rw (k) refl)
  | inr k ↦ inr (port, refl, rw (k) refl)
]

-- The URL that a proxy is taken to ask for: with the first forwarded host, behind which the first forwarded
-- port may stand, and with http or https, the host alone parses to a URL with no user, page, query or
-- fragment; host and forwarded page together parse to the URL, which has the same host as that and is in
-- the base domain.
pub requested_url-safe :
    (w : Web) (base : String) (h : Headers) (u : Url)
    → requested_url w base h ≡ some u
    → (proto host shown : String) × (a : Url) × (first_value w h.forwarded_host ≡ some host)
      × ((shown ≡ host)
          ⊎ ((port : String) × (first_value w h.forwarded_port ≡ some port)
              × (shown ≡ concat host (concat ":" port))))
      × (w.parse (concat proto (concat "://" shown)) ≡ some a)
      × (w.parse (concat (concat proto (concat "://" shown)) (page_of h)) ≡ some u)
      × ((proto ≡ "http") ⊎ (proto ≡ "https"))
      × (is_shifted a u ≡ false)
      × (is_host_in_base_domain w.to_lower_case base u.hostname ≡ true)
unfolding requested_url
requested_url-safe w base h u k = elim (Option-cases (proto_of w h)) [
  | inl e ↦ absurd (ground (arith, e, k))
  | inr (proto, e) ↦ elim (Option-cases (first_value w h.forwarded_host)) [
    | inl f ↦ absurd (ground (arith, e, f, k))
    | inr (host, f) ↦ elim (Bool-cases (is_some (strip_prefix "/" (page_of h)))) [
      | inr g ↦ absurd (ground (arith, e, f, g, k))
      | inl g ↦
          let shown = with_port (first_value w h.forwarded_port) host in
          let authority = concat proto (concat "://" shown) in
          let (a, is_a, is_u, straight, inside) =
            in_domain-safe w base (w.parse authority) (w.parse (concat authority (page_of h))) u
              (ground (arith, e, f, g, k)) in
          (
            proto,
            host,
            shown,
            a,
            f,
            with_port-shown (first_value w h.forwarded_port) host,
            is_a,
            is_u,
            proto_of-page w h proto e,
            straight,
            inside,
          )
    ]
  ]
]
