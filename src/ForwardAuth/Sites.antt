-- ===== src/ForwardAuth/Sites.antt =====
-- Which site sessions are accepted.
use passmower.Prelude.{
  String, Option, none, some, true, false, ◌==◌, ◌&&◌, ◌≡◌, refl, sym, inl, inr, same_text, arith,
  eq_refl, Bool-cases, Option-cases, ==→≡,
}
use passmower.Session.{Records}
use passmower.ForwardAuth.Site.{
  Sites, SiteSession, BaseSession, get_site_session_scope, site_session_ip_mismatch,
  add_site_session, stands, validate_site_session,
}

same_address : (ip : Option String) → same_text ip ip ≡ true
same_address none = refl
same_address (some a) = eq_refl a

module _ (r : Records SiteSession) (sessions : String → Option BaseSession) where
  -- A site session that is accepted for a client is stored under the request's cookie and was made for the
  -- scope of that client; where addresses are bound, it is used from the address that it was made for; and
  -- the session behind it, if it has one, still exists and, where it names its clients, names this one.
  pub validate_site_session-safe :
      (c : Sites) (client_id : String) (cookie ip : Option String) (s : r.State) (x : SiteSession)
      → (validate_site_session r sessions c client_id cookie ip s).0 ≡ some x
      → (jti : String) × (cookie ≡ some jti)
        × (r.find jti s ≡ some x)
        × (x.domain ≡ get_site_session_scope c client_id)
        × (site_session_ip_mismatch c (some x) ip ≡ false)
        × (stands r sessions client_id x ≡ true)
  unfolding validate_site_session
  validate_site_session-safe c client_id none ip s x h = absurd (ground (arith, h))
  validate_site_session-safe c client_id (some jti) ip s x h = elim (Option-cases (r.find jti s)) [
    | inl e ↦ absurd (ground (arith, e, h))
    | inr (y, e) ↦ elim (Bool-cases (site_session_ip_mismatch c (some y) ip)) [
      | inl f ↦ absurd (ground (arith, e, f, h))
      | inr f ↦
          elim (Bool-cases
            (stands r sessions client_id y && y.domain == get_site_session_scope c client_id)) [
              | inr g ↦ absurd (ground (arith, e, f, g, h))
              | inl g ↦
                  let same : y ≡ x = ground (arith, e, f, g, h) in
                  rw (sym same) (
                    jti,
                    refl,
                    e,
                    ==→≡ y.domain (get_site_session_scope c client_id) (ground (arith, g)),
                    f,
                    ground (arith, g),
                  )
            ]
    ]
  ]

  -- A site session that was added for a client is accepted for it, from the same address, while the session
  -- behind it stands.
  pub validate_site_session-add :
      (c : Sites) (jti account_id client_id : String) (session_id ip : Option String) (s : r.State)
      → let added = add_site_session r sessions c jti session_id account_id client_id ip s in
        stands r sessions client_id added.0 ≡ true
        → (validate_site_session r sessions c client_id (some jti) ip added.1).0 ≡ some added.0
  unfolding validate_site_session add_site_session site_session_ip_mismatch
  validate_site_session-add c jti account_id client_id session_id ip s h =
      (let made : SiteSession = record {
        jti = jti;
        session_id = session_id;
        account_id = account_id;
        domain = get_site_session_scope c client_id;
        ip = ip;
      } in
        ground (
          arith,
          h,
          r.find-upsert jti made s,
          same_address ip,
          Bool-cases (same_text c.ip_binding (some "true")),
          eq_refl (get_site_session_scope c client_id),
        ))
