-- ===== src/ForwardAuth/Site.antt =====
-- Site sessions: utils/session/site-session.js.
use passmower.Prelude.{
  String, Option, none, some, Bool, true, false, not, List, [], ◌∷◌, ◌==◌, ◌&&◌, contains, truthy,
  get_or, same_text, concat, if◌then◌else◌,
}
use passmower.Session.{Records}

-- `base` is providerBaseDomain, `hostname` the issuer's, `self` the id of the dashboard's client.
pub record Sites : Type 0 where
  pub base : String
  pub hostname : String
  pub self : String
  pub cookie_name : String
  pub ip_binding : Option String  -- SITE_SESSION_IP_BINDING

pub record SiteSession : Type 0 where
  pub jti : String
  pub session_id : Option String
  pub account_id : String
  pub domain : String
  pub ip : Option String

-- A session of the browser, with the clients that its authorizations name, where it has some.
pub record BaseSession : Type 0 where
  pub authorizations : Option (List String)

abbrev pub full_cookie_name : Sites → String → String
full_cookie_name c client_id = concat c.cookie_name (concat "." client_id)

pub get_site_session_cookie_domain : Sites → String → Option String
get_site_session_cookie_domain c client_id = if client_id == c.self then none else some c.base

pub get_legacy_site_session_cookie_domain : Sites → String → Option String
get_legacy_site_session_cookie_domain c client_id =
    if client_id == c.self && not (c.base == c.hostname) then some c.base else none

unfoldable pub get_site_session_scope : Sites → String → String
unfolding get_site_session_cookie_domain
get_site_session_scope c client_id = get_or (get_site_session_cookie_domain c client_id) c.hostname

unfoldable pub site_session_ip_mismatch : Sites → Option SiteSession → Option String → Bool
site_session_ip_mismatch c s ip =
    if not (same_text c.ip_binding (some "true"))
    then false
    else elim s [ none ↦ not (same_text none ip) | some x ↦ not (same_text x.ip ip) ]

-- A cookie with the domain that it is set for, if any.
abbrev pub DomainCookie : Type 0
DomainCookie = (String × Option String) × Option String

-- The cookies that addSiteSession sets, each with its domain and its value.
pub site_cookies : Sites → String → String → List DomainCookie
unfolding get_site_session_cookie_domain get_legacy_site_session_cookie_domain
site_cookies c client_id jti =
    (let name = full_cookie_name c client_id in
      let cookie : DomainCookie = ((name, get_site_session_cookie_domain c client_id), some jti) in
      elim (get_legacy_site_session_cookie_domain c client_id) [
        | none ↦ cookie ∷ []
        | some legacy ↦ ((name, some legacy), none) ∷ cookie ∷ []
      ])

module _ (r : Records SiteSession) (sessions : String → Option BaseSession) where
  -- `jti` is a fresh nanoid.
  unfoldable pub add_site_session :
      Sites
      → String
      → Option String
      → String
      → String
      → Option String
      → r.State
      → SiteSession × r.State
  unfolding get_site_session_scope
  add_site_session c jti session_id account_id client_id ip s =
      (let made : SiteSession = record {
        jti = jti;
        session_id = session_id;
        account_id = account_id;
        domain = get_site_session_scope c client_id;
        ip = ip;
      } in
        (made, r.upsert jti made s))

  -- Whether the session behind a site session still stands for the client.
  unfoldable pub stands : String → SiteSession → Bool
  stands client_id x =
      if truthy x.session_id
      then elim (sessions (get_or x.session_id "")) [
        | none ↦ false
        | some b ↦ elim b.authorizations [ none ↦ true | some clients ↦ contains client_id clients ]
      ]
      else true

  -- `cookie` is the request's cookie for the client, `ip` its address.
  unfoldable pub validate_site_session :
      Sites → String → Option String → Option String → r.State → Option SiteSession × r.State
  unfolding site_session_ip_mismatch stands get_site_session_scope
  validate_site_session c client_id cookie ip s = elim cookie [
    | none ↦ (none, s)
    | some jti ↦ elim (r.find jti s) [
      | none ↦ (none, s)
      | some x ↦ if site_session_ip_mismatch c (some x) ip then (none, r.destroy x.jti s) else (
        (if stands client_id x && x.domain == get_site_session_scope c client_id
            then some x
            else none),
        s,
      )
    ]
  ]

  -- updateSessionReference, of the account's site sessions that are in the set.
  pub update_session_reference : Option String → Option String → List String → r.State → r.State
  update_session_reference session_id old_session_id [] s = s
  update_session_reference session_id old_session_id (k ∷ ks) s = elim (r.find k s) [
    | none ↦ update_session_reference session_id old_session_id ks s
    | some x ↦
        let moved =
          update_session_reference session_id old_session_id ks
            (r.upsert k (record x { session_id = session_id }) s) in
        let kept = update_session_reference session_id old_session_id ks s in
        if same_text x.session_id old_session_id then moved else kept
  ]
