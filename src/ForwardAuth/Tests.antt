-- ===== src/ForwardAuth/Tests.antt =====
-- Runs of forward authentication.
use passmower.Prelude.{
  ◌*◌, ◌<◌, String, Option, none, some, true, false, [], ◌∷◌, ◌==◌, ◌≡◌, ◌⊎◌, refl, concat,
  contains, until, after, arith, lookup, if◌then◌else◌,
}
use passmower.Session.Table.{table}
use passmower.ForwardAuth.{
  Url, Web, Headers, Return, Crypto, is_host_in_base_domain, has_port, first_value, requested_url,
  is_shifted, sign_return_state, verify_return_state, signature_in,
}
use passmower.ForwardAuth.Hosts.{requested_url-safe}
use passmower.ForwardAuth.ReturnState.{verify_return_state-safe, verify_return_state-sign}
use passmower.ForwardAuth.Site.{
  Sites, SiteSession, BaseSession, validate_site_session, get_site_session_scope,
  site_session_ip_mismatch, stands,
}
use passmower.ForwardAuth.Sites.{validate_site_session-safe}

abbrev lower : String → String
lower s = s

abbrev app : Url
app = record {
  host = "app.ex.org";
  hostname = "app.ex.org";
  username = "";
  pathname = "/";
  search = "";
  hash = "";
  href = "https://app.ex.org/";
}

-- A parser that knows one host.
abbrev parse_app : String → Option Url
parse_app text =
    if text == "https://app.ex.org"
    then some app
    else if text == "https://app.ex.org/"
    then some app
    else none

abbrev web : Web
web = record { parse = parse_app; trim = lower; to_lower_case = lower }

subdomain : is_host_in_base_domain lower "ex.org" "app.ex.org." ≡ true
unfolding is_host_in_base_domain
subdomain = refl

look_alike : is_host_in_base_domain lower "ex.org" "evilex.org" ≡ false
unfolding is_host_in_base_domain
look_alike = refl

ipv6_without_port : has_port "[fd00::1]" ≡ false
unfolding has_port
ipv6_without_port = refl

ipv6_with_port : has_port "[fd00::1]:443" ≡ true
unfolding has_port
ipv6_with_port = refl

abbrev headers : Headers
headers = record {
  forwarded_proto = some "wss,http";
  forwarded_host = some "app.ex.org";
  forwarded_port = none;
  forwarded_uri = some "/";
}

requested_url-safe_example :
    (proto host shown : String) × (a : Url) × (first_value web headers.forwarded_host ≡ some host)
    × ((shown ≡ host)
        ⊎ ((port : String) × (first_value web headers.forwarded_port ≡ some port)
            × (shown ≡ concat host (concat ":" port))))
    × (web.parse (concat proto (concat "://" shown)) ≡ some a)
    × (web.parse (concat (concat proto (concat "://" shown)) "/") ≡ some app)
    × ((proto ≡ "http") ⊎ (proto ≡ "https"))
    × (is_shifted a app ≡ false)
    × (is_host_in_base_domain lower "ex.org" "app.ex.org" ≡ true)
unfolding requested_url is_host_in_base_domain
requested_url-safe_example = requested_url-safe web "ex.org" headers app refl

-- The payload is the URL alone, and every key signs alike: enough to run the code.
abbrev toy : Crypto
toy = record {
  sign = λ p k. "sig";
  encode = λ d n. "payload";
  decode = λ t. some (record { u = "https://app.ex.org/"; e = 100 });
}

verify_return_state-safe_example :
    (key : String) × (d : Return) × (u : Url) × (contains key ("k" ∷ []) ≡ true)
    × (signature_in (after "." "payload.sig") ≡ toy.sign (until "." "payload.sig") key)
    × (toy.decode (until "." "payload.sig") ≡ some d)
    × (5 < 1000 * d.e)
    × (web.parse d.u ≡ some u)
    × (u.href ≡ "https://app.ex.org/")
    × (is_host_in_base_domain lower "ex.org" u.hostname ≡ true)
unfolding verify_return_state is_host_in_base_domain
verify_return_state-safe_example =
    verify_return_state-safe web toy "ex.org" ("k" ∷ []) 5 "payload.sig" "https://app.ex.org/" refl

verify_return_state-sign_example :
    verify_return_state web toy "ex.org"
      ("k" ∷ [])
      5
      (some (sign_return_state toy 60 "k" "n" 40 app))
    ≡ some "https://app.ex.org/"
unfolding is_host_in_base_domain
verify_return_state-sign_example =
    verify_return_state-sign web toy "ex.org" "k" "n" ("k" ∷ []) 60 40 5 app refl refl refl refl
      refl refl refl refl (ground arith)

abbrev sites : Sites
sites = record {
  base = "ex.org";
  hostname = "auth.ex.org";
  self = "passmower";
  cookie_name = "__site";
  ip_binding = some "true";
}

-- Every session names one client.
abbrev sessions : String → Option BaseSession
sessions id = some (record { authorizations = some ("wiki" ∷ []) })

abbrev visit : SiteSession
visit = record {
  jti = "j";
  session_id = some "s";
  account_id = "anna";
  domain = "ex.org";
  ip = some "::1";
}

validate_site_session-safe_example :
    (jti : String) × (some "j" ≡ some jti)
    × (lookup jti (("j", visit) ∷ []) ≡ some visit)
    × (visit.domain ≡ get_site_session_scope sites "wiki")
    × (site_session_ip_mismatch sites (some visit) (some "::1") ≡ false)
    × (stands (table SiteSession) sessions "wiki" visit ≡ true)
unfolding validate_site_session site_session_ip_mismatch stands get_site_session_scope
validate_site_session-safe_example =
    validate_site_session-safe (table SiteSession) sessions sites "wiki" (some "j") (some "::1")
      (("j", visit) ∷ []) visit refl
