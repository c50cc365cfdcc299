-- ===== src/ForwardAuth.antt =====
-- Forward authentication: utils/session/{base-domain, forward-auth-return, site-session}.js. URL, the text
-- functions of Unicode, the HMAC and the encoding of a payload are parameters.
pub mod Hosts
pub mod ReturnState
pub mod Site
pub mod Sites
mod Tests
use Prim.Native.Char.{code}
use Prim.Native.String
use passmower.Prelude.{
  ℕ, suc, ◌+◌, ◌*◌, String, Option, none, some, Bool, true, false, not, List, [], ◌∷◌, ◌==◌, ◌&&◌,
  ◌||◌, Assoc, lookup, insert, filter, any, contains, leb, ltb, truthy, get_or, is_some, same_text,
  concat, until, after, ends_with, strip_prefix, if◌then◌else◌,
}

pub record Url : Type 0 where
  pub host : String
  pub hostname : String
  pub username : String
  pub pathname : String
  pub search : String
  pub hash : String
  pub href : String

-- new URL(text), none where it throws, and what the code asks of text.
pub record Web : Type 0 where
  pub parse : String → Option Url
  pub trim : String → String
  pub to_lower_case : String → String

-- .replace(/\.$/, '')
abbrev pub without_last_dot : String → String
without_last_dot String.[] = String.[]
without_last_dot (String.◌∷◌ c s) =
    let rest = without_last_dot s in if String.◌∷◌ c s == "." then String.[] else String.◌∷◌ c rest

unfoldable pub is_host_in_base_domain : (String → String) → String → String → Bool
is_host_in_base_domain to_lower_case base_domain host =
    (let h = without_last_dot (to_lower_case host) in
      let b = to_lower_case base_domain in h == b || ends_with (concat "." b) h)

-- getUrlsInProviderBaseDomain; none where new URL throws.
pub urls_in_base_domain : Web → String → List String → Option (List String)
unfolding is_host_in_base_domain
urls_in_base_domain w base_domain [] = some []
urls_in_base_domain w base_domain (u ∷ us) =
    (let rest = urls_in_base_domain w base_domain us in
      elim (w.parse u) [
        | none ↦ none
        | some url ↦ elim rest [
          | none ↦ none
          | some kept ↦ some (
              if is_host_in_base_domain w.to_lower_case base_domain url.hostname
              then u ∷ kept
              else kept)
        ]
      ])

-- first(value)
abbrev pub first_value : Web → Option String → Option String
first_value w none = none
first_value w (some v) = let t = w.trim (until "," v) in if t == "" then none else some t

abbrev pub page_scheme : String → Option String
page_scheme scheme =
    if scheme == "http" || scheme == "ws"
    then some "http"
    else if scheme == "https" || scheme == "wss"
    then some "https"
    else none

abbrev is_digit : String → Bool
is_digit d = contains d ("0" ∷ "1" ∷ "2" ∷ "3" ∷ "4" ∷ "5" ∷ "6" ∷ "7" ∷ "8" ∷ "9" ∷ [])

pub all_digits : String → Bool
all_digits String.[] = true
all_digits (String.◌∷◌ c s) = is_digit (String.◌∷◌ c String.[]) && all_digits s

-- /\]:\d+$|^[^[\]]+:\d+$/ : `bracketed` and `plain` tell whether what was read so far has a bracket, and
-- `closed` whether its last character is one that closes.
pub port_from : Bool → Bool → Bool → String → Bool
unfolding all_digits
port_from is_empty bracketed closed String.[] = false
port_from is_empty bracketed closed (String.◌∷◌ c s) =
    (let d = String.◌∷◌ c String.[] in
      let rest = port_from false (bracketed || d == "[" || d == "]") (d == "]") s in
      (d == ":" && not (s == "") && all_digits s && (closed || (not is_empty && not bracketed)))
      || rest)

unfoldable pub has_port : String → Bool
unfolding port_from
has_port host = port_from true false false host

pub record Headers : Type 0 where
  pub forwarded_proto : Option String
  pub forwarded_host : Option String
  pub forwarded_port : Option String
  pub forwarded_uri : Option String

abbrev pub with_port : Option String → String → String
with_port none host = host
with_port (some port) host = if has_port host then host else concat host (concat ":" port)

-- Whether the host shifted the authority.
abbrev pub is_shifted : Url → Url → Bool
is_shifted authority url =
    not (authority.username == "")
    || not (authority.pathname == "/")
    || not (authority.search == "")
    || not (authority.hash == "")
    || not (url.host == authority.host)
    || not (url.username == "")

abbrev pub in_domain : Web → String → Option Url → Option Url → Option Url
in_domain w base_domain (some authority) (some url) =
    if is_shifted authority url
    then none
    else if is_host_in_base_domain w.to_lower_case base_domain url.hostname
    then some url
    else none
in_domain w base_domain (some authority) none = none
in_domain w base_domain none url = none

abbrev pub page_of : Headers → String
page_of h = if truthy h.forwarded_uri then get_or h.forwarded_uri "/" else "/"

abbrev pub proto_of : Web → Headers → Option String
proto_of w h = elim (first_value w h.forwarded_proto) [
  | none ↦ some "https"
  | some p ↦ page_scheme (w.to_lower_case p)
]

unfoldable pub requested_url : Web → String → Headers → Option Url
unfolding has_port is_host_in_base_domain
requested_url w base_domain h = elim (proto_of w h) [
  | none ↦ none
  | some proto ↦ elim (first_value w h.forwarded_host) [
    | none ↦ none
    | some host ↦
        if not (is_some (strip_prefix "/" (page_of h)))
        then none
        else (let authority =
              concat proto (concat "://" (with_port (first_value w h.forwarded_port) host)) in
            in_domain w base_domain (w.parse authority) (w.parse (concat authority (page_of h))))
  ]
]

-- What a return state carries: the URL, and when it expires, in seconds.
pub record Return : Type 0 where
  pub u : String
  pub e : ℕ

-- The HMAC of a payload by a key, and a payload as text; `decode` is none where it throws.
pub record Crypto : Type 0 where
  pub sign : String → String → String
  pub encode : Return → String → String  -- with the nonce
  pub decode : String → Option Return

-- `lifetime` is ttl.Interaction; the key is the newest one.
unfoldable pub sign_return_state : Crypto → ℕ → String → String → ℕ → Url → String
sign_return_state c lifetime key nonce now_seconds url =
    (let payload = c.encode (record { u = url.href; e = now_seconds + lifetime }) nonce in
      concat payload (concat "." (c.sign payload key)))

abbrev pub page_in_domain : Web → String → Option Url → Option String
page_in_domain w base_domain none = none
page_in_domain w base_domain (some url) =
    if is_host_in_base_domain w.to_lower_case base_domain url.hostname then some url.href else none

abbrev pub return_page : Web → String → ℕ → Option Return → Option String
return_page w base_domain now none = none
return_page w base_domain now (some d) =
    if ltb now (1000 * d.e) then page_in_domain w base_domain (w.parse d.u) else none

abbrev pub signed_by : Crypto → List String → String → String → Bool
signed_by c keys payload signature = any (λ key. c.sign payload key == signature) keys

abbrev signature_in : Option String → String
signature_in none = ""
signature_in (some rest) = until "." rest

-- `now` is in milliseconds. A state that is no text is absent.
unfoldable pub verify_return_state :
    Web → Crypto → String → List String → ℕ → Option String → Option String
unfolding is_host_in_base_domain
verify_return_state w c base_domain keys now none = none
verify_return_state w c base_domain keys now (some state) =
    (let payload = until "." state in
      let signature = signature_in (after "." state) in
      if payload == "" || signature == ""
      then none
      else if signed_by c keys payload signature
      then return_page w base_domain now (c.decode payload)
      else none)
