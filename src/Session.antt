-- ===== src/Session.antt =====
-- Sessions: services/session-service.js, with the Redis records of one model as an interface. Cookies are
-- an association list; a cookie that is set to nothing is gone.
pub mod Table
pub mod Links
pub mod Cookies
pub mod Cleanup
mod Tests
use passmower.Prelude.{
  ℕ, String, Option, none, some, Bool, true, false, not, List, [], ◌∷◌, ◌==◌, ◌&&◌, ◌≡◌, Assoc,
  lookup, insert, remove, concat, filter, filter_map, find, leb, sort_by, head?, is_some, same_text,
  truthy, get_or, if◌then◌else◌, contains, map,
}
use passmower.Account.{Account}
use passmower.Access.{can_impersonate_account}

-- find, upsert and destroy of a RedisAdapter, which no other model writes. Records expire: `find` says
-- what is there now.
pub record Records (P : Type 0) : Type 1 where
  pub State : Type 0
  pub find : String → State → Option P
  pub upsert : String → P → State → State
  pub destroy : String → State → State
  pub find-upsert : (k : String) (p : P) (s : State) → find k (upsert k p s) ≡ some p
  pub find-upsert_other :
      (j k : String) (p : P) (s : State) → (j == k) ≡ false → find k (upsert j p s) ≡ find k s
  pub find-destroy : (k : String) (s : State) → find k (destroy k s) ≡ none
  pub find-destroy_other :
      (j k : String) (s : State) → (j == k) ≡ false → find k (destroy j s) ≡ find k s

pub record Impersonation : Type 0 where
  pub jti : String
  pub actor : String
  pub account_id : String
  pub activated : Bool

abbrev pub Cookies : Type 0
Cookies = Assoc String

-- ctx.cookies.set(name, value)
abbrev pub set_cookie : String → Option String → Cookies → Cookies
set_cookie name none cookies = remove name cookies
set_cookie name (some v) cookies = insert name v cookies

pub data Creation : Type 0 where
  account_missing : Creation
  not_impersonatable : Creation
  link : String → Creation

module _ (r : Records Impersonation) where
  -- `found` is what findAccount gives, `jti` a fresh nanoid.
  unfoldable pub create_impersonation :
      String → String → String → String → Option Account → r.State → Creation × r.State
  create_impersonation issuer_url jti actor account_id found s = elim found [
    | none ↦ (account_missing, s)
    | some a ↦
        if can_impersonate_account (some a)
        then (
          link (concat issuer_url (concat "impersonate/" jti)),
          r.upsert jti
              (record { jti = jti; actor = actor; account_id = account_id; activated = false }) s,
        )
        else (not_impersonatable, s)
  ]

  -- What activateImpersonation does once it has read the record.
  unfoldable pub activate_found :
      String
      → String
      → Option Impersonation
      → Cookies
      → r.State
      → Option Impersonation × Cookies × r.State
  activate_found cookie_name jti none cookies s = (none, cookies, s)
  activate_found cookie_name jti (some i) cookies s =
      if i.activated
      then (none, cookies, s)
      else (let activated = record i { activated = true } in
          (some activated, set_cookie cookie_name (some jti) cookies, r.upsert jti activated s))

  unfoldable pub activate_impersonation :
      String → String → Cookies → r.State → Option Impersonation × Cookies × r.State
  unfolding activate_found
  activate_impersonation cookie_name jti cookies s =
      activate_found cookie_name jti (r.find jti s) cookies s

  unfoldable pub get_impersonation : String → Cookies → r.State → Option Impersonation
  get_impersonation cookie_name cookies s = elim (lookup cookie_name cookies) [
    | none ↦ none
    | some jti ↦ if jti == "" then none else r.find jti s
  ]

  -- With the names of the cookies. The cookies that are read are the request's; destroy of nothing leaves
  -- the records alone.
  unfoldable pub end_impersonation :
      String → String → String → Cookies → r.State → Cookies × r.State
  end_impersonation impersonation session admin_session cookies s =
      (let admin = lookup admin_session cookies in
        (
          set_cookie (concat session ".legacy") admin
              (set_cookie session admin (set_cookie impersonation none cookies)),
          (elim (lookup impersonation cookies) [ none ↦ s | some jti ↦ r.destroy jti s ]),
        ))

pub record AdminSession : Type 0 where
  pub jti : String
  pub account_id : String

module _ (r : Records AdminSession) where
  unfoldable pub get_admin_session : String → Cookies → r.State → Option AdminSession
  get_admin_session cookie_name cookies s = elim (lookup cookie_name cookies) [
    | none ↦ none
    | some jti ↦ if jti == "" then none else r.find jti s
  ]

  unfoldable pub set_admin_session : String → AdminSession → Cookies → r.State → Cookies × r.State
  set_admin_session cookie_name session cookies s =
      (set_cookie cookie_name (some session.jti) cookies, r.upsert session.jti session s)

  unfoldable pub end_admin_session :
      String → Option AdminSession → Cookies → r.State → Cookies × r.State
  end_admin_session cookie_name session cookies s = (
    set_cookie cookie_name none cookies,
    (elim session [ none ↦ s | some a ↦ if a.jti == "" then s else r.destroy a.jti s ]),
  )

-- What a browser's session is known by.
pub record Metadata : Type 0 where
  pub session_id : String
  pub client_id : Option String
  pub ts : ℕ

-- The records that the lists of sessions are made of: Session, by its uid, AccountSession, UidSessions
-- and SessionMetadata.
pub record Lists : Type 0 where
  pub session_uid : Assoc String
  pub account_sessions : Assoc (List String)
  pub uid_sessions : Assoc (List String)
  pub metadata : Assoc Metadata

abbrev pub sessions_of : String → Lists → List String
sessions_of account_id l = get_or (lookup account_id l.account_sessions) []

abbrev metadata_of : List String → Lists → Option Metadata
metadata_of [] l = none
metadata_of (m ∷ ms) l = lookup m l.metadata

abbrev response_of : Option String → Lists → Option Metadata
response_of none l = none
response_of (some uid) l = metadata_of (get_or (lookup uid l.uid_sessions) []) l

-- A session's entry, beside its own id; parseRequestMetadata renders it.
pub map_response : List String → Lists → List (String × Metadata)
map_response [] l = []
map_response (s ∷ ss) l =
    (let rest = map_response ss l in
      elim (response_of (lookup s l.session_uid) l) [ none ↦ rest | some m ↦ (s, m) ∷ rest ])

unfoldable pub get_sessions : String → Lists → List (String × Metadata)
unfolding map_response
get_sessions account_id l = map_response (sessions_of account_id l) l

-- The newest metadata first; the order of those of one time is kept.
abbrev pub by_time : List Metadata → List Metadata
by_time ms = sort_by (λ (a : Metadata) (b : Metadata). leb b.ts a.ts) ms

abbrev newest_for : String → Option String → Lists → Option Metadata
newest_for client_id none l = none
newest_for client_id (some uid) l = head? (
    by_time (
      filter (λ (m : Metadata). same_text m.client_id (some client_id))
        (filter_map (λ s. lookup s l.metadata) (get_or (lookup uid l.uid_sessions) []))))

unfoldable pub get_last_session_info_per_client : String → String → Lists → Option Metadata
get_last_session_info_per_client account_id client_id l = head? (
    by_time (
      filter_map (λ s. newest_for client_id (lookup s l.session_uid) l) (sessions_of account_id l)))

-- One session of cleanupSessions: removeFromSet leaves a set that is there, perhaps empty.
unfoldable pub cleanup_session : String → Lists → String → Lists
cleanup_session account_id l s = if is_some (lookup s l.session_uid) then l else record l {
  metadata = remove s l.metadata;
  account_sessions =
      insert account_id (filter (λ x. not (x == s)) (sessions_of account_id l)) l.account_sessions;
}

pub cleanup_each : String → List String → Lists → Lists
unfolding cleanup_session
cleanup_each account_id [] l = l
cleanup_each account_id (s ∷ ss) l = cleanup_each account_id ss (cleanup_session account_id l s)

unfoldable pub cleanup_sessions : String → Lists → Lists
unfolding cleanup_each
cleanup_sessions account_id l = cleanup_each account_id (sessions_of account_id l) l
