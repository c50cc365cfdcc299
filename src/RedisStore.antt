-- ===== src/RedisStore.antt =====
-- The Redis records of the OIDC provider: class RedisAdapter of adapters/redis.js. Redis and JSON are
-- parameters. A record is there until it expires: the model keeps the calls that set a lifetime and
-- lets no time pass.
mod Commands
pub use Commands.*
pub mod Records
pub mod Grants
mod Tests
use passmower.Prelude.{
  ℕ, String, Option, none, some, Bool, true, false, not, List, [], ◌∷◌, ◌++◌, ◌==◌, ◌&&◌, ◌||◌, ◌≡◌,
  if◌then◌else◌, truthy, concat, js_text, contains, without, get_or, Assoc, insert, remove, lookup,
  is_empty,
}

abbrev grantable : List String
grantable =
    "AccessToken" ∷ "AuthorizationCode" ∷ "RefreshToken" ∷ "DeviceCode"
    ∷ "BackchannelAuthenticationRequest" ∷ []

abbrev consumable : List String
consumable =
    "AuthorizationCode" ∷ "RefreshToken" ∷ "DeviceCode" ∷ "BackchannelAuthenticationRequest" ∷ []

unfoldable pub is_grantable : String → Bool
is_grantable name = contains name grantable

unfoldable pub is_consumable : String → Bool
is_consumable name = contains name consumable

pub record Reference : Type 0 where
  pub list_name : String
  pub owner_key : Option String
  pub expire_key : Option String

abbrev references : Assoc Reference
references =
    (
      "Session",
      record { list_name = "AccountSession"; owner_key = some "accountId"; expire_key = none },
    )
    ∷ (
      "SiteSession",
      record { list_name = "AccountSiteSession"; owner_key = some "accountId"; expire_key = none },
    )
    ∷ ("Client", record { list_name = "Clients"; owner_key = none; expire_key = none })
    ∷ (
      "SessionMetadata",
      record { list_name = "UidSessions"; owner_key = some "userId"; expire_key = some "exp" },
    )
    ∷ []

unfoldable pub referencable : String → Option Reference
referencable name = lookup name references

pub grant_key_for : String → String
grant_key_for id = concat "grant:" id

pub user_code_key_for : String → String
user_code_key_for code = concat "userCode:" code

pub uid_key_for : String → String
uid_key_for uid = concat "uid:" uid

pub record_key : String → String → String
record_key name id = concat name (concat ":" id)

module _ (r : Redis) (j : Json) where
  abbrev field_text : String → j.Payload → String
  field_text k p = get_or (j.field k p) ""

  abbrev pub expire_if : Option ℕ → String → r.State → r.State
  expire_if none k s = s
  expire_if (some n) k s = r.expire k n s

  pub store_payload : String → String → j.Payload → r.State → r.State
  store_payload name k p s =
      if is_consumable name then r.hset k "payload" (j.stringify p) s else r.set k (j.stringify p) s

  -- `expiresIn > ttl` is false for an absent `expiresIn`.
  abbrev extend_grant : Option ℕ → String → r.State → r.State → r.State
  extend_grant none k before s = s
  extend_grant (some n) k before s = if r.ttl_below k n before then r.expire k n s else s

  pub push_grant : String → String → j.Payload → Option ℕ → r.State → r.State
  push_grant name k p n s =
      if is_grantable name && truthy (j.field "grantId" p)
      then (let g = grant_key_for (field_text "grantId" p) in extend_grant n g s (r.rpush g k s))
      else s

  pub index_user_code : String → j.Payload → Option ℕ → r.State → r.State
  index_user_code id p n s =
      if truthy (j.field "userCode" p)
      then (let k = user_code_key_for (field_text "userCode" p) in expire_if n k (r.set k id s))
      else s

  pub index_uid : String → j.Payload → Option ℕ → r.State → r.State
  index_uid id p n s =
      if truthy (j.field "uid" p)
      then (let k = uid_key_for (field_text "uid" p) in expire_if n k (r.set k id s))
      else s

  -- `payload[ownerKey] ?? 1`
  abbrev pub owner_of : Reference → Option j.Payload → String
  owner_of f none = "1"
  owner_of f (some p) = elim f.owner_key [ none ↦ "1" | some k ↦ get_or (j.field k p) "1" ]

  abbrev pub list_key : Reference → Option j.Payload → String
  list_key f p = record_key f.list_name (owner_of f p)

  pub refer : String → String → j.Payload → r.State → r.State
  refer name id p s = elim (referencable name) [
    | none ↦ s
    | some f ↦
        let s' = r.sadd (list_key f (some p)) id s in
        elim f.expire_key [
          | none ↦ s'
          | some k ↦
              if truthy (j.field k p)
              then r.expire (list_key f (some p)) (j.seconds_left k p) s'
              else s'
        ]
  ]

  -- upsert; an `expiresIn` of 0 counts as absent.
  pub upsert : String → String → j.Payload → Option ℕ → r.State → r.State
  upsert name id p n s =
      let k = record_key name id in
      refer name id p (
        index_uid id p n (
          index_user_code id p n
            (push_grant name k p n (expire_if n k (store_payload name k p s)))))

  -- The object that find returns: the payload over the other fields of the hash.
  pub record Found : Type 0 where
    pub rest : Assoc String
    pub payload : j.Payload

  abbrev pub from_text : Option String → Option Found
  from_text none = none
  from_text (some t) = if t == "" then none else some (record { rest = []; payload = j.parse t })

  abbrev pub from_hash : Assoc String → Option Found
  from_hash h =
      if is_empty h
      then none
      else some
          (record { rest = remove "payload" h; payload = j.parse (js_text (lookup "payload" h)) })

  pub find : String → String → r.State → Option Found
  find name id s =
      if is_consumable name
      then from_hash (r.value_at s (record_key name id)).hash
      else from_text (r.value_at s (record_key name id)).text

  abbrev pub payload_of : Option Found → Option j.Payload
  payload_of none = none
  payload_of (some f) = some f.payload

  pub destroy : String → String → r.State → r.State
  destroy name id s =
      let s' = r.del (record_key name id) s in
      elim (referencable name) [
        | none ↦ s'
        | some f ↦ r.srem (list_key f (payload_of (find name id s))) id s'
      ]

  abbrev delete_all : List String → r.State → r.State
  delete_all [] s = s
  delete_all (k ∷ ks) s = delete_all ks (r.del k s)

  pub revoke_by_grant_id : String → r.State → r.State
  revoke_by_grant_id g s =
      r.del (grant_key_for g) (delete_all (r.value_at s (grant_key_for g)).list s)

  pub consume : String → String → String → r.State → r.State
  consume name id now s = r.hset (record_key name id) "consumed" now s

  abbrev pub find_at : String → Option String → r.State → Option Found
  find_at name id s = find name (get_or id "null") s

  pub find_by_uid : String → String → r.State → Option Found
  find_by_uid name uid s = find_at name (r.value_at s (uid_key_for uid)).text s

  pub find_by_user_code : String → String → r.State → Option Found
  find_by_user_code name code s = find_at name (r.value_at s (user_code_key_for code)).text s
