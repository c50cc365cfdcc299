-- ===== src/RedisStore/Records.antt =====
-- A record between its upsert, its destroy and its consumption.
use passmower.Prelude.{
  ℕ, String, Option, none, some, Bool, true, false, [], ◌∷◌, ◌==◌, ◌&&◌, ◌||◌, ◌≡◌, refl, ◌∙◌, ap,
  arith, eq_refl, truthy, get_or, Assoc, lookup, lookup-insert, Option-cases, Bool-cases, inl, inr,
}
use passmower.RedisStore.{
  Redis, Json, is_consumable, is_grantable, referencable, grant_key_for, user_code_key_for,
  uid_key_for, record_key, store_payload, push_grant, index_user_code, index_uid, list_key, refer,
  upsert, find, expire_if, payload_of, from_text, from_hash,
}

module _ (r : Redis) (j : Json) where
  abbrev pub is_grant_key : String → j.Payload → String → Bool
  is_grant_key name p k =
      is_grantable name
      && truthy (j.field "grantId" p)
      && grant_key_for (get_or (j.field "grantId" p) "") == k

  abbrev pub is_index_key : j.Payload → String → Bool
  is_index_key p k =
      (truthy (j.field "userCode" p) && user_code_key_for (get_or (j.field "userCode" p) "") == k)
      || (truthy (j.field "uid" p) && uid_key_for (get_or (j.field "uid" p) "") == k)

  abbrev pub is_list_key : String → j.Payload → String → Bool
  is_list_key name p k = elim (referencable name) [
    | none ↦ false
    | some f ↦ list_key r j f (some p) == k
  ]

  -- A key that an upsert writes beside the record's own.
  abbrev pub is_side_key : String → j.Payload → String → Bool
  is_side_key name p k = is_grant_key name p k || is_index_key p k || is_list_key name p k

  value_at-push_grant :
      (name k : String) (p : j.Payload) (n : Option ℕ) (s : r.State) (i : String)
      → is_grant_key name p i ≡ false
      → r.value_at (push_grant r j name k p n s) i ≡ r.value_at s i
  unfolding push_grant
  value_at-push_grant name k p none s i h =
      ground (arith, h, r.value_at-rpush (grant_key_for (get_or (j.field "grantId" p) "")) k i s)
  value_at-push_grant name k p (some n) s i h = ground (
    arith,
    h,
    r.value_at-rpush (grant_key_for (get_or (j.field "grantId" p) "")) k i s,
    r.value_at-expire (grant_key_for (get_or (j.field "grantId" p) "")) n i
        (r.rpush (grant_key_for (get_or (j.field "grantId" p) "")) k s),
  )

  pub value_at-index_user_code :
      (id : String) (p : j.Payload) (n : Option ℕ) (s : r.State) (i : String)
      → is_index_key p i ≡ false
      → r.value_at (index_user_code r j id p n s) i ≡ r.value_at s i
  unfolding index_user_code
  value_at-index_user_code id p none s i h =
      ground
        (arith, h, r.value_at-set (user_code_key_for (get_or (j.field "userCode" p) "")) id i s)
  value_at-index_user_code id p (some n) s i h = ground (
    arith,
    h,
    r.value_at-set (user_code_key_for (get_or (j.field "userCode" p) "")) id i s,
    r.value_at-expire (user_code_key_for (get_or (j.field "userCode" p) "")) n i
        (r.set (user_code_key_for (get_or (j.field "userCode" p) "")) id s),
  )

  pub value_at-index_uid :
      (id : String) (p : j.Payload) (n : Option ℕ) (s : r.State) (i : String)
      → is_index_key p i ≡ false
      → r.value_at (index_uid r j id p n s) i ≡ r.value_at s i
  unfolding index_uid
  value_at-index_uid id p none s i h =
      ground (arith, h, r.value_at-set (uid_key_for (get_or (j.field "uid" p) "")) id i s)
  value_at-index_uid id p (some n) s i h = ground (
    arith,
    h,
    r.value_at-set (uid_key_for (get_or (j.field "uid" p) "")) id i s,
    r.value_at-expire (uid_key_for (get_or (j.field "uid" p) "")) n i
        (r.set (uid_key_for (get_or (j.field "uid" p) "")) id s),
  )

  pub value_at-refer :
      (name id : String) (p : j.Payload) (s : r.State) (i : String)
      → is_list_key name p i ≡ false
      → r.value_at (refer r j name id p s) i ≡ r.value_at s i
  unfolding refer
  value_at-refer name id p s i h = elim (Option-cases (referencable name)) [
    | inl e ↦ ground (arith, e)
    | inr (f, e) ↦ elim (Option-cases f.expire_key) [
      | inl x ↦ ground (arith, e, h, x, r.value_at-sadd (list_key r j f (some p)) id i s)
      | inr (k, x) ↦ ground (
        arith,
        e,
        h,
        x,
        r.value_at-sadd (list_key r j f (some p)) id i s,
        r.value_at-expire (list_key r j f (some p)) (j.seconds_left k p) i
            (r.sadd (list_key r j f (some p)) id s),
      )
    ]
  ]

  value_at-expire_if :
      (n : Option ℕ) (k : String) (s : r.State) (i : String)
      → r.value_at (expire_if r j n k s) i ≡ r.value_at s i
  value_at-expire_if none k s i = refl
  value_at-expire_if (some n) k s i = r.value_at-expire k n i s

  -- An upsert leaves at the record's key what the payload's own write puts there.
  pub value_at-upsert :
      (name id : String) (p : j.Payload) (n : Option ℕ) (s : r.State)
      → is_side_key name p (record_key name id) ≡ false
      → r.value_at (upsert r j name id p n s) (record_key name id)
        ≡ r.value_at (store_payload r j name (record_key name id) p s) (record_key name id)
  unfolding upsert
  value_at-upsert name id p n s h =
      let k = record_key name id in
      value_at-refer name id p _ k (ground (arith, h))
      ∙ value_at-index_uid id p n _ k (ground (arith, h))
      ∙ value_at-index_user_code id p n _ k (ground (arith, h))
      ∙ value_at-push_grant name k p n _ k (ground (arith, h))
      ∙ value_at-expire_if n k _ k

  hash_payload :
      (k : String) (p : j.Payload) (s : r.State)
      → lookup "payload" (r.value_at (r.hset k "payload" (j.stringify p) s) k).hash
        ≡ some (j.stringify p)
  hash_payload k p s = ground (
    arith,
    eq_refl k,
    r.value_at-hset k "payload" (j.stringify p) k s,
    lookup-insert "payload" "payload" (j.stringify p) (r.value_at s k).hash,
  )

  pub from_hash-payload :
      (h : Assoc String) (p : j.Payload)
      → lookup "payload" h ≡ some (j.stringify p)
      → payload_of r j (from_hash r j h) ≡ some p
  from_hash-payload [] p e = cc
  from_hash-payload (x ∷ h) p e = ap some (rw e (j.parse-stringify p))

  pub stored_hash :
      (name k : String) (p : j.Payload) (s : r.State)
      → is_consumable name ≡ true
      → lookup "payload" (r.value_at (store_payload r j name k p s) k).hash ≡ some (j.stringify p)
  unfolding store_payload
  stored_hash name k p s e = rw e (hash_payload k p s)

  stored_text :
      (name k : String) (p : j.Payload) (s : r.State)
      → is_consumable name ≡ false
      → (r.value_at (store_payload r j name k p s) k).text ≡ some (j.stringify p)
  unfolding store_payload
  stored_text name k p s e = rw e (ground (arith, eq_refl k, r.value_at-set k (j.stringify p) k s))

  from_text-payload :
      (p : j.Payload) → payload_of r j (from_text r j (some (j.stringify p))) ≡ some p
  from_text-payload p = ground (arith, j.stringify_nonempty p, j.parse-stringify p)

  -- A record can be read back once it is stored, whatever else the upsert writes, if none of the
  -- other keys that it writes is the record's own.
  pub find-upsert :
      (name id : String) (p : j.Payload) (n : Option ℕ) (s : r.State)
      → is_side_key name p (record_key name id) ≡ false
      → payload_of r j (find r j name id (upsert r j name id p n s)) ≡ some p
  unfolding find
  find-upsert name id p n s h = elim (Bool-cases (is_consumable name)) [
    | inl e ↦
        rw (e, value_at-upsert name id p n s h)
          (from_hash-payload _ p (stored_hash name (record_key name id) p s e))
    | inr e ↦
        rw (e, value_at-upsert name id p n s h, stored_text name (record_key name id) p s e)
          (from_text-payload p)
  ]
