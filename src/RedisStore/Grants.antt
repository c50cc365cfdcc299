-- ===== src/RedisStore/Grants.antt =====
-- What is left of a record after it is destroyed, consumed, or revoked with its grant.
use passmower.Prelude.{
  ℕ, String, Option, none, some, Bool, true, false, List, [], ◌∷◌, ◌==◌, ◌≡◌, refl, ◌∙◌, ap, arith,
  eq_refl, contains, Assoc, insert, lookup, lookup-insert, lookup-remove, Option-cases, Bool-cases,
  inl, inr, contains-without, contains-append,
}
use passmower.RedisStore.{
  Stored, nothing, Redis, Json, Reference, is_consumable, is_grantable, referencable, grant_key_for,
  record_key, push_grant, list_key, upsert, Found, find, destroy, consume, payload_of, from_hash,
  revoke_by_grant_id, delete_all,
}
use passmower.RedisStore.Records.{
  is_side_key, is_list_key, is_index_key, find-upsert, value_at-upsert, stored_hash,
  from_hash-payload, value_at-refer, value_at-index_uid, value_at-index_user_code,
}

module _ (r : Redis) (j : Json) where
  -- Whether the record stands in the list of its payload's owner.
  abbrev pub is_referred : String → String → j.Payload → r.State → Bool
  is_referred name id p s = elim (referencable name) [
    | none ↦ false
    | some f ↦ contains id (r.value_at s (list_key r j f (some p))).members
  ]

  find-nothing :
      (name id : String) (s : r.State)
      → r.value_at s (record_key name id) ≡ nothing
      → find r j name id s ≡ none
  unfolding find
  find-nothing name id s h = elim (Bool-cases (is_consumable name)) [
    | inl e ↦ rw (e, h) refl
    | inr e ↦ rw (e, h) refl
  ]

  destroy-referred :
      (name id : String) (p : j.Payload) (s : r.State) (f : Reference)
      → referencable name ≡ some f
      → payload_of r j (find r j name id s) ≡ some p
      → destroy r j name id s ≡ r.srem (list_key r j f (some p)) id (r.del (record_key name id) s)
  unfolding destroy
  destroy-referred name id p s f e h =
      ground (arith, e) ∙ ap (λ o. r.srem (list_key r j f o) id (r.del (record_key name id) s)) h

  destroyed :
      (name id : String) (p : j.Payload) (s : r.State)
      → payload_of r j (find r j name id s) ≡ some p
      → is_list_key r j name p (record_key name id) ≡ false
      → (r.value_at (destroy r j name id s) (record_key name id) ≡ nothing)
        × (is_referred name id p (destroy r j name id s) ≡ false)
  unfolding destroy
  destroyed name id p s h k = elim (Option-cases (referencable name)) [
    | inl e ↦ (
      ground (
        arith,
        e,
        r.value_at-del (record_key name id) (record_key name id) s,
        eq_refl (record_key name id),
      ),
      ground (arith, e),
    )
    | inr (f, e) ↦
        let key = record_key name id in
        let owners = list_key r j f (some p) in
        let gone = destroy-referred name id p s f e h in
        (
          ap (λ t. r.value_at t key) gone
              ∙ ground (
                arith,
                e,
                k,
                eq_refl key,
                r.value_at-del key key s,
                r.value_at-srem owners id key (r.del key s),
              ),
          ap (λ t. is_referred name id p t) gone
              ∙ ground (
                arith,
                e,
                eq_refl owners,
                eq_refl id,
                r.value_at-srem owners id owners (r.del key s),
                contains-without id id (r.value_at (r.del key s) owners).members,
              ),
        )
  ]

  -- Of a record that is stored and then destroyed nothing is left: it cannot be found, and its
  -- owner's list does not have it.
  pub destroy-upsert :
      (name id : String) (p : j.Payload) (n : Option ℕ) (s : r.State)
      → is_side_key r j name p (record_key name id) ≡ false
      → (find r j name id (destroy r j name id (upsert r j name id p n s)) ≡ none)
        × (is_referred name id p (destroy r j name id (upsert r j name id p n s)) ≡ false)
  destroy-upsert name id p n s h =
      let d =
        destroyed name id p (upsert r j name id p n s) (find-upsert r j name id p n s h)
          (ground (arith, h)) in
      (find-nothing name id _ d.0, d.1)

  abbrev pub consumed_at : Option (Found r j) → Option String
  consumed_at none = none
  consumed_at (some f) = lookup "consumed" f.rest

  consumed_at-from_hash :
      (h : Assoc String) (now : String)
      → lookup "consumed" h ≡ some now
      → consumed_at (from_hash r j h) ≡ some now
  consumed_at-from_hash [] now e = cc
  consumed_at-from_hash (x ∷ h) now e = lookup-remove "payload" "consumed" (x ∷ h) ∙ e

  -- A code or token that is stored and then consumed is found with the time of its consumption
  -- and with its payload unchanged.
  pub consume-upsert :
      (name id now : String) (p : j.Payload) (n : Option ℕ) (s : r.State)
      → is_consumable name ≡ true
      → is_side_key r j name p (record_key name id) ≡ false
      → (consumed_at (find r j name id (consume r j name id now (upsert r j name id p n s)))
          ≡ some now)
        × (payload_of r j (find r j name id (consume r j name id now (upsert r j name id p n s)))
            ≡ some p)
  unfolding find consume
  consume-upsert name id now p n s c h =
      let key = record_key name id in
      let stored = (r.value_at (upsert r j name id p n s) key).hash in
      let there =
        ap (λ (v : Stored). lookup "payload" v.hash) (value_at-upsert r j name id p n s h)
        ∙ stored_hash r j name key p s c in
      rw (c, r.value_at-hset key "consumed" now key (upsert r j name id p n s), eq_refl key)
        (
          consumed_at-from_hash (insert "consumed" now stored) now
              (lookup-insert "consumed" "consumed" now stored),
          from_hash-payload r j (insert "consumed" now stored) p
              (lookup-insert "consumed" "payload" now stored ∙ there),
        )

  delete_all_keeps :
      (ks : List String) (k : String) (s : r.State)
      → r.value_at s k ≡ nothing
      → r.value_at (delete_all r j ks s) k ≡ nothing
  delete_all_keeps [] k s h = h
  delete_all_keeps (x ∷ ks) k s h =
      delete_all_keeps ks k (r.del x s) (ground (arith, h, r.value_at-del x k s))

  delete_all_deletes :
      (ks : List String) (k : String) (s : r.State)
      → contains k ks ≡ true
      → r.value_at (delete_all r j ks s) k ≡ nothing
  delete_all_deletes [] k s h = cc
  delete_all_deletes (x ∷ ks) k s h = elim (Bool-cases (x == k)) [
    | inl e ↦ delete_all_keeps ks k (r.del x s) (ground (arith, e, r.value_at-del x k s))
    | inr e ↦ delete_all_deletes ks k (r.del x s) (ground (arith, e, h))
  ]

  revoked :
      (g k : String) (s : r.State)
      → contains k (r.value_at s (grant_key_for g)).list ≡ true
      → r.value_at (revoke_by_grant_id r j g s) k ≡ nothing
  unfolding revoke_by_grant_id
  revoked g k s h =
      let ks = (r.value_at s (grant_key_for g)).list in
      ground (
        arith,
        r.value_at-del (grant_key_for g) k (delete_all r j ks s),
        delete_all_deletes ks k s h,
      )

  pushed :
      (name k g : String) (p : j.Payload) (n : Option ℕ) (s : r.State)
      → is_grantable name ≡ true
      → j.field "grantId" p ≡ some g
      → (g == "") ≡ false
      → contains k (r.value_at (push_grant r j name k p n s) (grant_key_for g)).list ≡ true
  unfolding push_grant
  pushed name k g p none s a b c = ground (
    arith,
    a,
    b,
    c,
    eq_refl (grant_key_for g),
    eq_refl k,
    r.value_at-rpush (grant_key_for g) k (grant_key_for g) s,
    contains-append k (r.value_at s (grant_key_for g)).list (k ∷ []),
  )
  pushed name k g p (some n) s a b c = ground (
    arith,
    a,
    b,
    c,
    eq_refl (grant_key_for g),
    eq_refl k,
    r.value_at-rpush (grant_key_for g) k (grant_key_for g) s,
    r.value_at-expire (grant_key_for g) n (grant_key_for g) (r.rpush (grant_key_for g) k s),
    contains-append k (r.value_at s (grant_key_for g)).list (k ∷ []),
  )

  -- A token that was stored under a grant cannot be found any more once the grant is revoked, if
  -- the grant's key is none of the other keys that the token's upsert writes.
  pub revoke_by_grant_id-upsert :
      (name id g : String) (p : j.Payload) (n : Option ℕ) (s : r.State)
      → is_grantable name ≡ true
      → j.field "grantId" p ≡ some g
      → (g == "") ≡ false
      → is_index_key r j p (grant_key_for g) ≡ false
      → is_list_key r j name p (grant_key_for g) ≡ false
      → find r j name id (revoke_by_grant_id r j g (upsert r j name id p n s)) ≡ none
  unfolding upsert
  revoke_by_grant_id-upsert name id g p n s a b c x y =
      let key = record_key name id in
      let frame =
        value_at-refer r j name id p _ (grant_key_for g) y
        ∙ value_at-index_uid r j id p n _ (grant_key_for g) x
        ∙ value_at-index_user_code r j id p n _ (grant_key_for g) x in
      find-nothing name id _ (
        revoked g key (upsert r j name id p n s)
          (ap (λ (v : Stored). contains key v.list) frame ∙ pushed name key g p n _ a b c))
