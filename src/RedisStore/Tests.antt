-- ===== src/RedisStore/Tests.antt =====
-- A Redis and two JSON payloads, and the theorems at records in it.
use passmower.Prelude.{
  String, Option, none, some, true, false, [], ◌∷◌, ◌++◌, ◌==◌, ◌≡◌, refl, arith, if◌then◌else◌,
  contains, without, get_or, Assoc, insert, remove, lookup, lookup-insert, lookup-remove,
}
use passmower.RedisStore.{
  Stored, nothing, Redis, Json, is_consumable, is_grantable, referencable, record_key, upsert, find,
  revoke_by_grant_id, payload_of, grant_key_for, user_code_key_for, uid_key_for, store_payload,
  push_grant, index_user_code, index_uid, refer,
}
use passmower.RedisStore.Records.{is_side_key, is_index_key, is_list_key, find-upsert}
use passmower.RedisStore.Grants.{revoke_by_grant_id-upsert}

abbrev Keys : Type 0
Keys = Assoc Stored

abbrev at : Keys → String → Stored
at s k = get_or (lookup k s) nothing

at-insert :
    (k : String) (v : Stored) (s : Keys) (i : String)
    → at (insert k v s) i ≡ (if k == i then v else at s i)
at-insert k v s i = ground (arith, lookup-insert k i v s)

at-remove :
    (k : String) (s : Keys) (i : String) → at (remove k s) i ≡ (if k == i then nothing else at s i)
at-remove k s i = ground (arith, lookup-remove k i s)

abbrev with_member : String → Stored → Stored
with_member x v = record v {
  members = if contains x v.members then v.members else v.members ++ x ∷ [];
}

abbrev redis : Redis
redis = record {
  State = Keys;
  value_at = λ s k. at s k;
  set = λ k t s. insert k (record nothing { text = some t }) s;
  hset = λ k f v s. insert k (record (at s k) { hash = insert f v (at s k).hash }) s;
  rpush = λ k x s. insert k (record (at s k) { list = (at s k).list ++ x ∷ [] }) s;
  sadd = λ k x s. insert k (with_member x (at s k)) s;
  srem = λ k x s. insert k (record (at s k) { members = without x (at s k).members }) s;
  del = λ k s. remove k s;
  expire = λ k n s. s;
  ttl_below = λ k n s. true;
  value_at-set = λ k t i s. at-insert k (record nothing { text = some t }) s i;
  value_at-hset =
      λ k f v i s. at-insert k (record (at s k) { hash = insert f v (at s k).hash }) s i;
  value_at-rpush = λ k x i s. at-insert k (record (at s k) { list = (at s k).list ++ x ∷ [] }) s i;
  value_at-sadd = λ k x i s. at-insert k (with_member x (at s k)) s i;
  value_at-srem =
      λ k x i s. at-insert k (record (at s k) { members = without x (at s k).members }) s i;
  value_at-del = λ k i s. at-remove k s i;
  value_at-expire = λ k n i s. refl;
}

data Sample : Type 0 where
  code session : Sample

abbrev print : Sample → String
print code = "{\"grantId\":\"g1\"}"
print session = "{\"accountId\":\"alice\",\"uid\":\"u1\"}"

abbrev read : String → Sample
read t = if t == print code then code else session

abbrev field_of : String → Sample → Option String
field_of k code = if k == "grantId" then some "g1" else none
field_of k session =
    if k == "accountId" then some "alice" else if k == "uid" then some "u1" else none

read-print : (p : Sample) → read (print p) ≡ p
read-print code = refl
read-print session = refl

print_nonempty : (p : Sample) → (print p == "") ≡ false
print_nonempty code = refl
print_nonempty session = refl

abbrev json : Json
json = record {
  Payload = Sample;
  stringify = λ p. print p;
  parse = λ t. read t;
  field = λ k p. field_of k p;
  seconds_left = λ k p. 60;
  parse-stringify = read-print;
  stringify_nonempty = print_nonempty;
}

code_apart :
    is_side_key redis json "AuthorizationCode" code (record_key "AuthorizationCode" "x") ≡ false
unfolding record_key is_grantable referencable grant_key_for
code_apart = refl

session_apart : is_side_key redis json "Session" session (record_key "Session" "x") ≡ false
unfolding record_key is_grantable referencable grant_key_for uid_key_for
session_apart = refl

find-upsert_example :
    payload_of redis json
      (find redis json "Session" "x" (upsert redis json "Session" "x" session (some 60) []))
    ≡ some session
find-upsert_example = find-upsert redis json "Session" "x" session (some 60) [] session_apart

code_is_consumable : is_consumable "AuthorizationCode" ≡ true
unfolding is_consumable
code_is_consumable = refl

code_is_grantable : is_grantable "AuthorizationCode" ≡ true
unfolding is_grantable
code_is_grantable = refl

abbrev with_code : Keys
with_code = upsert redis json "AuthorizationCode" "x" code (some 60) []

no_index : is_index_key redis json code (grant_key_for "g1") ≡ false
no_index = refl

no_list : is_list_key redis json "AuthorizationCode" code (grant_key_for "g1") ≡ false
unfolding referencable
no_list = refl

revoke_by_grant_id-upsert_example :
    find redis json "AuthorizationCode" "x" (revoke_by_grant_id redis json "g1" with_code) ≡ none
revoke_by_grant_id-upsert_example =
    revoke_by_grant_id-upsert redis json "AuthorizationCode" "x" "g1" code (some 60) []
      code_is_grantable refl refl no_index no_list

-- The session is listed under its owner.
listed_session :
    (at (upsert redis json "Session" "x" session none []) "AccountSession:alice").members ≡ "x" ∷ []
unfolding upsert store_payload is_consumable push_grant is_grantable grant_key_for index_user_code
    user_code_key_for index_uid uid_key_for refer referencable record_key
listed_session = refl
