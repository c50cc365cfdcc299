-- ===== src/ClientOperator/Ownership.antt =====
-- For which clients an instance writes to Redis.
use passmower.Prelude.{
  String, Option, none, some, Bool, true, false, not, List, [], ◌∷◌, ◌≡◌, arith, any, truthy,
  if◌then◌else◌, Option-cases, inl, inr,
}
use passmower.ClientOperator.{
  Client, Effect, claims, reconciles_secret, upserts, destroys, reports, SecretResult, secret_of,
  refused, Answers, is_own, write_redis, finish_create, create_with_secret, create_client,
  reconcile_update, update_client, delete_client, is_claimed,
}

abbrev pub is_upsert : Effect → Bool
is_upsert claims = false
is_upsert (reconciles_secret b) = false
is_upsert upserts = true
is_upsert destroys = false
is_upsert (reports b r) = false

-- The client as this instance works on it: its own, or the one that its claim returned.
abbrev pub target : String → Answers → Client → Option Client
target mine a c =
    if is_own mine c
    then some c
    else if truthy c.owner
    then none
    else if is_claimed mine a.claimed
    then a.claimed
    else none

abbrev pub is_enabled : Option Client → Bool
is_enabled none = false
is_enabled (some c) = not c.disabled

-- A watch event: ADDED with whether it is a replay, MODIFIED with whether a reconcile is due.
pub data Event : Type 0 where
  added modified : Bool → Event
  deleted : Event

abbrev pub handle : String → Event → Answers → Client → List Effect
handle mine (added replayed) a c = create_client mine replayed a c
handle mine (modified due) a c = update_client mine due a c
handle mine deleted a c = delete_client mine c

finish_create-disabled :
    (a : Answers) (c : Client) (s : Option String)
    → any is_upsert (finish_create a c s) ≡ true
    → c.disabled ≡ false
unfolding finish_create write_redis
finish_create-disabled a c s h = ground (arith, h)

create_with_secret-disabled :
    (a : Answers) (c : Client) (b : Bool)
    → any is_upsert (create_with_secret a c b) ≡ true
    → c.disabled ≡ false
unfolding create_with_secret
create_with_secret-disabled a c b h = by_result a.secret h
  where
    by_result :
        (r : SecretResult)
        → any is_upsert (elim r as (λ x. List Effect) [
          | refused reason ↦ reports false reason ∷ []
          | secret_of s ↦ finish_create a c s
        ])
          ≡ true
        → c.disabled ≡ false
    by_result (refused reason) e = cc
    by_result (secret_of s) e = finish_create-disabled a c s e

reconcile_update-disabled :
    (a : Answers) (c : Client) → any is_upsert (reconcile_update a c) ≡ true → c.disabled ≡ false
unfolding reconcile_update write_redis
reconcile_update-disabled a c h = ground (arith, h)

-- A client is put into Redis only by the instance that owns it or has just claimed it, and only
-- if it is enabled.
pub handle-is_enabled :
    (mine : String) (event : Event) (a : Answers) (c : Client)
    → any is_upsert (handle mine event a c) ≡ true
    → is_enabled (target mine a c) ≡ true
unfolding create_client update_client delete_client
handle-is_enabled mine (added replayed) a c h = elim (Option-cases a.claimed) [
  | inl e ↦ ground (
    arith,
    h,
    e,
    create_with_secret-disabled a c true,
    create_with_secret-disabled a c false,
    finish_create-disabled a c none,
  )
  | inr (d, e) ↦ ground (
    arith,
    h,
    e,
    create_with_secret-disabled a c true,
    create_with_secret-disabled a c false,
    finish_create-disabled a c none,
    create_with_secret-disabled a d true,
    create_with_secret-disabled a d false,
    finish_create-disabled a d none,
  )
]
handle-is_enabled mine (modified due) a c h = elim (Option-cases a.claimed) [
  | inl e ↦ ground (arith, h, e, reconcile_update-disabled a c)
  | inr (d, e) ↦ ground (arith, h, e, reconcile_update-disabled a c, reconcile_update-disabled a d)
]
handle-is_enabled mine deleted a c h = ground (arith, h)
