-- ===== src/Middleware/Honest.antt =====
-- What a report of a forward-auth client says
-- (operators/kube-oidc-middleware-client-operator.js).
use passmower.Prelude.{
  Option, none, some, Option-cases, Bool, true, false, not, List, ◌≡◌, arith, any, inl, inr, truthy,
  if◌then◌else◌,
}
use passmower.Middleware.{
  MiddlewareClient, Effect, upserts, reports, Answers, is_own, own_claim, write_middleware,
  reconcile_create, reconcile_update, create_client, update_client, delete_client,
}

abbrev pub is_upsert : Effect → Bool
is_upsert (upserts r) = true
is_upsert _ = false

abbrev pub says_ready : Effect → Bool
says_ready (reports true reason) = true
says_ready _ = false

-- A watch event, MODIFIED with whether a reconcile is due.
pub data Event : Type 0 where
  added deleted : Event
  modified : Bool → Event

abbrev pub handle : Event → Answers → MiddlewareClient → List Effect
handle added a c = create_client a c
handle (modified due) a c = update_client due a c
handle deleted a c = delete_client a c

-- The client as this instance works on it: its own, or the one that its claim returned.
abbrev pub target : Answers → MiddlewareClient → Option MiddlewareClient
target a c = if is_own a c then some c else if truthy c.owner then none else own_claim a a.claimed

abbrev pub is_enabled : Option MiddlewareClient → Bool
is_enabled none = false
is_enabled (some c) = not c.is_disabled

module _ (a : Answers) (c : MiddlewareClient) where
  created-ready :
      any says_ready (reconcile_create a c) ≡ true
      → (a.redis_ok ≡ true)
        × (a.middleware_ok ≡ true)
        × (any is_upsert (reconcile_create a c) ≡ not c.is_disabled)
  unfolding reconcile_create write_middleware
  created-ready h = ground (arith, h)

  updated-ready :
      any says_ready (reconcile_update a c) ≡ true
      → (a.redis_ok ≡ true) × (any is_upsert (reconcile_update a c) ≡ not c.is_disabled)
  unfolding reconcile_update write_middleware
  updated-ready h = ground (arith, h)

  created-upsert :
      any is_upsert (reconcile_create a c) ≡ true
      → (a.middleware_ok ≡ true) × (c.is_disabled ≡ false)
  unfolding reconcile_create write_middleware
  created-upsert h = ground (arith, h)

  updated-upsert :
      any is_upsert (reconcile_update a c) ≡ true
      → (a.middleware_ok ≡ true) × (c.is_disabled ≡ false)
  unfolding reconcile_update write_middleware
  updated-upsert h = ground (arith, h)

-- A forward-auth client is put into Redis only by the instance that owns it or has just claimed it, only if
-- it is enabled and only if its Traefik Middleware was written.
pub handle-upsert :
    (event : Event) (a : Answers) (c : MiddlewareClient)
    → any is_upsert (handle event a c) ≡ true
    → (is_enabled (target a c) ≡ true) × (a.middleware_ok ≡ true)
unfolding create_client update_client delete_client
handle-upsert added a c h = elim (Option-cases a.claimed) [
  | inl e ↦ ground (arith, h, e, created-upsert a c)
  | inr (d, e) ↦ ground (arith, h, e, created-upsert a c, created-upsert a d)
]
handle-upsert (modified due) a c h = elim (Option-cases a.claimed) [
  | inl e ↦ ground (arith, h, e, updated-upsert a c)
  | inr (d, e) ↦ ground (arith, h, e, updated-upsert a c, updated-upsert a d)
]
handle-upsert deleted a c h = ground (arith, h)

-- Where a handler reports a forward-auth client as ready, the write to Redis that the handler asked for
-- succeeded, and it was a write of the record exactly if the client that it works on is enabled.
pub handle-ready :
    (event : Event) (a : Answers) (c : MiddlewareClient)
    → any says_ready (handle event a c) ≡ true
    → (a.redis_ok ≡ true) × (any is_upsert (handle event a c) ≡ is_enabled (target a c))
unfolding create_client update_client delete_client
handle-ready added a c h = elim (Option-cases a.claimed) [
  | inl e ↦ ground (arith, h, e, created-ready a c)
  | inr (d, e) ↦ ground (arith, h, e, created-ready a c, created-ready a d)
]
handle-ready (modified due) a c h = elim (Option-cases a.claimed) [
  | inl e ↦ ground (arith, h, e, updated-ready a c)
  | inr (d, e) ↦ ground (arith, h, e, updated-ready a c, updated-ready a d)
]
handle-ready deleted a c h = ground (arith, h)
