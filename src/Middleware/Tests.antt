-- ===== src/Middleware/Tests.antt =====
-- Concrete clients for the module Middleware.
use passmower.Prelude.{none, some, true, false, [], ◌∷◌, ◌≡◌, refl, any}
use passmower.Middleware.{
  Resource, MiddlewareClient, Answers, from_incoming_client, to_middleware_spec, reconcile_create,
  reconcile_update, write_middleware, create_client, update_client, destroys, reports,
}
use passmower.Middleware.Honest.{
  is_upsert, is_enabled, target, handle, added, modified, handle-upsert, handle-ready,
}

abbrev wiki : Resource
wiki = record {
  name = "wiki";
  namespace = "apps";
  groups = none;
  users = some ("alice" ∷ []);
  headers = some (("user", "Remote-User") ∷ ("email", "") ∷ []);
  uri = none;
  display_name = none;
  display_order = none;
  disabled = none;
  instance_of = none;
}

abbrev claimed_wiki : MiddlewareClient
claimed_wiki = from_incoming_client (record wiki { instance_of = some "one" })

abbrev disabled_wiki : MiddlewareClient
disabled_wiki =
    from_incoming_client (record wiki { instance_of = some "one"; disabled = some true })

abbrev answers : Answers
answers = record {
  mine = "one";
  deployment = "passmower";
  own_namespace = "auth";
  redirect_uri = "https://auth.example/forward-auth/callback";
  uuid = "0000";
  claimed = some claimed_wiki;
  middleware_exists = false;
  middleware_ok = true;
  redis_ok = true;
}

drops_empty_headers :
    (to_middleware_spec "passmower" "auth" claimed_wiki).auth_response_headers ≡ "Remote-User" ∷ []
unfolding to_middleware_spec from_incoming_client
drops_empty_headers = refl

disabled_keeps_middleware :
    update_client true answers disabled_wiki
    ≡ destroys "middleware-apps.wiki" ∷ reports true "Disabled" ∷ []
unfolding update_client reconcile_update from_incoming_client
disabled_keeps_middleware = refl

leaves_foreign : create_client (record answers { mine = "two" }) claimed_wiki ≡ []
unfolding create_client from_incoming_client
leaves_foreign = refl

handle-upsert_example :
    (is_enabled (target answers (from_incoming_client wiki)) ≡ true)
    × (answers.middleware_ok ≡ true)
unfolding create_client reconcile_create write_middleware from_incoming_client
handle-upsert_example = handle-upsert added answers (from_incoming_client wiki) refl

handle-ready_example :
    (answers.redis_ok ≡ true)
    × (any is_upsert (handle (modified true) answers disabled_wiki)
        ≡ is_enabled (target answers disabled_wiki))
unfolding update_client reconcile_update from_incoming_client
handle-ready_example = handle-ready (modified true) answers disabled_wiki refl
