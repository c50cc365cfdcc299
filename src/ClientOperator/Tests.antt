-- ===== src/ClientOperator/Tests.antt =====
-- Runs of the handlers, and their theorems at concrete clients.
use passmower.Prelude.{none, some, true, false, [], ◌∷◌, ◌≡◌, refl, any}
use passmower.Claims.{Rules, validate_claim_mappings}
use passmower.ClientSecret
use passmower.ClientOperator.{
  Client, claims, reconciles_secret, upserts, destroys, reports, secret_of, Answers, create_client,
  update_client, create_with_secret, finish_create, write_redis, reconcile_update,
}
use passmower.ClientOperator.Ownership.{
  added, handle, target, is_enabled, is_upsert, handle-is_enabled,
}

abbrev wiki : Client
wiki = record { owner = none; claim_mappings = []; disabled = false }

abbrev own : Client
own = record wiki { owner = some "passmower" }

abbrev answers : Answers
answers = record {
  claimed = some own;
  ingress = none;
  in_redis = false;
  secret = secret_of (some "s1");
  redis_ok = true;
}

claimed_and_created :
    create_client "passmower" false answers wiki
    ≡ claims ∷ reconciles_secret false ∷ upserts ∷ reports true "Reconciled" ∷ []
unfolding create_client validate_claim_mappings create_with_secret finish_create write_redis
claimed_and_created = refl

is_put_into_redis : any is_upsert (handle "passmower" (added false) answers wiki) ≡ true
unfolding create_client validate_claim_mappings create_with_secret finish_create write_redis
is_put_into_redis = refl

handle-is_enabled_example : is_enabled (target "passmower" answers wiki) ≡ true
handle-is_enabled_example =
    handle-is_enabled "passmower" (added false) answers wiki is_put_into_redis

disabled_is_removed :
    update_client "passmower" true answers (record own { disabled = true })
    ≡ destroys ∷ reports true "Disabled" ∷ []
unfolding update_client validate_claim_mappings reconcile_update write_redis
disabled_is_removed = refl

-- A mapping of a claim that Passmower computes itself.
abbrev foreign : Client
foreign = record {
  owner = some "other";
  claim_mappings = ("sub", record { rules = Rules.absent; default = none }) ∷ [];
  disabled = false;
}

abbrev public_client : ClientSecret.Client
public_client = record { uses_client_secret = false; fields = []; has_refresh_job = false }

abbrev public_answers : Answers
public_answers = record answers { secret = secret_of none }
