-- ===== src/ClientOperator/Faults.antt =====
-- Two cases in which a handler does not what its comments say.
use passmower.Prelude.{String, none, some, Bool, true, false, [], ◌∷◌, ◌≡◌, arith, is_empty, lookup}
use passmower.Claims.{validate_claim_mappings}
use passmower.ClientSecret.{SecretData, client_secret_key, adopted}
use passmower.ClientSecret
use passmower.ClientOperator.{
  Client, reconciles_secret, reports, secret_of, Answers, is_own, finish_create, create_with_secret,
  create_client, owner_after,
}

-- A client of another instance, whose mappings have problems, is taken over by the instance that
-- sees it added: the report of the failure names this instance as the owner.
pub foreign_taken_over :
    (mine : String) (replayed : Bool) (a : Answers) (c : Client) (other : String)
    → c.owner ≡ some other
    → is_empty (validate_claim_mappings c.claim_mappings) ≡ false
    → owner_after mine (create_client mine replayed a c) c.owner ≡ some mine
unfolding create_client owner_after
foreign_taken_over mine replayed a c other h p = ground (arith, p)

-- An enabled public client of this instance, whose mappings have no problems, whose ingress
-- reference resolves and whose Secret is there without a client_secret, is not put into Redis by
-- the event that adds it, even though Redis does not have it, and is reported as reconciled.
pub public_left_out :
    (mine fresh : String) (replayed : Bool) (a : Answers) (c : Client) (k : ClientSecret.Client)
    (existing : SecretData)
    → is_own mine c ≡ true
    → is_empty (validate_claim_mappings c.claim_mappings) ≡ true
    → c.disabled ≡ false
    → a.ingress ≡ none
    → a.in_redis ≡ false
    → k.uses_client_secret ≡ false
    → lookup client_secret_key existing ≡ none
    → a.secret ≡ secret_of (adopted k fresh existing)
    → create_client mine replayed a c ≡ reconciles_secret true ∷ reports true "Reconciled" ∷ []
unfolding create_client create_with_secret finish_create
public_left_out mine fresh replayed a c k existing o p d i n u l s =
    ground (arith, o, p, d, i, n, u, l, s)
