-- ===== src/ClientSecret.antt =====
-- How the reconciles of one OIDCClient come to one client_secret: #reconcileClientSecret and
-- #adoptKubeSecret of operators/kube-oidc-client-operator.js, with getSecret, createSecret and
-- patchSecret of adapters/kubernetes.js. Reconciles interleave at every call of the API.
pub mod Steps
pub mod Convergence
mod Tests
use passmower.Prelude.{
  ℕ, zero, suc, String, Option, none, some, Bool, true, false, not, List, [], ◌∷◌, ◌++◌, ◌==◌, ◌&&◌,
  ◌||◌, if◌then◌else◌, truthy, Assoc, lookup, insert, remove, keys, has, dedup, any, get_or,
  same_text, is_some,
}

-- The decoded data of a Secret.
abbrev pub SecretData : Type 0
SecretData = Assoc String

abbrev pub client_secret_key : String
client_secret_key = "OIDC_CLIENT_SECRET"

-- What a reconcile uses of the client: its method, the entries of the Secret beside the
-- client_secret, and whether it asks for a secret-refresh Job.
pub record Client : Type 0 where
  pub uses_client_secret : Bool
  pub fields : SecretData
  pub has_refresh_job : Bool

-- toClientSecret; the order of the entries does not matter to a Secret.
abbrev pub to_client_secret : Client → Option String → SecretData
to_client_secret c s =
    if c.uses_client_secret then insert client_secret_key (get_or s "") c.fields else c.fields

-- secretDataChanged
abbrev text_of : Option String → String
text_of s = get_or s ""

pub secret_data_changed : SecretData → SecretData → Bool
secret_data_changed existing desired =
    any (λ k. not (text_of (lookup k existing) == text_of (lookup k desired)))
      (dedup (keys existing ++ keys desired))

-- The API server's answer to one call: done, or failed for a reason that the caller logs.
pub record Move : Type 0 where
  pub pod : ℕ
  pub fresh : String  -- randomUUID()
  pub answered : Bool

pub data Phase : Type 0 where
  starting : Bool → Phase  -- with refreshOnlyIfChanged
  creating : Phase
  rereading : Phase
  adopting : Bool → SecretData → Phase
  refreshing : Option String → Phase
  finished : Option String → Phase  -- with the client_secret of the model
  failed : String → Phase

-- A Secret after the JSON patch from what was read to what is wanted.
abbrev put_all : SecretData → SecretData → SecretData
put_all [] d = d
put_all ((k, v) ∷ m) d = insert k v (put_all m d)

abbrev remove_all : List String → SecretData → SecretData
remove_all [] d = d
remove_all (k ∷ ks) d = remove k (remove_all ks d)

pub patched : SecretData → SecretData → SecretData → SecretData
patched existing desired d = put_all desired (remove_all (keys existing) d)

abbrev pub Cluster : Type 0
Cluster = Option SecretData

-- getSecret: nothing for a missing Secret, and for a failed read.
pub get_secret : Bool → Cluster → Option SecretData
get_secret answered s = if answered then s else none

abbrev with_job : Client → Option String → Phase
with_job c s = if c.has_refresh_job then refreshing s else finished s

-- createSecret with ignoreAlreadyExists, and what the reconcile does with its answer.
pub create_step : Client → Move → Cluster → Cluster × Phase
create_step c m (some d) =
    (some d, if m.answered then rereading else failed "Failed to create client Secret")
create_step c m none =
    if m.answered
    then (some (to_client_secret c (some m.fresh)), with_job c (some m.fresh))
    else (none, failed "Failed to create client Secret")

-- The client_secret that the model takes: the one in the Secret, or a new one if it needs one.
abbrev pub adopted : Client → String → SecretData → Option String
adopted c fresh existing =
    if truthy (lookup client_secret_key existing) || not c.uses_client_secret
    then lookup client_secret_key existing
    else some fresh

-- #adoptKubeSecret
pub adopt_step : Client → Move → Bool → SecretData → Cluster → Cluster × Phase
unfolding secret_data_changed patched
adopt_step c m only_if_changed existing none = (none, failed "Failed to update client Secret")
adopt_step c m only_if_changed existing (some d) =
    let s = adopted c m.fresh existing in
    let data' = to_client_secret c s in
    if m.answered
    then (
      some (patched existing data' d),
      if not only_if_changed || secret_data_changed existing data'
          then with_job c s
          else finished s,
    )
    else (some d, failed "Failed to update client Secret")

-- One call of the API by one reconcile of `c`.
pub step : Client → Move → Phase → Cluster → Cluster × Phase
unfolding get_secret create_step adopt_step
step c m (starting only_if_changed) s = elim (get_secret m.answered s) [
  | none ↦ (s, creating)
  | some existing ↦ (s, adopting only_if_changed existing)
]
step c m creating s = create_step c m s
step c m rereading s = elim (get_secret m.answered s) [
  | none ↦ (s, failed "Client Secret exists but could not be read")
  | some existing ↦ (s, adopting false existing)
]
step c m (adopting only_if_changed existing) s = adopt_step c m only_if_changed existing s
step c m (refreshing x) s =
    (s, if m.answered then finished x else failed "Failed to create secret-refresh Job")
step c m (finished x) s = (s, finished x)
step c m (failed why) s = (s, failed why)

-- Reconciles in flight, each at its phase, over one Secret.
pub record World : Type 0 where
  pub secret : Cluster
  pub pods : List Phase

pub move_in : Client → Move → ℕ → List Phase → Cluster → Cluster × List Phase
unfolding step
move_in c m n [] s = (s, [])
move_in c m zero (p ∷ ps) s = ((step c m p s).0, (step c m p s).1 ∷ ps)
move_in c m (suc n) (p ∷ ps) s = let rest = move_in c m n ps s in (rest.0, p ∷ rest.1)

pub run : Client → List Move → World → World
unfolding move_in
run c [] w = w
run c (m ∷ ms) w =
    let r = move_in c m m.pod w.pods w.secret in run c ms (record { secret = r.0; pods = r.1 })
