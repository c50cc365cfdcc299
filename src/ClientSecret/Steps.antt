-- ===== src/ClientSecret/Steps.antt =====
-- What one call of the API by a reconcile of a confidential client keeps.
use passmower.Prelude.{
  String, Option, none, some, Bool, true, false, [], ◌∷◌, ◌==◌, ◌&&◌, truthy, ◌≡◌, refl, arith,
  eq_iff, eq_refl, lookup, keys, lookup-insert, same_text, is_some, Option-cases, inl, inr,
}
use passmower.ClientSecret.{
  SecretData, client_secret_key, Client, to_client_secret, Move, Phase, starting, creating,
  rereading, adopting, refreshing, finished, failed, put_all, remove_all, patched, Cluster,
  get_secret, create_step, adopt_step, step,
}

abbrev pub secret_of : Cluster → Option String
secret_of none = none
secret_of (some d) = lookup client_secret_key d

-- A Secret that is there holds a client_secret.
abbrev pub is_settled : Cluster → Bool
is_settled none = true
is_settled (some d) = truthy (lookup client_secret_key d)

-- Where a reconcile has a client_secret, it is the one in the cluster.
abbrev pub agrees : Cluster → Phase → Bool
agrees s (starting b) = true
agrees s creating = true
agrees s rereading = true
agrees s (adopting b e) =
    is_some s
    && truthy (lookup client_secret_key e)
    && same_text (lookup client_secret_key e) (secret_of s)
agrees s (refreshing x) = is_some s && same_text x (secret_of s)
agrees s (finished x) = is_some s && same_text x (secret_of s)
agrees s (failed why) = true

-- A client_secret that is there stays.
abbrev pub keeps : Cluster → Cluster → Bool
keeps none s = true
keeps (some d) s = is_some s && same_text (secret_of s) (lookup client_secret_key d)

lookup-put_all :
    (j : String) (m d : SecretData) (v : String)
    → lookup j m ≡ some v
    → lookup j (put_all m d) ≡ some v
lookup-put_all j [] d v h = cc
lookup-put_all j ((k, w) ∷ m) d v h =
    ground (arith, h, lookup-insert k j w (put_all m d), lookup-put_all j m d v, eq_iff k j)

lookup-patched :
    (c : Client) (e d : SecretData) (x : String)
    → c.uses_client_secret ≡ true
    → lookup client_secret_key (patched e (to_client_secret c (some x)) d) ≡ some x
unfolding patched
lookup-patched c e d x u =
    lookup-put_all client_secret_key (to_client_secret c (some x)) (remove_all (keys e) d) x (
      ground (
        arith,
        u,
        eq_refl client_secret_key,
        lookup-insert client_secret_key client_secret_key x c.fields,
      ))

pub same_text_refl : (a : Option String) → same_text a a ≡ true
same_text_refl none = refl
same_text_refl (some a) = ground (arith, eq_refl a)

-- What one call of the API keeps.
abbrev pub IsKept : Cluster → Cluster × Phase → Type 0
IsKept s r = (keeps s r.0 ≡ true) × (is_settled r.0 ≡ true) × (agrees r.0 r.1 ≡ true)

create_step-IsKept :
    (c : Client) (m : Move) (s : Cluster)
    → c.uses_client_secret ≡ true
    → (m.fresh == "") ≡ false
    → is_settled s ≡ true
    → IsKept s (create_step c m s)
unfolding create_step
create_step-IsKept c m none u f h = (
  ground arith,
  ground (arith, u, f, lookup-insert client_secret_key client_secret_key m.fresh c.fields),
  ground (
    arith,
    u,
    f,
    lookup-insert client_secret_key client_secret_key m.fresh c.fields,
    eq_refl m.fresh,
  ),
)
create_step-IsKept c m (some d) u f h =
    (ground (arith, same_text_refl (lookup client_secret_key d)), ground (arith, h), ground arith)

adopt_step-IsKept :
    (c : Client) (m : Move) (b : Bool) (e : SecretData) (s : Cluster)
    → c.uses_client_secret ≡ true
    → is_settled s ≡ true
    → agrees s (adopting b e) ≡ true
    → IsKept s (adopt_step c m b e s)
unfolding adopt_step
adopt_step-IsKept c m b e none u h g = (refl, refl, refl)
adopt_step-IsKept c m b e (some d) u h g = elim (Option-cases (lookup client_secret_key e)) [
  | inl q ↦ ground (arith, q, g)
  | inr (x, q) ↦ (
    ground (
      arith,
      q,
      g,
      u,
      lookup-patched c e d x u,
      same_text_refl (lookup client_secret_key d),
      eq_refl x,
    ),
    ground (arith, q, g, h, u, lookup-patched c e d x u),
    ground (arith, q, g, u, lookup-patched c e d x u, eq_refl x, eq_iff x x),
  )
]

pub step-IsKept :
    (c : Client) (m : Move) (p : Phase) (s : Cluster)
    → c.uses_client_secret ≡ true
    → (m.fresh == "") ≡ false
    → is_settled s ≡ true
    → agrees s p ≡ true
    → IsKept s (step c m p s)
unfolding step get_secret
step-IsKept c m creating s u f h g = create_step-IsKept c m s u f h
step-IsKept c m (adopting b e) s u f h g = adopt_step-IsKept c m b e s u h g
step-IsKept c m (starting b) none u f h g = ground arith
step-IsKept c m (starting b) (some d) u f h g =
    ground (arith, h, same_text_refl (lookup client_secret_key d))
step-IsKept c m rereading none u f h g = ground arith
step-IsKept c m rereading (some d) u f h g =
    ground (arith, h, same_text_refl (lookup client_secret_key d))
step-IsKept c m (refreshing x) none u f h g = ground arith
step-IsKept c m (refreshing x) (some d) u f h g =
    ground (arith, h, g, same_text_refl (lookup client_secret_key d))
step-IsKept c m (finished x) none u f h g = ground arith
step-IsKept c m (finished x) (some d) u f h g =
    ground (arith, h, g, same_text_refl (lookup client_secret_key d))
step-IsKept c m (failed why) none u f h g = ground arith
step-IsKept c m (failed why) (some d) u f h g =
    ground (arith, h, same_text_refl (lookup client_secret_key d))
