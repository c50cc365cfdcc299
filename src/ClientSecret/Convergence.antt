-- ===== src/ClientSecret/Convergence.antt =====
-- The reconciles of a confidential client agree on its client_secret.
use passmower.Prelude.{
  ℕ, zero, suc, String, Option, none, some, Bool, true, false, not, List, [], ◌∷◌, ◌==◌, ◌≡◌, refl,
  arith, eq_iff, lookup, all, same_text,
}
use passmower.ClientSecret.{
  client_secret_key, Client, Move, Phase, starting, creating, rereading, adopting, refreshing,
  finished, failed, Cluster, step, World, move_in, run,
}
use passmower.ClientSecret.Steps.{secret_of, is_settled, agrees, keeps, same_text_refl, step-IsKept}

same_text_trans :
    (a b c : Option String) → same_text a b ≡ true → same_text b c ≡ true → same_text a c ≡ true
same_text_trans none none none h g = refl
same_text_trans none none (some z) h g = cc
same_text_trans none (some y) c h g = cc
same_text_trans (some x) none c h g = cc
same_text_trans (some x) (some y) none h g = cc
same_text_trans (some x) (some y) (some z) h g = ground (arith, eq_iff x y, eq_iff y z, eq_iff x z)

same_text_sym : (a b : Option String) → same_text a b ≡ true → same_text b a ≡ true
same_text_sym none none h = refl
same_text_sym none (some y) h = cc
same_text_sym (some x) none h = cc
same_text_sym (some x) (some y) h = ground (arith, eq_iff x y, eq_iff y x)

keeps-agrees :
    (s t : Cluster) (p : Phase) → keeps s t ≡ true → agrees s p ≡ true → agrees t p ≡ true
keeps-agrees s t (starting b) k g = refl
keeps-agrees s t creating k g = refl
keeps-agrees s t rereading k g = refl
keeps-agrees none t (adopting b e) k g = cc
keeps-agrees (some d) t (adopting b e) k g = ground (
  arith,
  k,
  g,
  same_text_sym (secret_of t) (lookup client_secret_key d),
  same_text_trans (lookup client_secret_key e) (lookup client_secret_key d) (secret_of t),
)
keeps-agrees none t (refreshing x) k g = cc
keeps-agrees (some d) t (refreshing x) k g = ground (
  arith,
  k,
  g,
  same_text_sym (secret_of t) (lookup client_secret_key d),
  same_text_trans (x) (lookup client_secret_key d) (secret_of t),
)
keeps-agrees none t (finished x) k g = cc
keeps-agrees (some d) t (finished x) k g = ground (
  arith,
  k,
  g,
  same_text_sym (secret_of t) (lookup client_secret_key d),
  same_text_trans (x) (lookup client_secret_key d) (secret_of t),
)
keeps-agrees s t (failed why) k g = refl

all-agrees :
    (s t : Cluster) (ps : List Phase)
    → keeps s t ≡ true
    → all (agrees s) ps ≡ true
    → all (agrees t) ps ≡ true
all-agrees s t [] k g = refl
all-agrees s t (p ∷ ps) k g = ground (arith, g, keeps-agrees s t p k, all-agrees s t ps k)

abbrev IsKeptAll : Cluster → Cluster × List Phase → Type 0
IsKeptAll s r = (keeps s r.0 ≡ true) × (is_settled r.0 ≡ true) × (all (agrees r.0) r.1 ≡ true)

move_in-IsKeptAll :
    (c : Client) (m : Move) (n : ℕ) (ps : List Phase) (s : Cluster)
    → c.uses_client_secret ≡ true
    → (m.fresh == "") ≡ false
    → is_settled s ≡ true
    → all (agrees s) ps ≡ true
    → IsKeptAll s (move_in c m n ps s)
unfolding move_in
move_in-IsKeptAll c m n [] none u f h g = (refl, h, refl)
move_in-IsKeptAll c m n [] (some d) u f h g = (same_text_refl (lookup client_secret_key d), h, refl)
move_in-IsKeptAll c m zero (p ∷ ps) s u f h g =
    let k = step-IsKept c m p s u f h (ground (arith, g)) in
    (k.0, k.1, ground (arith, g, k.2, all-agrees s (step c m p s).0 ps k.0))
move_in-IsKeptAll c m (suc n) (p ∷ ps) s u f h g =
    let k = move_in-IsKeptAll c m n ps s u f h (ground (arith, g)) in
    (k.0, k.1, ground (arith, g, k.2, keeps-agrees s (move_in c m n ps s).0 p k.0))

keeps_refl : (s : Cluster) → keeps s s ≡ true
keeps_refl none = refl
keeps_refl (some d) = same_text_refl (lookup client_secret_key d)

keeps_trans : (s t r : Cluster) → keeps s t ≡ true → keeps t r ≡ true → keeps s r ≡ true
keeps_trans none t r h g = refl
keeps_trans (some d) none r h g = cc
keeps_trans (some d) (some e) r h g = ground (
  arith,
  h,
  g,
  same_text_trans (secret_of r) (lookup client_secret_key e) (lookup client_secret_key d),
)

abbrev pub uses_fresh : Move → Bool
uses_fresh m = not (m.fresh == "")

-- Reconciles of a confidential client over a Secret that is missing or has a client_secret, with
-- their calls of the API in any order and any of them failing: if every reconcile that has a
-- client_secret has the one in the Secret, this stays so, and a client_secret that was there stays.
pub run-agrees :
    (c : Client) (ms : List Move) (w : World)
    → c.uses_client_secret ≡ true
    → all uses_fresh ms ≡ true
    → is_settled w.secret ≡ true
    → all (agrees w.secret) w.pods ≡ true
    → (keeps w.secret (run c ms w).secret ≡ true)
      × (all (agrees (run c ms w).secret) (run c ms w).pods ≡ true)
unfolding run
run-agrees c [] w u f h g = (keeps_refl w.secret, g)
run-agrees c (m ∷ ms) w u f h g =
    let k = move_in-IsKeptAll c m m.pod w.pods w.secret u (ground (arith, f)) h g in
    let next = move_in c m m.pod w.pods w.secret in
    let rest =
      run-agrees c ms (record { secret = next.0; pods = next.1 }) u (ground (arith, f)) k.1 k.2 in
    (keeps_trans w.secret next.0 _ k.0 rest.0, rest.1)
