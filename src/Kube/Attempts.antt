-- ===== src/Kube/Attempts.antt =====
-- The attempts of mutateNamespacedCustomObjectStatus of adapters/kubernetes.js, counted.
use passmower.Prelude.{Bool, List, [], ◌∷◌, ◌≡◌, arith}
use passmower.Kube.Mutation.{Answers, mutate_loop, mutate_status}

module _ {S : Type 0} (equal : S → S → Bool) (compute : S → S) where
  -- Whatever the API server answers, mutateNamespacedCustomObjectStatus ends after at most three
  -- attempts: its result depends on the first three only.
  pub mutate_status-three :
      (a b c : Answers S) (rest : List (Answers S))
      → mutate_status S equal compute (a ∷ b ∷ c ∷ rest)
        ≡ mutate_status S equal compute (a ∷ b ∷ c ∷ [])
  unfolding mutate_status mutate_loop
  mutate_status-three a b c rest = ground arith
