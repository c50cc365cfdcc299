-- ===== src/Kube/Mutation.antt =====
-- mutateNamespacedCustomObjectStatus of adapters/kubernetes.js: read, compute, replace, at most three
-- times.
use passmower.Prelude.{ℕ, zero, suc, Option, Bool, List, [], ◌∷◌, if◌then◌else◌}
use passmower.Kube.{Reply, ok, error, Result, value, missing, failed, is_code}

-- An object as the API server has it, with its resource version.
pub record Versioned (S : Type 0) : Type 0 where
  pub version : ℕ
  pub status : S

module _ (S : Type 0) where
  -- The answers to the two calls of one attempt. The second one is not read if there is no write.
  pub record Answers : Type 0 where
    pub read : Reply (Versioned S)
    pub written : Reply (Versioned S)

  -- How an attempt ends.
  pub data Attempt : Type 0 where
    unchanged : Versioned S → Attempt  -- nothing to write
    wrote : Versioned S → S → Versioned S → Attempt  -- read, wrote, got back
    refused : Option ℕ → Attempt  -- the code of the error

  -- `compute` is statusFunction after mapperFunction, `equal` is isEqual.
  unfoldable pub attempt : (S → S → Bool) → (S → S) → Answers → Attempt
  attempt equal compute a = elim a.read [
    | error c ↦ refused c
    | ok current ↦
        if equal current.status (compute current.status)
        then unchanged current
        else elim a.written [
          | error c ↦ refused c
          | ok updated ↦ wrote current (compute current.status) updated
        ]
  ]

  -- `left` attempts are left after this one; an answer that is not given is an error.
  unfoldable pub mutate_loop : (S → S → Bool) → (S → S) → ℕ → List Answers → Result (Versioned S)
  mutate_loop equal compute left [] = missing
  mutate_loop equal compute left (a ∷ rest) = elim (attempt equal compute a) [
    | unchanged current ↦ value current
    | wrote current status updated ↦ value updated
    | refused c ↦
        if is_code 404 c
        then failed
        else if is_code 409 c
        then (elim left [ zero ↦ missing | suc n ↦ mutate_loop equal compute n rest ])
        else missing
  ]

  unfoldable pub mutate_status : (S → S → Bool) → (S → S) → List Answers → Result (Versioned S)
  mutate_status equal compute answers = mutate_loop equal compute 2 answers
