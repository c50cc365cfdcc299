-- ===== src/Kube/Atomicity.antt =====
-- mutateNamespacedCustomObjectStatus of adapters/kubernetes.js against an API server that keeps
-- resource versions, with other writers between the two calls of an attempt.
use passmower.Prelude.{
  ℕ, zero, suc, ◌<◌, Option, none, some, Bool, Bool-cases, true, List, [], ◌∷◌, ◌≡◌, refl, sym, ap,
  ◌∙◌, ◌⊎◌, inl, inr, if◌then◌else◌, arith,
}
use passmower.Kube.{Reply, ok, error, value}
use passmower.Kube.Mutation.{
  Versioned, Answers, Attempt, unchanged, wrote, refused, attempt, mutate_loop, mutate_status,
}

-- What the documentation of the API server says of one object: a replacement is refused unless it
-- names the version of the object as it is, and gives a later one; a refusal changes nothing.
pub record Server (S : Type 0) : Type 1 where
  pub State : Type 0
  pub object : State → Option (Versioned S)
  pub read : State → Reply (Versioned S)
  pub replace : ℕ → S → State → Reply (Versioned S)
  pub replaced : ℕ → S → State → State
  pub read_ok : (s : State) (v : Versioned S) → read s ≡ ok v → object s ≡ some v
  pub replace_version :
      (n : ℕ) (x : S) (s : State) (w : Versioned S)
      → replace n x s ≡ ok w
      → (v : Versioned S) × (object s ≡ some v) × (v.version ≡ n) × (v.version < w.version)
  pub replace_object :
      (n : ℕ) (x : S) (s : State) (w : Versioned S)
      → replace n x s ≡ ok w
      → (object (replaced n x s) ≡ some w) × (w.status ≡ x)
  pub replace_refused :
      (n : ℕ) (x : S) (s : State) (c : ℕ)
      → replace n x s ≡ error (some c)
      → object (replaced n x s) ≡ object s

-- What the other writers do between two calls: an object that keeps its version is the same.
pub record Interference {S : Type 0} (server : Server S) : Type 0 where
  pub acts : server.State → server.State
  pub keeps :
      (s : server.State) (v w : Versioned S)
      → server.object s ≡ some v
      → server.object (acts s) ≡ some w
      → v.version ≡ w.version
      → v ≡ w

module _ {S : Type 0} (server : Server S) (equal : S → S → Bool) (compute : S → S) where
  -- The states of the server at the two calls of an attempt and after it.
  pub record Turn : Type 0 where
    pub at_read : server.State
    pub at_write : server.State
    pub after : server.State
    pub kept :
        (v w : Versioned S)
        → server.object at_read ≡ some v
        → server.object at_write ≡ some w
        → v.version ≡ w.version
        → v ≡ w

  unfoldable pub written_reply : server.State → Reply (Versioned S) → Reply (Versioned S)
  written_reply s (error c) = error c
  written_reply s (ok v) = server.replace v.version (compute v.status) s

  unfoldable pub after_attempt : server.State → Reply (Versioned S) → server.State
  after_attempt s (error c) = s
  after_attempt s (ok v) =
      if equal v.status (compute v.status)
      then s
      else server.replaced v.version (compute v.status) s

  unfoldable pub turn : server.State → Interference server → Turn
  turn s others = record {
    at_read = s;
    at_write = others.acts s;
    after = after_attempt (others.acts s) (server.read s);
    kept = others.keeps s;
  }

  unfoldable pub answers_of : Turn → Answers S
  answers_of t = record {
    read = server.read t.at_read;
    written = written_reply t.at_write (server.read t.at_read);
  }

  -- The attempts, each with the writes of others within it and those between it and the next.
  unfoldable pub turns : server.State → List (Interference server × Interference server) → List Turn
  turns s [] = []
  turns s (others ∷ rest) =
      (let now = turn s (others.0) in now ∷ turns (others.1.acts now.after) rest)

  unfoldable pub answers : List Turn → List (Answers S)
  answers [] = []
  answers (t ∷ rest) = answers_of t ∷ answers rest

  -- One atomic update: the object as it was computed from, or an object that `compute` leaves.
  pub data Effect (t : Turn) (v : Versioned S) : Type 0 where
    read_only :
        server.object t.at_read ≡ some v → equal v.status (compute v.status) ≡ true → Effect t v
    updated :
        (before : Versioned S)
        → server.object t.at_write ≡ some before
        → server.object t.after ≡ some v
        → v.status ≡ compute before.status
        → before.version < v.version
        → Effect t v

  -- The turn that gave the result; those before it left the object as it was.
  pub data Took (v : Versioned S) : List Turn → Type 0 where
    now : (t : Turn) (rest : List Turn) → Effect t v → Took v (t ∷ rest)
    later :
        (t : Turn) (rest : List Turn)
        → server.object t.after ≡ server.object t.at_write
        → Took v rest
        → Took v (t ∷ rest)

  -- What the end of an attempt says of its turn.
  data Ends (t : Turn) : Attempt S → Type 0 where
    ends_read : (v : Versioned S) → Effect t v → Ends t (unchanged v)
    ends_write : (v : Versioned S) (x : S) (w : Versioned S) → Effect t w → Ends t (wrote v x w)
    ends_refused :
        (c : Option ℕ)
        → ((n : ℕ) → c ≡ some n → server.object t.after ≡ server.object t.at_write)
        → Ends t (refused c)

  Reply-cases :
      {A : Type 0} (r : Reply A) → ((a : A) × (r ≡ ok a)) ⊎ ((c : Option ℕ) × (r ≡ error c))
  Reply-cases (ok a) = inl (a, refl)
  Reply-cases (error c) = inr (c, refl)

  wrote-Effect :
      (t : Turn) (v w : Versioned S)
      → server.object t.at_read ≡ some v
      → server.replace v.version (compute v.status) t.at_write ≡ ok w
      → t.after ≡ server.replaced v.version (compute v.status) t.at_write
      → Effect t w
  wrote-Effect t v w is_read is_ok is_after =
      (let (u, is_u, same, increases) =
          server.replace_version v.version (compute v.status) t.at_write w is_ok in
        let (is_w, is_x) = server.replace_object v.version (compute v.status) t.at_write w is_ok in
        updated u is_u (ap server.object is_after ∙ is_w)
          (is_x ∙ ap (λ o. compute o.status) (t.kept v u is_read is_u (sym same))) increases)

  attempt-Ends :
      (s : server.State) (others : Interference server)
      → Ends (turn s others) (attempt S equal compute (answers_of (turn s others)))
  unfolding turn attempt answers_of written_reply after_attempt
  attempt-Ends s others =
      (let x = λ (v : Versioned S). compute v.status in
        let end = attempt S equal compute (answers_of (turn s others)) in
        let after = after_attempt (others.acts s) (server.read s) in
        elim (Reply-cases (server.read s)) [
          | inr (c, e) ↦
              let is_end : end ≡ refused c = ground (arith, e) in
              let is_after : after ≡ others.acts s = ground (arith, e) in
              rw (is_end) (ends_refused c (λ n p. ap server.object is_after))
          | inl (v, e) ↦ elim (Bool-cases (equal v.status (x v))) [
            | inl b ↦
                let is_end : end ≡ unchanged v = ground (arith, e, b) in
                rw (is_end) (ends_read v (read_only (server.read_ok s v e) b))
            | inr b ↦
                let is_after : after ≡ server.replaced v.version (x v) (others.acts s) =
                  ground (arith, e, b) in
                elim (Reply-cases (server.replace v.version (x v) (others.acts s))) [
                  | inl (w, r) ↦
                      let is_end : end ≡ wrote v (x v) w = ground (arith, e, b, r) in
                      rw (is_end) (
                        ends_write v (x v) w
                          (wrote-Effect (turn s others) v w (server.read_ok s v e) r is_after))
                  | inr (c, r) ↦
                      let is_end : end ≡ refused c = ground (arith, e, b, r) in
                      rw (is_end) (
                        ends_refused c (λ n p.
                          ap server.object is_after
                          ∙ server.replace_refused v.version (x v) (others.acts s) n
                              (r ∙ ap error p)))
                ]
          ]
        ])

  loop_step :
      (t : Turn) (rest : List Turn) (v : Versioned S) (left : ℕ) (a : Attempt S)
      → Ends t a
      → attempt S equal compute (answers_of t) ≡ a
      → mutate_loop S equal compute left (answers (t ∷ rest)) ≡ value v
      → Effect t v
        ⊎ ((server.object t.after ≡ server.object t.at_write)
            × ((n : ℕ) × (mutate_loop S equal compute n (answers rest) ≡ value v)))
  unfolding mutate_loop answers
  loop_step t rest v left _ (ends_read w e) is_a h =
      inl (let same : w ≡ v = ground arith in rw (sym same) e)
  loop_step t rest v left _ (ends_write u x w e) is_a h =
      inl (let same : w ≡ v = ground arith in rw (sym same) e)
  loop_step t rest v left _ (ends_refused none p) is_a h = absurd (ground arith)
  loop_step t rest v zero _ (ends_refused (some n) p) is_a h = absurd (ground arith)
  loop_step t rest v (suc left) _ (ends_refused (some n) p) is_a h =
      inr (p n refl, (left, ground arith))

  loop-Took :
      (left : ℕ) (s : server.State) (moves : List (Interference server × Interference server))
      → (v : Versioned S) → mutate_loop S equal compute left (answers (turns s moves)) ≡ value v
      → Took v (turns s moves)
  unfolding turns mutate_loop answers
  loop-Took left s [] v h = absurd (ground arith)
  loop-Took left s (others ∷ rest) v h =
      (let t = turn s (others.0) in
        let next = turns (others.1.acts t.after) rest in
        elim (loop_step t next v left (attempt S equal compute (answers_of t))
          (attempt-Ends s (others.0)) refl h) [
            | inl e ↦ now t next e
            | inr (kept, (n, again)) ↦
                later t next kept (loop-Took n (others.1.acts t.after) rest v again)
          ])

  -- The API server checks resource versions, and other writers act between any two calls. Where
  -- mutateNamespacedCustomObjectStatus returns an object, one of its attempts took effect and those
  -- before it changed nothing: either it read that object and its status is one that the computation
  -- leaves, or the object that the server had at the write, whoever wrote it, was replaced by the
  -- returned one, which has the status computed from it and a later version.
  pub mutate_status-Took :
      (s : server.State) (moves : List (Interference server × Interference server))
      → (v : Versioned S) → mutate_status S equal compute (answers (turns s moves)) ≡ value v
      → Took v (turns s moves)
  unfolding mutate_status
  mutate_status-Took s moves v h = loop-Took 2 s moves v h
