-- ===== src/ScimLink/Links.antt =====
-- A subject stays with the account that it is linked to.
use passmower.Prelude.{
  String, Option, none, some, Bool, true, not, List, [], ◌∷◌, ◌==◌, ◌&&◌, ◌≡◌, ◌⊎◌, refl, sym, ap,
  ◌∙◌, inl, inr, Assoc, filter, find, map, contains, is_empty, same_text, ==→≡, IsDistinct,
  if◌then◌else◌, arith, eq_iff, eq_refl, Bool-cases, Option-cases,
}
use passmower.ScimLink.{
  Resource, Connection, Result, ok, threw, Cluster, Api, set_link, list_resources, link_subject,
  project_to, project, after_link, link_found, target_for, external_id_for, joined, link_each,
  link_account,
}

-- The account that the subject of a name is linked to.
abbrev pub link_of : String → List Resource → Option String
link_of id [] = none
link_of id (r ∷ rs) = if r.account_id == id then r.linked_account_id else link_of id rs

link_of-set_link :
    (id j a : String) (rs : List Resource)
    → link_of id (set_link j a rs) ≡ (
        if j == id
        then (if contains id (map (λ (r : Resource). r.account_id) rs) then some a else none)
        else link_of id rs)
link_of-set_link id j a [] = ground arith
link_of-set_link id j a (r ∷ rs) =
    ground (
      arith,
      link_of-set_link id j a rs,
      eq_iff r.account_id j,
      eq_iff r.account_id id,
      eq_iff j id,
    )

-- The subject that the list has under a name is the one that carries it, where names are distinct.
link_of-find :
    (p : Resource → Bool) (rs : List Resource) (r : Resource)
    → IsDistinct (map (λ (x : Resource). x.account_id) rs)
    → find p rs ≡ some r
    → (link_of r.account_id rs ≡ r.linked_account_id)
      × (contains r.account_id (map (λ (x : Resource). x.account_id) rs) ≡ true)
link_of-find p [] r d h = absurd (ground (arith, h))
link_of-find p (x ∷ rs) r d h = elim (Bool-cases (p x)) [
  | inl e ↦
      let is_r : x ≡ r = ground (arith, e, h) in
      rw (sym is_r) (ground (arith, eq_refl x.account_id), ground (arith, eq_refl x.account_id))
  | inr e ↦
      let (same, there) = link_of-find p rs r d.1 (ground (arith, e, h)) in
      (
        ground (arith, same, there, d.0, eq_iff x.account_id r.account_id),
        ground (arith, there, Bool-cases (x.account_id == r.account_id)),
      )
]

abbrev pub names : List Resource → List String
names rs = map (λ (r : Resource). r.account_id) rs

names-set_link : (j a : String) (rs : List Resource) → names (set_link j a rs) ≡ names rs
names-set_link j a [] = refl
names-set_link j a (r ∷ rs) = ground (arith, names-set_link j a rs, Bool-cases (r.account_id == j))

find-filter :
    (p q : Resource → Bool) (rs : List Resource) → find q (filter p rs) ≡ find (λ r. p r && q r) rs
find-filter p q [] = refl
find-filter p q (r ∷ rs) = ground (arith, find-filter p q rs, Bool-cases (p r))

module _ (api : Api) where
  project-subjects :
      (c : Connection) (r : Resource) (s : Cluster) → (project api c r s).1.subjects ≡ s.subjects
  unfolding project project_to
  project-subjects c r s = elim (Option-cases r.linked_account_id) [
    | inl e ↦ rw (e, project) refl
    | inr (a, e) ↦ ground (arith, e, Bool-cases (api.has_account a), Bool-cases (api.updates a))
  ]

  after_link-subjects :
      (c : Connection) (step : Result Resource × Cluster)
      → (after_link api c step).1.subjects ≡ step.1.subjects
  after_link-subjects c (threw e, s) = refl
  after_link-subjects c (ok r, s) = project-subjects c r s

  -- A step links the subject that it was given, if that had no link, or leaves the subjects alone.
  link_found-subjects :
      (c : Connection) (a : String) (r : Resource) (s : Cluster)
      → ((link_found api c a r s).1.subjects ≡ s.subjects)
        ⊎ ((r.linked_account_id ≡ none)
            × ((link_found api c a r s).1.subjects ≡ set_link r.account_id a s.subjects))
  unfolding link_found link_subject
  link_found-subjects c a r s = elim (Option-cases r.linked_account_id) [
    | inr (b, e) ↦ elim (Bool-cases (b == a)) [
      | inl f ↦ inl (rw (e, f, link_found) (project-subjects c r s))
      | inr f ↦ inl (rw (e, f, link_found) refl)
    ]
    | inl e ↦
        let same = after_link-subjects c (link_subject api r a s) in
        elim (Bool-cases r.is_group) [
          | inl g ↦ inl (ground (arith, e, g, same))
          | inr g ↦ elim (Bool-cases (api.writes_status r.account_id)) [
            | inl w ↦ inr (e, ground (arith, e, g, w, same))
            | inr w ↦ inl (ground (arith, e, g, w, same))
          ]
        ]
  ]

  target_for-find :
      (c : Connection) (provider : String) (claims : Assoc String) (s : Cluster) (r : Resource)
      → target_for api c provider claims s ≡ some r
      → (p : Resource → Bool) × (find p s.subjects ≡ some r)
  unfolding target_for list_resources
  target_for-find c provider claims s r h =
      elim (Option-cases (external_id_for api c provider claims)) [
        | inl e ↦ absurd (ground (arith, e, h))
        | inr (x, e) ↦
            let mine = λ (y : Resource). y.connection_uid == c.uid in
            let named = λ (y : Resource). same_text y.identity.external_id (some x) in
            (λ y. mine y && named y, sym (find-filter mine named s.subjects) ∙ ground (arith, e, h))
      ]

  step-kept :
      (c : Connection) (provider a : String) (claims : Assoc String) (s : Cluster) (r : Resource)
      (id b : String)
      → IsDistinct (names s.subjects)
      → target_for api c provider claims s ≡ some r
      → link_of id s.subjects ≡ some b
      → (IsDistinct (names (link_found api c a r s).1.subjects))
        × (link_of id (link_found api c a r s).1.subjects ≡ some b)
  step-kept c provider a claims s r id b d t h = elim (link_found-subjects c a r s) [
    | inl same ↦ rw (same) (d, h)
    | inr (free, same) ↦
        let (p, found) = target_for-find c provider claims s r t in
        let (link, there) = link_of-find p s.subjects r d found in
        rw (same, names-set_link r.account_id a s.subjects)
          (
            d,
            link_of-set_link id r.account_id a s.subjects ∙ elim (Bool-cases (r.account_id == id)) [
              | inl e ↦ absurd (
                  ground
                    (arith, ap (λ x. link_of x s.subjects) (==→≡ r.account_id id e), link, free, h))
              | inr e ↦ ground (arith, e, h)
            ],
          )
  ]

  joined-subjects :
      (step : Result Resource) (s : Cluster) (rest : Result (List String) × Cluster) (id b : String)
      → link_of id s.subjects ≡ some b
      → link_of id rest.1.subjects ≡ some b
      → link_of id (joined api step s rest).1.subjects ≡ some b
  joined-subjects (threw e) s rest id b h k = h
  joined-subjects (ok r) s (threw e, u) id b h k = k
  joined-subjects (ok r) s (ok ids, u) id b h k = k

  each-kept :
      (provider a : String) (claims : Assoc String) (cs : List Connection) (s : Cluster)
      (id b : String)
      → IsDistinct (names s.subjects)
      → link_of id s.subjects ≡ some b
      → link_of id (link_each api provider a claims cs s).1.subjects ≡ some b
  unfolding link_each
  each-kept provider a claims [] s id b d h = h
  each-kept provider a claims (c ∷ cs) s id b d h =
      elim (Option-cases (target_for api c provider claims s)) [
        | inl e ↦ rw (e, link_each) (each-kept provider a claims cs s id b d h)
        | inr (r, e) ↦
            let (distinct, kept) = step-kept c provider a claims s r id b d e h in
            let step = link_found api c a r s in
            rw (e, link_each)
              (joined-subjects step.0 step.1 (link_each api provider a claims cs step.1) id b kept
                (each-kept provider a claims cs step.1 id b distinct kept))
      ]

  -- The names of the subjects are distinct. A subject that is linked to an account is linked to the same
  -- one after linkAccount, whichever account signs in and whether or not the call throws.
  pub link_account-kept :
      (provider a : String) (claims : Assoc String) (cs : List Connection) (s : Cluster)
      (id b : String)
      → IsDistinct (names s.subjects)
      → link_of id s.subjects ≡ some b
      → link_of id (link_account api provider a claims cs s).1.subjects ≡ some b
  unfolding link_account
  link_account-kept provider a claims cs s id b d h = elim (Bool-cases (is_empty claims)) [
    | inl e ↦ rw (e, link_account) h
    | inr e ↦
        rw (e, link_account)
          (each-kept provider a claims (filter (λ (c : Connection). not c.disabled) cs) s id b d h)
  ]
