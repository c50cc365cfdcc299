-- ===== src/Sweep/Safety.antt =====
-- What a sweep may remove.
use passmower.Prelude.{
  String, Option, none, some, Bool, true, false, not, List, [], ◌∷◌, ◌==◌, ◌&&◌, ◌||◌, ◌≡◌, ◌⊎◌,
  inl, inr, refl, arith, eq_iff, if◌then◌else◌, contains, any, all, is_some, filter, map,
  Option-cases, contains-append,
}
use passmower.Sweep.{
  LiveClient, ClientRecord, Reading, missing, World, is_swept, list_live_client_ids, confirm_absent,
  is_removed, remove_orphans, sweep,
}

-- A resource in scope that one of the lists has.
abbrev pub is_listed : (String → Bool) → String → List (Option (List LiveClient)) → Bool
is_listed in_scope id [] = false
is_listed in_scope id (none ∷ ls) = is_listed in_scope id ls
is_listed in_scope id (some cs ∷ ls) =
    any (λ (c : LiveClient). c.client_id == id && in_scope c.client_namespace) cs
    || is_listed in_scope id ls

contains-ids :
    (in_scope : String → Bool) (id : String) (cs : List LiveClient)
    → contains id (
        map
          (λ (c : LiveClient). c.client_id)
          (filter (λ (c : LiveClient). in_scope c.client_namespace) cs))
      ≡ any (λ (c : LiveClient). c.client_id == id && in_scope c.client_namespace) cs
contains-ids in_scope id [] = refl
contains-ids in_scope id (c ∷ cs) = ground (arith, contains-ids in_scope id cs)

abbrev agrees : Option (List String) → Bool → Bool → String → Bool
agrees none listed complete id = true
agrees (some live) listed complete id =
    complete && (if contains id live then listed else not listed)

list_live_client_ids-is_listed :
    (in_scope : String → Bool) (id : String) (lists : List (Option (List LiveClient)))
    → agrees
        (list_live_client_ids in_scope lists)
        (is_listed in_scope id lists)
        (all is_some lists)
        id
      ≡ true
unfolding list_live_client_ids
list_live_client_ids-is_listed in_scope id [] = refl
list_live_client_ids-is_listed in_scope id (none ∷ ls) = refl
list_live_client_ids-is_listed in_scope id (some cs ∷ ls) =
    elim (Option-cases (list_live_client_ids in_scope ls)) [
      | inl e ↦ ground (arith, e)
      | inr (rest, e) ↦
          let mine =
            map (λ (c : LiveClient). c.client_id)
              (filter (λ (c : LiveClient). in_scope c.client_namespace) cs) in
          ground (
            arith,
            e,
            contains-ids in_scope id cs,
            list_live_client_ids-is_listed in_scope id ls,
            contains-append id mine rest,
          )
    ]

contains-remove_orphans :
    (in_scope : String → Bool) (w : World) (live : List String) (id : String) (ids : List String)
    → contains id (remove_orphans in_scope w live ids)
      ≡ (contains id ids && is_removed in_scope w live id)
unfolding remove_orphans
contains-remove_orphans in_scope w live id [] = refl
contains-remove_orphans in_scope w live id (x ∷ ids) =
    ground (arith, contains-remove_orphans in_scope w live id ids, eq_iff x id)

-- The resource of a record is gone: the record is missing itself, or it is of a swept kind, in
-- scope, and the API server answers that the resource does not exist.
abbrev pub IsGone : (String → Bool) → World → String → Type 0
IsGone in_scope w id =
    (w.find id ≡ none)
    ⊎ ((r : ClientRecord) × (w.find id ≡ some r)
        × (is_swept r.kind ≡ true)
        × (in_scope r.client_namespace ≡ true)
        × (w.read r ≡ missing))

confirm_absent-missing : (x : Reading) → confirm_absent x ≡ true → x ≡ missing
unfolding confirm_absent
confirm_absent-missing missing h = refl
confirm_absent-missing Reading.there h = cc
confirm_absent-missing Reading.read_failed h = cc

is_removed-IsGone :
    (in_scope : String → Bool) (w : World) (live : List String) (id : String)
    → is_removed in_scope w live id ≡ true
    → (contains id live ≡ false) × IsGone in_scope w id
unfolding is_removed
is_removed-IsGone in_scope w live id h = elim (Option-cases (w.find id)) [
  | inl e ↦ (ground (arith, e, h), inl e)
  | inr (r, e) ↦ (
    ground (arith, e, h),
    inr (
      r,
      e,
      ground (arith, e, h),
      ground (arith, e, h),
      confirm_absent-missing (w.read r) (ground (arith, e, h)),
    ),
  )
]

contains_of :
    (in_scope : String → Bool) (w : World) (lists : List (Option (List LiveClient)))
    (ids : List String) (id : String) (live : List String)
    → list_live_client_ids in_scope lists ≡ some live
    → contains id (sweep in_scope w false lists ids) ≡ true
    → contains id (remove_orphans in_scope w live ids) ≡ true
unfolding sweep
contains_of in_scope w lists ids id live e h = ground (arith, e, h)

-- An id that a sweep removes was in the set of clients, no other sweep was running, every list
-- succeeded and none has it in scope, and its record is missing or its resource is gone.
pub sweep-IsGone :
    (in_scope : String → Bool) (w : World) (running : Bool)
    (lists : List (Option (List LiveClient))) (ids : List String) (id : String)
    → contains id (sweep in_scope w running lists ids) ≡ true
    → (running ≡ false)
      × (all is_some lists ≡ true)
      × (is_listed in_scope id lists ≡ false)
      × (contains id ids ≡ true)
      × IsGone in_scope w id
unfolding sweep
sweep-IsGone in_scope w true lists ids id h = cc
sweep-IsGone in_scope w false lists ids id h =
    elim (Option-cases (list_live_client_ids in_scope lists)) [
      | inl e ↦ absurd (ground (arith, e, h))
      | inr (live, e) ↦
          let found = contains-remove_orphans in_scope w live id ids in
          let removed = contains_of in_scope w lists ids id live e h in
          let gone = is_removed-IsGone in_scope w live id (ground (arith, found, removed)) in
          let listed = list_live_client_ids-is_listed in_scope id lists in
          (
            refl,
            ground (arith, e, listed, gone.0),
            ground (arith, e, listed, gone.0),
            ground (arith, found, removed),
            gone.1,
          )
    ]
