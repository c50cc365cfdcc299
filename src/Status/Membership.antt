-- ===== src/Status/Membership.antt =====
-- The groups of the intended status of an account.
use passmower.Prelude.{
  String, Option, Bool, List, [], ◌∷◌, ◌++◌, ◌==◌, ◌&&◌, ◌||◌, ◌≡◌, inl, inr, refl, sym, ap, ◌∙◌,
  Assoc, insert, insert-IsDistinct, keys, values, any, any-append, map, contains,
  contains-keys-insert, IsDistinct, arith, eq_iff, Bool-cases,
}
use passmower.Settings.{Settings}
use passmower.Account.{Account, Group, Identity, display_name}
use passmower.Ownership.{EmailText}
use passmower.Status.{
  is_active, active_groups, by_display_name, intended_groups, get_intended_status,
}

-- Every group stands under its display name.
data IsKeyed : Assoc Group → Type 0 where
  nil : IsKeyed []
  cons :
      (k : String) (g : Group) (m : Assoc Group)
      → display_name g ≡ k
      → IsKeyed m
      → IsKeyed ((k, g) ∷ m)

insert-IsKeyed : (g : Group) (m : Assoc Group) → IsKeyed m → IsKeyed (insert (display_name g) g m)
insert-IsKeyed g _ nil = cons (display_name g) g [] refl nil
insert-IsKeyed g _ (cons k h m e rest) = elim (Bool-cases (k == display_name g)) [
  | inl q ↦ rw (q) (cons k g m (sym ((eq_iff k (display_name g)).0 q)) rest)
  | inr q ↦ rw (q) (cons k h (insert (display_name g) g m) e (insert-IsKeyed g m rest))
]

by_display_name-IsKeyed :
    (m : Assoc Group) (gs : List Group) → IsKeyed m → IsKeyed (by_display_name m gs)
unfolding by_display_name
by_display_name-IsKeyed m [] h = h
by_display_name-IsKeyed m (g ∷ gs) h =
    by_display_name-IsKeyed (insert (display_name g) g m) gs (insert-IsKeyed g m h)

names-keys : (m : Assoc Group) → IsKeyed m → map display_name (values m) ≡ keys m
names-keys _ nil = refl
names-keys _ (cons k g m e rest) = ground (arith, e, names-keys m rest)

by_display_name-IsDistinct :
    (m : Assoc Group) (gs : List Group)
    → IsDistinct (keys m)
    → IsDistinct (keys (by_display_name m gs))
unfolding by_display_name
by_display_name-IsDistinct m [] h = h
by_display_name-IsDistinct m (g ∷ gs) h =
    by_display_name-IsDistinct (insert (display_name g) g m) gs
      (insert-IsDistinct (display_name g) g m h)

abbrev pub has_group : String → List Group → Bool
has_group n gs = any (λ g. display_name g == n) gs

contains-by_display_name :
    (n : String) (m : Assoc Group) (gs : List Group)
    → contains n (keys (by_display_name m gs)) ≡ (contains n (keys m) || has_group n gs)
unfolding by_display_name
contains-by_display_name n m [] = ground arith
contains-by_display_name n m (g ∷ gs) =
    contains-by_display_name n (insert (display_name g) g m) gs
    ∙ ground (arith, contains-keys-insert (display_name g) n g m)

abbrev pub confers : String → Assoc Identity → Bool
confers n identities = any (λ p. is_active p.1 && has_group n p.1.groups) identities

has_group-active_groups :
    (n : String) (m : Assoc Identity) → has_group n (active_groups m) ≡ confers n m
unfolding active_groups
has_group-active_groups n [] = refl
has_group-active_groups n ((k, i) ∷ m) = elim (Bool-cases (is_active i)) [
  | inl q ↦ ground (
    arith,
    q,
    any-append (λ g. display_name g == n) i.groups (active_groups m),
    has_group-active_groups n m,
  )
  | inr q ↦ ground (arith, q, has_group-active_groups n m)
]

module _ (t : EmailText) (provider_mode : String → Option String) where
  -- The groups of the intended status have different display names, and a group is among them exactly if
  -- the spec, Passmower, GitHub or an identity that is not deactivated has it.
  pub status_groups_exact :
      (s : Settings) (document : Option String) (a : Account) (n : String)
      → let names = map display_name (get_intended_status t provider_mode s document a).groups in
        IsDistinct names
        × (contains n names ≡ (
            has_group n a.spec.groups
            || (has_group n a.passmower.groups
                || (has_group n a.github.groups || confers n a.identities))))
  unfolding get_intended_status intended_groups
  status_groups_exact s document a n =
      (let p = λ (g : Group). display_name g == n in
        let upstream = a.github.groups ++ active_groups a.identities in
        let all = a.spec.groups ++ (a.passmower.groups ++ upstream) in
        let names = names-keys (by_display_name [] all) (by_display_name-IsKeyed [] all nil) in
        let splits : has_group n all ≡ (
            has_group n a.spec.groups
            || (has_group n a.passmower.groups
                || (has_group n a.github.groups || confers n a.identities))) =
          ground (
            arith,
            any-append p a.spec.groups (a.passmower.groups ++ upstream),
            any-append p a.passmower.groups upstream,
            any-append p a.github.groups (active_groups a.identities),
            has_group-active_groups n a.identities,
          ) in
        (
          rw (names) (by_display_name-IsDistinct [] all tt),
          (ap (contains n) names ∙ (contains-by_display_name n [] all ∙ splits)),
        ))
