-- ===== src/Users/Passkeys.antt =====
-- The passkeys of an account, through the four methods that change them.
use passmower.Prelude.{
  ℕ, ◌≤◌, String, Option, some, Bool, true, false, not, List, [], ◌∷◌, ◌++◌, ◌==◌, ◌&&◌, ◌||◌, ◌≡◌,
  ◌⊎◌, refl, sym, ◌∙◌, inl, inr, any-append, map, length, contains, IsDistinct, nat_eq,
  if◌then◌else◌, arith, eq_iff, Bool-cases,
}
use passmower.Account.{Account, Passkey}
use passmower.Users.{
  Change, credentials, already_exists, not_found, has_passkey, without_passkey, update_first,
  add_passkey, remove_passkey, rename_passkey, update_passkey_counter,
}

pub data Operation : Type 0 where
  add : Passkey → Operation
  remove : String → Operation
  rename : String → String → Operation
  count : String → ℕ → Operation

unfoldable pub run : Operation → Option Account → Change
run (add k) a = add_passkey k a
run (remove id) a = remove_passkey id a
run (rename id name) a = rename_passkey id name a
run (count id counter) a = update_passkey_counter id counter a

-- Which passkeys there are to be after an operation, by the id.
abbrev pub expected : Operation → List Passkey → String → Bool
expected (add k) ks x = has_passkey x ks || k.id == x
expected (remove id) ks x = has_passkey x ks && not (id == x)
expected (rename id name) ks x = has_passkey x ks
expected (count id counter) ks x = has_passkey x ks

-- The passkey that an operation is about, and whether it is to be there.
abbrev pub target : Operation → String
target (add k) = k.id
target (remove id) = id
target (rename id name) = id
target (count id counter) = id

abbrev pub wants_present : Operation → Bool
wants_present (add k) = false
wants_present (remove id) = true
wants_present (rename id name) = true
wants_present (count id counter) = true

abbrev pub refused_change : Operation → Change
refused_change (add k) = already_exists
refused_change (remove id) = not_found
refused_change (rename id name) = not_found
refused_change (count id counter) = not_found

without_passkey-length :
    (id : String) (ks : List Passkey)
    → (length (without_passkey id ks) ≤ length ks)
      × (nat_eq (length (without_passkey id ks)) (length ks) ≡ not (has_passkey id ks))
without_passkey-length id [] = (ground arith, refl)
without_passkey-length id (k ∷ ks) =
    (let (shorter, same) = without_passkey-length id ks in
      elim (Bool-cases (k.id == id)) [
        | inl e ↦ (ground (arith, e, shorter), ground (arith, e, shorter))
        | inr e ↦ (ground (arith, e, shorter), ground (arith, e, same))
      ])

has_passkey-without_passkey :
    (id x : String) (ks : List Passkey)
    → has_passkey x (without_passkey id ks) ≡ (has_passkey x ks && not (id == x))
has_passkey-without_passkey id x [] = refl
has_passkey-without_passkey id x (k ∷ ks) =
    ground (arith, has_passkey-without_passkey id x ks, eq_iff k.id id, eq_iff k.id x, eq_iff id x)

has_passkey-update_first :
    (f : Passkey → Passkey) (id x : String) (ks : List Passkey)
    → ((k : Passkey) → (f k).id ≡ k.id)
    → has_passkey x (update_first f id ks) ≡ has_passkey x ks
unfolding update_first
has_passkey-update_first f id x [] h = refl
has_passkey-update_first f id x (k ∷ ks) h =
    ground (arith, has_passkey-update_first f id x ks h, h k)

updated-expected :
    (f : Passkey → Passkey) (id x : String) (ks : List Passkey) (op : Operation) (a : Account)
    → a.passkeys ≡ ks
    → ((k : Passkey) → (f k).id ≡ k.id)
    → run op (some a)
      ≡ (if has_passkey id ks then credentials (update_first f id ks) else not_found)
    → ((has_passkey id ks ≡ false) × (run op (some a) ≡ not_found))
      ⊎ ((has_passkey id ks ≡ true)
          × ((new : List Passkey) × (run op (some a) ≡ credentials new)
              × (has_passkey x new ≡ has_passkey x ks)))
updated-expected f id x ks op a is_ks kept h = elim (Bool-cases (has_passkey id ks)) [
  | inl e ↦
      inr (e, (update_first f id ks, ground (arith, e, h), has_passkey-update_first f id x ks kept))
  | inr e ↦ inl (e, ground (arith, e, h))
]

-- An operation on a passkey that is there where it must not be, or that is missing where it must be
-- there, is refused. Any other one writes credentials of which it added or removed the passkey that it
-- names and no other.
pub run-expected :
    (op : Operation) (a : Account) (x : String)
    → ((has_passkey (target op) a.passkeys ≡ not (wants_present op))
        × (run op (some a) ≡ refused_change op))
      ⊎ ((has_passkey (target op) a.passkeys ≡ wants_present op)
          × ((new : List Passkey) × (run op (some a) ≡ credentials new)
              × (has_passkey x new ≡ expected op a.passkeys x)))
unfolding run add_passkey remove_passkey rename_passkey update_passkey_counter
run-expected (add k) a x = elim (Bool-cases (has_passkey k.id a.passkeys)) [
  | inl e ↦ inl (e, ground (arith, e))
  | inr e ↦ inr (
    e,
    (
      a.passkeys ++ k ∷ [],
      ground (arith, e),
      any-append (λ (j : Passkey). j.id == x) a.passkeys (k ∷ []) ∙ ground arith,
    ),
  )
]
run-expected (remove id) a x =
    (let (shorter, same) = without_passkey-length id a.passkeys in
      elim (Bool-cases (has_passkey id a.passkeys)) [
        | inl e ↦ inr (
          e,
          (
            without_passkey id a.passkeys,
            ground (arith, e, same),
            has_passkey-without_passkey id x a.passkeys,
          ),
        )
        | inr e ↦ inl (e, ground (arith, e, same))
      ])
run-expected (rename id name) a x =
    updated-expected (λ (k : Passkey). record k { name = some name }) id x a.passkeys
      (rename id name) a refl (λ k. refl) refl
run-expected (count id counter) a x =
    updated-expected (λ (k : Passkey). record k { counter = counter }) id x a.passkeys
      (count id counter) a refl (λ k. refl) refl

abbrev pub ids : List Passkey → List String
ids ks = map (λ (k : Passkey). k.id) ks

contains-ids : (x : String) (ks : List Passkey) → contains x (ids ks) ≡ has_passkey x ks
contains-ids x [] = refl
contains-ids x (k ∷ ks) = ground (arith, contains-ids x ks)

append-IsDistinct :
    (k : Passkey) (ks : List Passkey)
    → has_passkey k.id ks ≡ false
    → IsDistinct (ids ks)
    → IsDistinct (ids (ks ++ k ∷ []))
append-IsDistinct k [] h d = (refl, tt)
append-IsDistinct k (j ∷ ks) h d = (
  contains-ids j.id (ks ++ k ∷ [])
      ∙ (any-append (λ (i : Passkey). i.id == j.id) ks (k ∷ [])
          ∙ ground (arith, h, d.0, contains-ids j.id ks, eq_iff j.id k.id, eq_iff k.id j.id)),
  append-IsDistinct k ks (ground (arith, h)) d.1,
)

without_passkey-IsDistinct :
    (id : String) (ks : List Passkey)
    → IsDistinct (ids ks)
    → IsDistinct (ids (without_passkey id ks))
without_passkey-IsDistinct id [] d = d
without_passkey-IsDistinct id (k ∷ ks) d = elim (Bool-cases (k.id == id)) [
  | inl e ↦ rw (e) (without_passkey-IsDistinct id ks d.1)
  | inr e ↦ rw (e) (
    contains-ids k.id (without_passkey id ks)
        ∙ (has_passkey-without_passkey id k.id ks ∙ ground (arith, d.0, contains-ids k.id ks)),
    without_passkey-IsDistinct id ks d.1,
  )
]

update_first-ids :
    (f : Passkey → Passkey) (id : String) (ks : List Passkey)
    → ((k : Passkey) → (f k).id ≡ k.id)
    → ids (update_first f id ks) ≡ ids ks
unfolding update_first
update_first-ids f id [] h = refl
update_first-ids f id (k ∷ ks) h = ground (arith, h k, update_first-ids f id ks h)

updated-IsDistinct :
    (f : Passkey → Passkey) (id : String) (ks new : List Passkey)
    → ((k : Passkey) → (f k).id ≡ k.id)
    → (if has_passkey id ks then credentials (update_first f id ks) else not_found)
      ≡ credentials new
    → IsDistinct (ids ks)
    → IsDistinct (ids new)
updated-IsDistinct f id ks new kept h d = elim (Bool-cases (has_passkey id ks)) [
  | inl e ↦
      let is_new : update_first f id ks ≡ new = ground (arith, e, h) in
      rw (sym is_new, update_first-ids f id ks kept) d
  | inr e ↦ absurd (ground (arith, e, h))
]

-- Where no two passkeys of an account have one id, none do after an operation.
pub run-IsDistinct :
    (op : Operation) (a : Account) (new : List Passkey)
    → run op (some a) ≡ credentials new
    → IsDistinct (ids a.passkeys)
    → IsDistinct (ids new)
unfolding run add_passkey remove_passkey rename_passkey update_passkey_counter
run-IsDistinct (add k) a new h d = elim (Bool-cases (has_passkey k.id a.passkeys)) [
  | inl e ↦ absurd (ground (arith, e, h))
  | inr e ↦
      let is_new : a.passkeys ++ k ∷ [] ≡ new = ground (arith, e, h) in
      rw (sym is_new) (append-IsDistinct k a.passkeys e d)
]
run-IsDistinct (remove id) a new h d =
    (let (shorter, same) = without_passkey-length id a.passkeys in
      elim (Bool-cases (has_passkey id a.passkeys)) [
        | inl e ↦
            let is_new : without_passkey id a.passkeys ≡ new = ground (arith, e, same, h) in
            rw (sym is_new) (without_passkey-IsDistinct id a.passkeys d)
        | inr e ↦ absurd (ground (arith, e, same, h))
      ])
run-IsDistinct (rename id name) a new h d =
    updated-IsDistinct (λ (k : Passkey). record k { name = some name }) id a.passkeys new
      (λ k. refl) h d
run-IsDistinct (count id counter) a new h d =
    updated-IsDistinct (λ (k : Passkey). record k { counter = counter }) id a.passkeys new
      (λ k. refl) h d
