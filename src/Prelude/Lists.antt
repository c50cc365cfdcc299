-- ===== src/Prelude/Lists.antt =====
-- The array methods that the program uses, with Boolean tests.
use Prim.Native.Nat.{ℕ, zero, suc, ◌≤◌}
use Prim.Native.String.{String}
use mathlib.Core.Path.{◌≡◌, refl}
use mathlib.Core.Logic.{inl, inr}
use mathlib.Core.Bool.{Bool, true, false, ◌||◌, ◌&&◌}
use mathlib.Core.Option.{Option, none, some}
use mathlib.Core.List.{List, [], ◌∷◌, ◌++◌}
use native.Mathlib.Omega.{arith}
use text.Mathlib.Text.{◌==◌}
use text.Mathlib.TextEquality.{eq_iff}
use passmower.Prelude.Tests.{if◌then◌else◌, Bool-cases}

module _ {ℓ} {A : Type ℓ} where
  abbrev pub length : List A → ℕ
  length [] = 0
  length (x ∷ xs) = suc (length xs)

  abbrev pub take : ℕ → List A → List A
  take zero xs = []
  take (suc n) [] = []
  take (suc n) (x ∷ xs) = x ∷ take n xs

  -- `xs[0]` and `xs.slice(1)`.
  abbrev pub head? : List A → Option A
  head? [] = none
  head? (x ∷ xs) = some x

  abbrev pub tail : List A → List A
  tail [] = []
  tail (x ∷ xs) = xs

  abbrev pub is_empty : List A → Bool
  is_empty [] = true
  is_empty (x ∷ xs) = false

  -- `some`, `every`, `find` and `filter`.
  abbrev pub any : (A → Bool) → List A → Bool
  any p [] = false
  any p (x ∷ xs) = p x || any p xs

  abbrev pub all : (A → Bool) → List A → Bool
  all p [] = true
  all p (x ∷ xs) = p x && all p xs

  abbrev pub find : (A → Bool) → List A → Option A
  find p [] = none
  find p (x ∷ xs) = if p x then some x else find p xs

  abbrev pub filter : (A → Bool) → List A → List A
  filter p [] = []
  filter p (x ∷ xs) = let rest = filter p xs in if p x then x ∷ rest else rest

  -- `sort` by a test for "not after": stable, like the engine's.
  abbrev pub insert_by : (A → A → Bool) → A → List A → List A
  insert_by le x [] = x ∷ []
  insert_by le x (y ∷ ys) = let rest = insert_by le x ys in if le x y then x ∷ y ∷ ys else y ∷ rest

  abbrev pub sort_by : (A → A → Bool) → List A → List A
  sort_by le [] = []
  sort_by le (x ∷ xs) = insert_by le x (sort_by le xs)

  pub any-append : (p : A → Bool) (xs ys : List A) → any p (xs ++ ys) ≡ (any p xs || any p ys)
  any-append p [] ys = refl
  any-append p (x ∷ xs) ys = ground (arith, any-append p xs ys)

  pub length-take_le : (n : ℕ) (xs : List A) → length (take n xs) ≤ n
  length-take_le zero xs = omega arith
  length-take_le (suc n) [] = omega arith
  length-take_le (suc n) (x ∷ xs) = omega (arith, length-take_le n xs)

  any-insert_by :
      (p : A → Bool) (le : A → A → Bool) (x : A) (ys : List A)
      → any p (insert_by le x ys) ≡ (p x || any p ys)
  any-insert_by p le x [] = refl
  any-insert_by p le x (y ∷ ys) = ground (arith, any-insert_by p le x ys)

  -- Sorting keeps the elements.
  pub any-sort_by :
      (p : A → Bool) (le : A → A → Bool) (xs : List A) → any p (sort_by le xs) ≡ any p xs
  any-sort_by p le [] = refl
  any-sort_by p le (x ∷ xs) =
      ground (arith, any-sort_by p le xs, any-insert_by p le x (sort_by le xs))

  -- What `find` returns passes the test, and it returns something exactly if `some` holds.
  pub find_passes : (p : A → Bool) (xs : List A) (x : A) → find p xs ≡ some x → p x ≡ true
  find_passes p [] x h = cc
  find_passes p (y ∷ ys) x h = elim (Bool-cases (p y)) [
    | inl e ↦ ground arith
    | inr e ↦ find_passes p ys x (ground arith)
  ]

-- `includes`.
abbrev pub contains : String → List String → Bool
contains t [] = false
contains t (x ∷ xs) = x == t || contains t xs

-- `[...new Set(xs)]`: the first occurrence of each text stays.
abbrev pub without : String → List String → List String
without t [] = []
without t (x ∷ xs) = let rest = without t xs in if x == t then rest else x ∷ rest

abbrev pub dedup : List String → List String
dedup [] = []
dedup (x ∷ xs) = x ∷ without x (dedup xs)

pub contains-append :
    (t : String) (xs ys : List String) → contains t (xs ++ ys) ≡ (contains t xs || contains t ys)
contains-append t [] ys = refl
contains-append t (x ∷ xs) ys = ground (arith, contains-append t xs ys)

pub contains-without :
    (t s : String) (xs : List String)
    → contains t (without s xs) ≡ (if s == t then false else contains t xs)
contains-without t s [] = ground arith
contains-without t s (x ∷ xs) =
    ground (arith, contains-without t s xs, eq_iff x s, eq_iff s t, eq_iff x t)

-- Removing duplicates keeps what is included.
pub contains-dedup : (t : String) (xs : List String) → contains t (dedup xs) ≡ contains t xs
contains-dedup t [] = refl
contains-dedup t (x ∷ xs) = ground (arith, contains-without t x (dedup xs), contains-dedup t xs)

-- No text stands twice.
abbrev pub IsDistinct : List String → Type 0
IsDistinct [] = Unit
IsDistinct (x ∷ xs) = (contains x xs ≡ false) × IsDistinct xs

without-IsDistinct : (s : String) (xs : List String) → IsDistinct xs → IsDistinct (without s xs)
without-IsDistinct s [] h = h
without-IsDistinct s (x ∷ xs) h =
    ground (arith, contains-without x s xs, without-IsDistinct s xs h.1)

pub dedup-IsDistinct : (xs : List String) → IsDistinct (dedup xs)
dedup-IsDistinct [] = tt
dedup-IsDistinct (x ∷ xs) = (
  ground (arith, contains-without x x (dedup xs), eq_iff x x),
  without-IsDistinct x (dedup xs) (dedup-IsDistinct xs),
)

-- `xs.map(f).filter(Boolean)` where `f` returns a value or nothing.
abbrev pub filter_map {ℓ κ} : {A : Type ℓ} {B : Type κ} → (A → Option B) → List A → List B
filter_map f [] = []
filter_map f (x ∷ xs) = let rest = filter_map f xs in elim (f x) [ none ↦ rest | some y ↦ y ∷ rest ]

pub filter-none {ℓ} :
    {A : Type ℓ} (p : A → Bool) (xs : List A) → any p xs ≡ false → filter p xs ≡ []
filter-none p [] h = refl
filter-none p (x ∷ xs) h = ground (arith, filter-none p xs)
