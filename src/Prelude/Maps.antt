-- ===== src/Prelude/Maps.antt =====
-- A JavaScript `Map` (or an object's own fields) with text keys, in insertion order.
use Prim.Native.String.{String}
use mathlib.Core.Path.{◌≡◌, refl}
use mathlib.Core.Bool.{Bool, ◌||◌}
use mathlib.Core.Option.{Option, none, some}
use mathlib.Core.List.{List, [], ◌∷◌}
use native.Mathlib.Omega.{arith}
use text.Mathlib.Text.{◌==◌}
use text.Mathlib.TextEquality.{eq_iff}
use passmower.Prelude.Tests.{if◌then◌else◌, is_some}
use passmower.Prelude.Lists.{contains, IsDistinct}

abbrev pub Assoc {ℓ} : Type ℓ → Type ℓ
Assoc V = List (String × V)

module _ {ℓ} {V : Type ℓ} where
  -- m.get(k)
  abbrev pub lookup : String → Assoc V → Option V
  lookup k [] = none
  lookup k ((j, v) ∷ m) = if j == k then some v else lookup k m

  -- m.set(k, v): a key that is there keeps its place.
  abbrev pub insert : String → V → Assoc V → Assoc V
  insert k v [] = (k, v) ∷ []
  insert k v ((j, w) ∷ m) = if j == k then (j, v) ∷ m else (j, w) ∷ insert k v m

  -- m.delete(k)
  abbrev pub remove : String → Assoc V → Assoc V
  remove k [] = []
  remove k ((j, v) ∷ m) = let rest = remove k m in if j == k then rest else (j, v) ∷ rest

  -- m.has(k)
  abbrev pub has : String → Assoc V → Bool
  has k m = is_some (lookup k m)

  abbrev pub keys : Assoc V → List String
  keys [] = []
  keys ((j, v) ∷ m) = j ∷ keys m

  abbrev pub values : Assoc V → List V
  values [] = []
  values ((j, v) ∷ m) = v ∷ values m

  pub lookup-insert :
      (k j : String) (v : V) (m : Assoc V)
      → lookup j (insert k v m) ≡ (if k == j then some v else lookup j m)
  lookup-insert k j v [] = refl
  lookup-insert k j v ((i, w) ∷ m) =
      ground (arith, eq_iff k j, eq_iff i k, eq_iff i j, lookup-insert k j v m)

  pub lookup-remove :
      (k j : String) (m : Assoc V) → lookup j (remove k m) ≡ (if k == j then none else lookup j m)
  lookup-remove k j [] = ground arith
  lookup-remove k j ((i, v) ∷ m) =
      ground (arith, lookup-remove k j m, eq_iff i k, eq_iff i j, eq_iff k j)

  pub contains-keys : (k : String) (m : Assoc V) → contains k (keys m) ≡ has k m
  contains-keys k [] = refl
  contains-keys k ((j, v) ∷ m) = ground (arith, contains-keys k m)

  pub contains-keys-insert :
      (k j : String) (v : V) (m : Assoc V)
      → contains j (keys (insert k v m)) ≡ (k == j || contains j (keys m))
  contains-keys-insert k j v [] = refl
  contains-keys-insert k j v ((i, w) ∷ m) =
      ground (arith, eq_iff i k, eq_iff i j, eq_iff k j, contains-keys-insert k j v m)

  pub insert-IsDistinct :
      (k : String) (v : V) (m : Assoc V) → IsDistinct (keys m) → IsDistinct (keys (insert k v m))
  insert-IsDistinct k v [] h = ground arith
  insert-IsDistinct k v ((i, w) ∷ m) h =
      ground
        (arith, eq_iff i k, eq_iff k i, contains-keys-insert k i v m, insert-IsDistinct k v m h.1)

  pub has-insert : (k j : String) (v : V) (m : Assoc V) → has j (insert k v m) ≡ (k == j || has j m)
  has-insert k j v m = ground (arith, lookup-insert k j v m)
