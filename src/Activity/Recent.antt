-- ===== src/Activity/Recent.antt =====
-- The list of recent applications that a flush writes into an account's status.
use passmower.Prelude.{
  ℕ, zero, suc, ◌≤◌, String, Bool, true, List, [], ◌∷◌, ◌&&◌, ◌≡◌, refl, arith, Assoc, Bool-cases,
  length, take, sort_by, insert_by, all, length-take_le, inl, inr,
}
use passmower.Activity.{Activity, by_client, merge_recent, newest_first, recent_applications}

-- Every entry is at least as new as those after it.
abbrev pub is_newest_first : List (String × Activity) → Bool
is_newest_first [] = true
is_newest_first (x ∷ xs) = all (newest_first x) xs && is_newest_first xs

all-insert_by :
    (w x : String × Activity) (ys : List (String × Activity))
    → all (newest_first w) (insert_by newest_first x ys)
      ≡ (newest_first w x && all (newest_first w) ys)
all-insert_by w x [] = ground arith
all-insert_by w x (y ∷ ys) = ground (arith, all-insert_by w x ys)

all-newest_first :
    (x y : String × Activity) (ys : List (String × Activity))
    → newest_first x y ≡ true
    → all (newest_first y) ys ≡ true
    → all (newest_first x) ys ≡ true
all-newest_first x y [] h g = refl
all-newest_first x y (z ∷ zs) h g =
    ground (arith, h, g, all-newest_first x y zs h (ground (arith, g)))

insert_by-is_newest_first :
    (x : String × Activity) (ys : List (String × Activity))
    → is_newest_first ys ≡ true
    → is_newest_first (insert_by newest_first x ys) ≡ true
insert_by-is_newest_first x [] h = refl
insert_by-is_newest_first x (y ∷ ys) h = elim (Bool-cases (newest_first x y)) [
  | inl e ↦ ground (arith, e, h, all-newest_first x y ys e)
  | inr e ↦ ground (arith, e, h, all-insert_by y x ys, insert_by-is_newest_first x ys)
]

sort_by-is_newest_first :
    (xs : List (String × Activity)) → is_newest_first (sort_by newest_first xs) ≡ true
sort_by-is_newest_first [] = refl
sort_by-is_newest_first (x ∷ xs) =
    insert_by-is_newest_first x (sort_by newest_first xs) (sort_by-is_newest_first xs)

all-take :
    (p : (String × Activity) → Bool) (n : ℕ) (xs : List (String × Activity))
    → all p xs ≡ true
    → all p (take n xs) ≡ true
all-take p zero xs h = refl
all-take p (suc n) [] h = refl
all-take p (suc n) (x ∷ xs) h = ground (arith, h, all-take p n xs)

take-is_newest_first :
    (n : ℕ) (xs : List (String × Activity))
    → is_newest_first xs ≡ true
    → is_newest_first (take n xs) ≡ true
take-is_newest_first zero xs h = refl
take-is_newest_first (suc n) [] h = refl
take-is_newest_first (suc n) (x ∷ xs) h =
    ground (arith, h, take-is_newest_first n xs, all-take (newest_first x) n xs)

-- The list that a flush writes into an account's status has at most `limit` entries, and every
-- entry is at least as new as those after it.
pub recent_applications-is_newest_first :
    (limit : ℕ) (stored : List (String × Activity)) (apps : Assoc Activity)
    → (length (recent_applications limit stored apps) ≤ limit)
      × (is_newest_first (recent_applications limit stored apps) ≡ true)
unfolding recent_applications
recent_applications-is_newest_first limit stored apps =
    let sorted = sort_by newest_first (merge_recent (by_client [] stored) apps) in
    (
      length-take_le limit sorted,
      take-is_newest_first limit sorted
          (sort_by-is_newest_first (merge_recent (by_client [] stored) apps)),
    )
