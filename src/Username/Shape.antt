-- ===== src/Username/Shape.antt =====
-- What `sanitizeUsername` makes of an upstream name.
use Prim.Native.Char.{code}
use passmower.Prelude.{
  ℕ, zero, suc, String, Option, some, Bool, true, false, ◌==◌, ◌&&◌, ◌≡◌, ◌≤◌, refl, arith,
  Bool-cases, inl, inr, truthy, get_or, ==→≡, ◌∙◌,
}
use passmower.Username.{
  is_kept, before_at, keep_alphanumeric, drop_digits, take_chars, sanitize_username,
  starts_with_letter, non_empty,
}

abbrev pub all_kept : String → Bool
all_kept String.[] = true
all_kept (String.◌∷◌ c s) = is_kept (code c) && all_kept s

abbrev pub text_length : String → ℕ
text_length String.[] = 0
text_length (String.◌∷◌ c s) = suc (text_length s)

-- A name as the rules for usernames ask, but for its least length and the blacklist.
pub record IsCandidate (u : String) : Type 0 where
  pub kept : all_kept u ≡ true
  pub letter : starts_with_letter u ≡ true
  pub short : text_length u ≤ 15

keep-all_kept : (s : String) → all_kept (keep_alphanumeric s) ≡ true
unfolding keep_alphanumeric
keep-all_kept String.[] = refl
keep-all_kept (String.◌∷◌ c s) = ground (arith, keep-all_kept s)

drop-all_kept : (s : String) → all_kept s ≡ true → all_kept (drop_digits s) ≡ true
unfolding drop_digits
drop-all_kept String.[] h = refl
drop-all_kept (String.◌∷◌ c s) h = ground (arith, drop-all_kept s)

take-all_kept : (n : ℕ) (s : String) → all_kept s ≡ true → all_kept (take_chars n s) ≡ true
unfolding take_chars
take-all_kept zero s h = refl
take-all_kept (suc n) String.[] h = refl
take-all_kept (suc n) (String.◌∷◌ c s) h = ground (arith, take-all_kept n s)

take-length : (n : ℕ) (s : String) → text_length (take_chars n s) ≤ n
unfolding take_chars
take-length zero s = omega arith
take-length (suc n) String.[] = omega arith
take-length (suc n) (String.◌∷◌ c s) = omega (arith, take-length n s)

cons-eq-nil : (c : _) (s : String) → (String.◌∷◌ c s == "") ≡ false
cons-eq-nil c s = elim (Bool-cases (String.◌∷◌ c s == "")) [
  | inl e ↦ cc (==→≡ (String.◌∷◌ c s) "" e)
  | inr e ↦ e
]

-- What is left of kept characters behind the leading digits starts with a letter.
drop-letter :
    (s : String)
    → all_kept s ≡ true
    → (drop_digits s == "") ≡ false
    → starts_with_letter (drop_digits s) ≡ true
unfolding drop_digits is_kept starts_with_letter
drop-letter String.[] h k = cc
drop-letter (String.◌∷◌ c s) h k = ground (arith, drop-letter s)

take-letter :
    (n : ℕ) (s : String)
    → (take_chars (suc n) s == "") ≡ false
    → ((s == "") ≡ false) × (starts_with_letter (take_chars (suc n) s) ≡ starts_with_letter s)
unfolding take_chars starts_with_letter
take-letter n String.[] h = cc
take-letter n (String.◌∷◌ c s) h = (cons-eq-nil c s, refl)

non_empty-some : (s u : String) → non_empty s ≡ some u → ((s == "") ≡ false) × (s ≡ u)
non_empty-some s u h = ground arith

-- A name that `sanitizeUsername` returns is made of lower-case letters and digits, starts with a
-- letter, and has at most 15 characters.
pub sanitize_username-IsCandidate :
    (to_lower_case : String → String) (raw : Option String) (u : String)
    → sanitize_username to_lower_case raw ≡ some u
    → IsCandidate u
unfolding sanitize_username
sanitize_username-IsCandidate to_lower_case raw u h =
    let s = drop_digits (keep_alphanumeric (before_at (to_lower_case (get_or raw "")))) in
    let kept : all_kept s ≡ true = drop-all_kept _ (keep-all_kept _) in
    let (full, same) : ((take_chars 15 s == "") ≡ false) × (take_chars 15 s ≡ u) =
      non_empty-some (take_chars 15 s) u (ground (arith, h, Bool-cases (truthy raw))) in
    let (rest, first) = take-letter 14 s full in
    record {
      kept = rw (← same) (take-all_kept 15 s kept);
      letter = rw (← same) (first ∙ drop-letter _ (keep-all_kept _) rest);
      short = rw (← same) (take-length 15 s);
    }
