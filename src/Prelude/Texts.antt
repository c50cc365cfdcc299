-- ===== src/Prelude/Texts.antt =====
-- Text operations of JavaScript that the program uses: `+`, and `startsWith` followed by `slice`.
use Prim.Native.String
use Prim.Native.String.{String}
use Prim.Native.Char.{Char}
use Prim.Native.String.append
use mathlib.Core.Path.{◌≡◌, refl, sym, ap, ◌∙◌}
use mathlib.Core.Option.{Option, none, some}
use mathlib.Core.Bool.{Bool, true, ◌||◌}
use native.Mathlib.Omega.{arith}
use text.Mathlib.Text.{◌==◌}
use text.Mathlib.TextEquality.{eq_iff}
use text.Mathlib.TextPositions.{eq_refl}
use passmower.Prelude.Tests.{if◌then◌else◌, Bool-cases}
use mathlib.Core.Logic.{inl, inr}

-- s + t
abbrev pub concat : String → String → String
concat s t = String.◌++◌ s t

-- What a template literal prints for a value that may be undefined.
abbrev pub js_text : Option String → String
js_text none = "undefined"
js_text (some t) = t

-- `text.startsWith(prefix) ? text.slice(prefix.length) : undefined`
abbrev pub strip_prefix : String → String → Option String
strip_prefix String.[] t = some t
strip_prefix (String.◌∷◌ c p) String.[] = none
strip_prefix (String.◌∷◌ c p) (String.◌∷◌ d t) =
    if (String.◌∷◌ c String.[]) == (String.◌∷◌ d String.[]) then strip_prefix p t else none

-- What is left after the prefix, put behind the prefix again, is the text.
pub concat-strip_prefix : (p t : String) {u : String} → strip_prefix p t ≡ some u → concat p u ≡ t
concat-strip_prefix String.[] t {u} h = append.nil u ∙ cc
concat-strip_prefix (String.◌∷◌ c p) String.[] h = cc
concat-strip_prefix (String.◌∷◌ c p) (String.◌∷◌ d t) {u} h =
    elim (Bool-cases ((String.◌∷◌ c String.[]) == (String.◌∷◌ d String.[]))) [
      | inl e ↦
          append.cons c p u
          ∙ cc (
            (eq_iff (String.◌∷◌ c String.[]) (String.◌∷◌ d String.[])).0 e,
            concat-strip_prefix p t {u = u} (rw e at h),
          )
      | inr e ↦ absurd (ground (arith, e, h))
    ]

-- `text.split(separator)`, for a separator of one character: the first part, and what follows it.
abbrev pub until : String → String → String
until separator String.[] = String.[]
until separator (String.◌∷◌ c s) =
    let rest = until separator s in
    if (String.◌∷◌ c String.[]) == separator then String.[] else String.◌∷◌ c rest

abbrev pub after : String → String → Option String
after separator String.[] = none
after separator (String.◌∷◌ c s) =
    let rest = after separator s in if (String.◌∷◌ c String.[]) == separator then some s else rest

-- `text.endsWith(end)`
abbrev pub ends_with : String → String → Bool
ends_with end String.[] = end == ""
ends_with end (String.◌∷◌ c s) = let rest = ends_with end s in String.◌∷◌ c s == end || rest

-- What stands before a separator, and what stands after it, where the first part is free of it.
pub until-concat :
    (c : Char) (p q : String)
    → after (String.◌∷◌ c String.[]) p ≡ none
    → (until (String.◌∷◌ c String.[]) (concat p (concat (String.◌∷◌ c String.[]) q)) ≡ p)
      × (after (String.◌∷◌ c String.[]) (concat p (concat (String.◌∷◌ c String.[]) q)) ≡ some q)
until-concat c String.[] q h =
    let d = String.◌∷◌ c String.[] in
    let starts : concat String.[] (concat d q) ≡ String.◌∷◌ c q =
      append.nil (concat d q) ∙ (append.cons c String.[] q ∙ ap (String.◌∷◌ c) (append.nil q)) in
    rw (starts) (ground (arith, eq_refl d), ground (arith, eq_refl d))
until-concat c (String.◌∷◌ a p) q h =
    let d = String.◌∷◌ c String.[] in
    let text = concat p (concat d q) in
    elim (Bool-cases ((String.◌∷◌ a String.[]) == d)) [
      | inl e ↦ absurd (ground (arith, e, h))
      | inr e ↦
          let (first, second) = until-concat c p q (ground (arith, e, h)) in
          rw (append.cons a p (concat d q)) (ground (arith, e, first), ground (arith, e, second))
    ]

-- A text ends with another exactly if something stands before it.
pub ends_with_sound : (end s : String) → ends_with end s ≡ true → (p : String) × (concat p end ≡ s)
ends_with_sound end String.[] h = (String.[], append.nil end ∙ (eq_iff end "").0 h)
ends_with_sound end (String.◌∷◌ c s) h = elim (Bool-cases (String.◌∷◌ c s == end)) [
  | inl e ↦ (String.[], append.nil end ∙ sym ((eq_iff (String.◌∷◌ c s) end).0 e))
  | inr e ↦
      let (p, is_s) = ends_with_sound end s (ground (arith, e, h)) in
      (String.◌∷◌ c p, append.cons c p end ∙ ap (String.◌∷◌ c) is_s)
]

ends_with_self : (end : String) → ends_with end end ≡ true
ends_with_self String.[] = refl
ends_with_self (String.◌∷◌ c s) = ground (arith, eq_refl (String.◌∷◌ c s))

pub ends_with-concat : (end p : String) → ends_with end (concat p end) ≡ true
ends_with-concat end String.[] = rw (append.nil end) (ends_with_self end)
ends_with-concat end (String.◌∷◌ c p) =
    rw (append.cons c p end) (ground (arith, ends_with-concat end p))

-- A text without the separator is its own first part.
pub until-free : (d p : String) → after d p ≡ none → until d p ≡ p
until-free d String.[] h = refl
until-free d (String.◌∷◌ c p) h = elim (Bool-cases ((String.◌∷◌ c String.[]) == d)) [
  | inl e ↦ absurd (ground (arith, e, h))
  | inr e ↦ ground (arith, e, until-free d p (ground (arith, e, h)))
]
