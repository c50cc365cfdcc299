-- ===== src/Claims/FirstMatch.antt =====
-- What the rules of one mapping give, where it has no problems.
use passmower.Prelude.{
  ℕ, suc, String, Option, none, some, Bool, false, not, List, [], ◌∷◌, ◌++◌, ◌&&◌, ◌≡◌, refl, arith,
  contains, if◌then◌else◌, is_some, find, any, is_empty,
}
use passmower.Claims.{
  Value, text, other, null_value, Groups, absent, listed, malformed, null_groups, Rule, Rules,
  Mapping, Problem, rules_problems, value_problems, groups_problems, default_problems,
  mapping_problems, find_rule, mapped_value, value_for,
}

-- What a mapping that has no problems gives: the value of the first rule that has one of the
-- groups, or else the default.
abbrev pub listed_rules : Rules → List Rule
listed_rules Rules.absent = []
listed_rules (Rules.listed rs) = rs
listed_rules Rules.malformed = []

abbrev pub applies : List String → Groups → Bool
applies groups absent = false
applies groups null_groups = false
applies groups (listed gs) = any (λ g. contains g groups) gs
applies groups malformed = false

abbrev pub text_of : Option Value → Option String
text_of (some (text t)) = some t
text_of (some other) = none
text_of (some null_value) = none
text_of none = none

abbrev pub value_by_rules : List String → Mapping → Option String
value_by_rules groups m =
    elim (find (λ (r : Rule). applies groups r.groups) (listed_rules m.rules)) [
      | some r ↦ text_of r.value
      | none ↦ text_of m.default
    ]

pub append_nil : (xs ys : List Problem) → xs ++ ys ≡ [] → (xs ≡ []) × (ys ≡ [])
append_nil [] ys h = (refl, h)
append_nil (x ∷ xs) ys h = cc

rules_problems_parts :
    (claim : String) (i : ℕ) (r : Rule) (rs : List Rule)
    → rules_problems claim i (r ∷ rs) ≡ []
    → (value_problems claim i r.value ≡ [])
      × (groups_problems claim i r.groups ≡ [])
      × (rules_problems claim (suc i) rs ≡ [])
rules_problems_parts claim i r rs h =
    let a =
      append_nil (value_problems claim i r.value ++ groups_problems claim i r.groups)
        (rules_problems claim (suc i) rs) h in
    let b = append_nil (value_problems claim i r.value) (groups_problems claim i r.groups) a.0 in
    (b.0, b.1, a.1)

find_rule-rules_problems :
    (groups : List String) (claim : String) (i : ℕ) (rs : List Rule)
    → rules_problems claim i rs ≡ []
    → find_rule groups rs ≡ some (find (λ (r : Rule). applies groups r.groups) rs)
unfolding find_rule
find_rule-rules_problems groups claim i [] h = refl
find_rule-rules_problems groups claim i (r ∷ rs) h =
    let p = rules_problems_parts claim i r rs h in
    ground (arith, p.1, find_rule-rules_problems groups claim (suc i) rs p.2)

text_of-value_for :
    (claim : String) (i : ℕ) (r : Rule) (d : Option Value)
    → value_problems claim i r.value ≡ []
    → text_of (value_for (some r) d) ≡ text_of r.value
text_of-value_for claim i r d h = ground arith

text_of-find :
    (p : Rule → Bool) (claim : String) (i : ℕ) (rs : List Rule) (d : Option Value)
    → rules_problems claim i rs ≡ []
    → text_of (value_for (find p rs) d)
      ≡ elim (find p rs) [ some r ↦ text_of r.value | none ↦ text_of d ]
text_of-find p claim i [] d h = refl
text_of-find p claim i (r ∷ rs) d h =
    let q = rules_problems_parts claim i r rs h in
    ground (arith, text_of-value_for claim i r d q.0, text_of-find p claim (suc i) rs d q.2)

abbrev pub of_rules : Rules → Option Value → Mapping
of_rules rs d = record { rules = rs; default = d }

pub mapped_value-mapping_problems :
    (groups : List String) (claim : String) (rs : Rules) (d : Option Value)
    → mapping_problems claim (of_rules rs d) ≡ []
    → (v : Option Value) × (mapped_value groups (of_rules rs d) ≡ some v)
      × (text_of v ≡ value_by_rules groups (of_rules rs d))
unfolding mapped_value
mapped_value-mapping_problems groups claim Rules.absent d h = (d, refl, refl)
mapped_value-mapping_problems groups claim Rules.malformed d h = cc
mapped_value-mapping_problems groups claim (Rules.listed rs) d h =
    let a =
      append_nil (default_problems claim d ++ rules_problems claim 0 rs)
        (if is_empty rs && not (is_some d) then Problem.neither claim ∷ [] else []) h in
    let b = append_nil (default_problems claim d) (rules_problems claim 0 rs) a.0 in
    let p = λ (r : Rule). applies groups r.groups in
    (
      value_for (find p rs) d,
      ground (arith, find_rule-rules_problems groups claim 0 rs b.1),
      text_of-find p claim 0 rs d b.1,
    )
