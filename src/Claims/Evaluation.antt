-- ===== src/Claims/Evaluation.antt =====
-- The claims that mappings give an account.
use passmower.Prelude.{
  String, Option, none, some, Bool, true, false, not, List, [], ◌∷◌, ◌==◌, ◌≡◌, refl, ◌∙◌, arith,
  eq_iff, eq_refl, contains, if◌then◌else◌, or_else, Assoc, lookup, keys, IsDistinct, lookup-insert,
  contains-keys, Option-cases, Bool-cases, inl, inr,
}
use passmower.Claims.{
  Value, text, other, null_value, Mapping, Mappings, Problem, is_reserved, is_claim_name,
  claim_problems, validate_claim_mappings, mapping_problems, mapped_value, evaluate_from,
  evaluate_claim_mappings, set_if_text,
}
use passmower.Claims.FirstMatch.{append_nil, text_of, value_by_rules, mapped_value-mapping_problems}

set_if_text-lookup :
    (c d : String) (v : Option Value) (acc : Assoc String)
    → (d == c) ≡ false
    → lookup c (set_if_text d v acc) ≡ lookup c acc
set_if_text-lookup c d none acc h = refl
set_if_text-lookup c d (some other) acc h = refl
set_if_text-lookup c d (some null_value) acc h = refl
set_if_text-lookup c d (some (text t)) acc h = ground (arith, h, lookup-insert d c t acc)

reserved_apart : (c d : String) → is_reserved c ≡ true → is_reserved d ≡ false → (d == c) ≡ false
reserved_apart c d h g = ground (arith, h, g, eq_iff d c)

reserved_kept_out :
    (groups : List String) (c : String) (acc : Assoc String) (ms : Mappings) (claims : Assoc String)
    → is_reserved c ≡ true
    → lookup c acc ≡ none
    → evaluate_from acc ms groups ≡ some claims
    → lookup c claims ≡ none
unfolding evaluate_from
reserved_kept_out groups c acc [] claims r a e = ground (arith, a, e)
reserved_kept_out groups c acc ((d, m) ∷ ms) claims r a e = elim (Bool-cases (is_reserved d)) [
  | inl p ↦ reserved_kept_out groups c acc ms claims r a (ground (arith, p, e))
  | inr p ↦ elim (Option-cases (mapped_value groups m)) [
    | inl q ↦ ground (arith, p, q, e)
    | inr (v, q) ↦
        reserved_kept_out groups c (set_if_text d v acc) ms claims r
          (ground (arith, a, set_if_text-lookup c d v acc, reserved_apart c d r p))
          (ground (arith, p, q, e))
  ]
]

-- A claim that Passmower computes itself is never among the mapped ones, whatever the mappings
-- are.
pub evaluate_claim_mappings-is_reserved :
    (ms : Mappings) (groups : List String) (claims : Assoc String) (c : String)
    → evaluate_claim_mappings ms groups ≡ some claims
    → is_reserved c ≡ true
    → lookup c claims ≡ none
unfolding evaluate_claim_mappings
evaluate_claim_mappings-is_reserved ms groups claims c h r =
    reserved_kept_out groups c [] ms claims r refl h

-- The value of one claim by the mappings, beside what is there already.
abbrev chosen : (Mapping → Option String) → Option Mapping → Option String → Option String
chosen f none x = x
chosen f (some m) x = or_else (f m) x

abbrev expected : String → List String → Mappings → Assoc String → Option String
expected c groups ms acc = chosen (value_by_rules groups) (lookup c ms) (lookup c acc)

lookup-set_if_text :
    (c : String) (v : Option Value) (acc : Assoc String)
    → lookup c (set_if_text c v acc) ≡ or_else (text_of v) (lookup c acc)
lookup-set_if_text c none acc = refl
lookup-set_if_text c (some other) acc = refl
lookup-set_if_text c (some null_value) acc = refl
lookup-set_if_text c (some (text t)) acc = ground (arith, eq_refl c, lookup-insert c c t acc)

by_branch :
    (r n : Bool) (x y ms : List Problem) (a b : Problem)
    → (if r then a ∷ x else if not n then b ∷ y else ms) ≡ []
    → (r ≡ false) × (ms ≡ [])
by_branch true n x y ms a b h = cc
by_branch false true x y ms a b h = (refl, h)
by_branch false false x y ms a b h = cc

claim_problems-nil :
    (d : String) (m : Mapping)
    → claim_problems d m ≡ []
    → (is_reserved d ≡ false) × (mapping_problems d m ≡ [])
unfolding claim_problems
claim_problems-nil d m h =
    by_branch (is_reserved d) (is_claim_name d) [] [] (mapping_problems d m)
      (Problem.reserved_by_passmower d) (Problem.invalid_name d) h

evaluate_from_step :
    (groups : List String) (d : String) (m : Mapping) (ms : Mappings) (acc : Assoc String)
    (v : Option Value)
    → mapped_value groups m ≡ some v
    → is_reserved d ≡ false
    → evaluate_from acc ((d, m) ∷ ms) groups ≡ evaluate_from (set_if_text d v acc) ms groups
unfolding evaluate_from
evaluate_from_step groups d m ms acc v h r = ground (arith, h, r)

chosen_step :
    (f : Mapping → Option String) (c d : String) (m : Mapping) (ms : Mappings) (acc : Assoc String)
    (v : Option Value)
    → text_of v ≡ f m
    → contains d (keys ms) ≡ false
    → chosen f (lookup c ms) (lookup c (set_if_text d v acc))
      ≡ chosen f (lookup c ((d, m) ∷ ms)) (lookup c acc)
chosen_step f c d m ms acc v h k = elim (Bool-cases (d == c)) [
  | inl e ↦ ground (arith, e, k, h, eq_iff d c, contains-keys d ms, lookup-set_if_text d v acc)
  | inr e ↦ ground (arith, e, set_if_text-lookup c d v acc e)
]

expected_step :
    (c d : String) (groups : List String) (m : Mapping) (ms : Mappings) (acc : Assoc String)
    (v : Option Value)
    → text_of v ≡ value_by_rules groups m
    → contains d (keys ms) ≡ false
    → expected c groups ms (set_if_text d v acc) ≡ expected c groups ((d, m) ∷ ms) acc
expected_step c d groups m ms acc v h k = chosen_step (value_by_rules groups) c d m ms acc v h k

evaluate_from-expected :
    (c : String) (groups : List String) (ms : Mappings) (acc : Assoc String)
    → validate_claim_mappings ms ≡ []
    → IsDistinct (keys ms)
    → (claims : Assoc String) × (evaluate_from acc ms groups ≡ some claims)
      × (lookup c claims ≡ expected c groups ms acc)
unfolding evaluate_from validate_claim_mappings
evaluate_from-expected c groups [] acc h k = (acc, refl, refl)
evaluate_from-expected c groups ((d, m) ∷ ms) acc h k =
    let a = append_nil (claim_problems d m) (validate_claim_mappings ms) h in
    let b = claim_problems-nil d m a.0 in
    let v = mapped_value-mapping_problems groups d m.rules m.default b.1 in
    let rest = evaluate_from-expected c groups ms (set_if_text d v.0 acc) a.1 k.1 in
    (
      rest.0,
      evaluate_from_step groups d m ms acc v.0 v.1 b.0 ∙ rest.1,
      rest.2 ∙ expected_step c d groups m ms acc v.0 v.2 k.0,
    )

-- What an account gets for one mapping, if there is one.
abbrev pub mapped_claim : String → List String → Mappings → Option String
mapped_claim c groups ms = elim (lookup c ms) [ none ↦ none | some m ↦ value_by_rules groups m ]

chosen-none :
    (f : Mapping → Option String) (o : Option Mapping)
    → chosen f o none ≡ elim o [ none ↦ none | some m ↦ f m ]
chosen-none f none = refl
chosen-none f (some m) = ground arith

-- Where mappings with distinct names have no problems, evaluating them does not throw, and an
-- account gets each mapped claim with the value of the first rule that names one of its groups, or
-- else the default, and no other claim.
pub evaluate_claim_mappings-mapped_claim :
    (ms : Mappings) (groups : List String) (c : String)
    → validate_claim_mappings ms ≡ []
    → IsDistinct (keys ms)
    → (claims : Assoc String) × (evaluate_claim_mappings ms groups ≡ some claims)
      × (lookup c claims ≡ mapped_claim c groups ms)
unfolding evaluate_claim_mappings
evaluate_claim_mappings-mapped_claim ms groups c h k =
    let r = evaluate_from-expected c groups ms [] h k in
    (r.0, r.1, r.2 ∙ chosen-none (value_by_rules groups) (lookup c ms))
