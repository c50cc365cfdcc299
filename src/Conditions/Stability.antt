-- ===== src/Conditions/Stability.antt =====
-- A report that repeats what a condition says, and the reconciles that a fingerprint asks for.
use passmower.Prelude.{
  ℕ, String, Option, some, Bool, false, not, List, [], ◌∷◌, ◌++◌, ◌≡◌, ◌∙◌, ap, arith, eq_refl,
  filter, find,
}
use passmower.Account.{Condition}
use passmower.Conditions.{
  ready_time, ClientState, is_kind, replace_condition, ready_condition, differs,
  update_ready_condition, status_text,
}

filter-replace_condition :
    (c : Condition) (cs : List Condition)
    → filter (λ d. not (is_kind c.kind d)) (replace_condition c cs)
      ≡ filter (λ d. not (is_kind c.kind d)) cs
filter-replace_condition c [] = ground (arith, eq_refl c.kind)
filter-replace_condition c (d ∷ cs) = ground (arith, filter-replace_condition c cs)

find-replace_condition :
    (c : Condition) (cs : List Condition) → find (is_kind c.kind) (replace_condition c cs) ≡ some c
find-replace_condition c [] = ground (arith, eq_refl c.kind)
find-replace_condition c (d ∷ cs) = ground (arith, find-replace_condition c cs)

replace_twice :
    (c : Condition) (cs : List Condition)
    → replace_condition c (replace_condition c cs) ≡ replace_condition c cs
replace_twice c cs = ap (λ ds. ds ++ c ∷ []) (filter-replace_condition c cs)

ready_condition-again :
    (ready : Bool) (reason message : String) (now later : ℕ) (cs : List Condition)
    → ready_condition ready reason message later
        (replace_condition (ready_condition ready reason message now cs) cs)
      ≡ ready_condition ready reason message now cs
ready_condition-again ready reason message now later cs =
    let c = ready_condition ready reason message now cs in
    let status = status_text ready in
    ap
      (λ (t : Option ℕ). record {
        kind = "Ready";
        status = status;
        reason = reason;
        message = message;
        last_transition_time = t;
      })
      (ap (ready_time status later) (find-replace_condition c cs) ∙ ground (arith, eq_refl status))

differs_same : (c : Condition) → differs c (some c) ≡ false
differs_same c = ground (arith, eq_refl c.status, eq_refl c.reason, eq_refl c.message)

-- A report that repeats the last one, at whatever time, changes no condition and says so.
pub update_ready_condition-again :
    (ready : Bool) (reason message : String) (now later : ℕ) (s : ClientState)
    → update_ready_condition ready reason message later
        (update_ready_condition ready reason message now s).0
      ≡ ((update_ready_condition ready reason message now s).0, false)
unfolding update_ready_condition
update_ready_condition-again ready reason message now later s =
    let c = ready_condition ready reason message now s.conditions in
    let after = replace_condition c s.conditions in
    let again = ready_condition-again ready reason message now later s.conditions in
    let conditions = ap (λ d. replace_condition d after) again ∙ replace_twice c s.conditions in
    let changed =
      ap (λ d. differs d (find (is_kind "Ready") after)) again
      ∙ ap (differs c) (find-replace_condition c s.conditions)
      ∙ differs_same c in
    λ i. (record s { conditions = conditions i }, changed i)
