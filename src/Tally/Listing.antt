-- ===== src/Tally/Listing.antt =====
-- What an administrator is shown, and what is left of a request that was dismissed.
use passmower.Prelude.{
  ◌≤◌, String, none, Bool, not, List, [], ◌∷◌, ◌==◌, ◌&&◌, ◌≡◌, refl, ap, ◌∙◌, inl, inr, length,
  length-take_le, filter, contains, is_some, arith, eq_iff, Bool-cases,
}
use passmower.Session.{Records}
use passmower.Tally.{
  AccessRequest, Store, remove_from_set, list_records, list_access_requests, dismiss_access_request,
}

contains-filter_test :
    (p : String → Bool) (id : String) (ids : List String)
    → contains id (filter p ids) ≡ (contains id ids && p id)
contains-filter_test p id [] = refl
contains-filter_test p id (x ∷ xs) = elim (Bool-cases (x == id)) [
  | inl e ↦
      ground (arith, e, contains-filter_test p id xs, ap p ((eq_iff x id).0 e), Bool-cases (p x))
  | inr e ↦ ground (arith, e, contains-filter_test p id xs, Bool-cases (p x))
]

module _ (r : Records AccessRequest) where
  -- After a request is dismissed and the requests are listed, at most a hundred are shown, the dismissed one
  -- has no record and no place in the index, and of the others the index keeps exactly those with a record.
  pub dismissed-list :
      (s : Store r) (gone id : String)
      → let after = list_access_requests r (dismiss_access_request r gone s) in
        (length after.0 ≤ 100)
        × (r.find gone after.1.records ≡ none)
        × (contains id after.1.index
            ≡ (contains id s.index && (not (gone == id) && is_some (r.find id s.records))))
  unfolding list_access_requests dismiss_access_request list_records
  dismissed-list s gone id =
      (let here = r.destroy gone s.records in
        let found = λ (x : String). is_some (r.find x here) in
        (
          length-take_le 100 _,
          r.find-destroy gone s.records,
          contains-filter_test found id (remove_from_set gone s.index)
              ∙ (ap (λ b. b && found id) (contains-filter_test (λ x. not (x == gone)) id s.index)
                  ∙ elim (Bool-cases (gone == id)) [
                    | inl e ↦
                        ground (
                          arith,
                          e,
                          eq_iff gone id,
                          eq_iff id gone,
                          Bool-cases (contains id s.index),
                        )
                    | inr e ↦ ground (
                      arith,
                      e,
                      eq_iff gone id,
                      eq_iff id gone,
                      r.find-destroy_other gone id s.records e,
                    )
                  ]),
        ))
