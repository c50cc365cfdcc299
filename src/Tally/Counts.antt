-- ===== src/Tally/Counts.antt =====
-- How often and when access was asked for.
use passmower.Prelude.{
  ℕ, suc, ◌+◌, String, Option, none, some, List, [], ◌∷◌, ◌==◌, ◌≡◌, refl, sym, ap, ◌∙◌, inl, inr,
  get_or, if◌then◌else◌, arith, eq_refl, Bool-cases, ==→≡,
}
use passmower.Session.{Records}
use passmower.Tally.{
  AccessRequest, Store, count_of_request, first_request, request_id, record_access_request,
}

pub record Ask : Type 0 where
  pub account_id : String
  pub client_id : String
  pub allowed_groups : Option (List String)
  pub now : ℕ

abbrev pub ask_id : Ask → String
ask_id a = request_id a.account_id a.client_id

-- The asks that share an id, counted, and the first time of them.
abbrev pub occurrences : String → List Ask → ℕ
occurrences id [] = 0
occurrences id (a ∷ asks) = let n = occurrences id asks in if ask_id a == id then suc n else n

abbrev pub first_of : String → List Ask → Option ℕ
first_of id [] = none
first_of id (a ∷ asks) = if ask_id a == id then some a.now else first_of id asks

abbrev pub first_at : Option AccessRequest → Option ℕ → Option ℕ
first_at none at = at
first_at (some q) at = some q.first_requested_at

module _ (r : Records AccessRequest) where
  pub record_all : List Ask → Store r → Store r
  record_all [] s = s
  record_all (a ∷ asks) s =
      record_all asks (record_access_request r a.account_id a.client_id a.allowed_groups a.now s)

  abbrev made : Ask → Store r → AccessRequest
  made a s = record {
    id = ask_id a;
    account_id = a.account_id;
    client_id = a.client_id;
    allowed_groups = get_or a.allowed_groups [];
    count = count_of_request (r.find (ask_id a) s.records) + 1;
    first_requested_at = first_request (r.find (ask_id a) s.records) a.now;
    last_requested_at = a.now;
  }

  abbrev once : Ask → Store r → Store r
  once a s = record_access_request r a.account_id a.client_id a.allowed_groups a.now s

  find-once :
      (a : Ask) (s : Store r) (id : String)
      → r.find id (once a s).records
        ≡ (if ask_id a == id then some (made a s) else r.find id s.records)
  unfolding record_access_request
  find-once a s id = elim (Bool-cases (ask_id a == id)) [
    | inl e ↦
        rw (sym (==→≡ (ask_id a) id e))
          (ground (arith, r.find-upsert (ask_id a) (made a s) s.records, eq_refl (ask_id a)))
    | inr e ↦ ground (arith, e, r.find-upsert_other (ask_id a) id (made a s) s.records e)
  ]

  first_at-request :
      (o : Option AccessRequest) (q : AccessRequest) (now : ℕ) (at : Option ℕ)
      → q.first_requested_at ≡ first_request o now
      → first_at (some q) at ≡ first_at o (some now)
  first_at-request none q now at h = ground (arith, h)
  first_at-request (some p) q now at h = ground (arith, h)

  -- However often access is asked for, the record of an account and a client has the number of times asks its
  -- count, added to what was there, and keeps the time of the first.
  pub record_all-occurrences :
      (asks : List Ask) (s : Store r) (id : String)
      → let before = r.find id s.records in
        let after = r.find id (record_all asks s).records in
        (count_of_request after ≡ count_of_request before + occurrences id asks)
        × (first_at after none ≡ first_at before (first_of id asks))
  unfolding record_all
  record_all-occurrences [] s id = (ground arith, refl)
  record_all-occurrences (a ∷ asks) s id =
      (let (counts, times) = record_all-occurrences asks (once a s) id in
        let found = find-once a s id in
        elim (Bool-cases (ask_id a == id)) [
          | inl e ↦
              let same = ==→≡ (ask_id a) id e in
              let here : r.find id (once a s).records ≡ some (made a s) =
                ground (arith, e, found) in
              let count = ap (λ x. count_of_request (r.find x s.records)) same in
              let first = ap (λ x. r.find x s.records) same in
              (
                ground (arith, e, counts, here, count),
                times
                    ∙ (ap (λ o. first_at o (first_of id asks)) here
                        ∙ (first_at-request (r.find (ask_id a) s.records) (made a s) a.now
                              (first_of id asks) refl
                            ∙ (ap (λ o. first_at o (some a.now)) first ∙ ground (arith, e)))),
              )
          | inr e ↦
              let here : r.find id (once a s).records ≡ r.find id s.records =
                ground (arith, e, found) in
              (
                ground (arith, e, counts, here),
                times ∙ (ap (λ o. first_at o (first_of id asks)) here ∙ ground (arith, e)),
              )
        ])
