-- ===== src/Session/Table.antt =====
-- The records of one model as a table, which shows that the interface of Session can be filled.
use passmower.Prelude.{
  String, none, some, false, ◌==◌, ◌≡◌, lookup, insert, remove, lookup-insert, lookup-remove, arith,
  eq_refl, Assoc,
}
use passmower.Session.{Records}

module _ (P : Type 0) where
  pub find_upserted : (k : String) (p : P) (s : Assoc P) → lookup k (insert k p s) ≡ some p
  find_upserted k p s = ground (arith, lookup-insert k k p s, eq_refl k)

  pub find_upserted_other :
      (j k : String) (p : P) (s : Assoc P) → (j == k) ≡ false → lookup k (insert j p s) ≡ lookup k s
  find_upserted_other j k p s h = ground (arith, lookup-insert j k p s, h)

  pub find_destroyed : (k : String) (s : Assoc P) → lookup k (remove k s) ≡ none
  find_destroyed k s = ground (arith, lookup-remove k k s, eq_refl k)

  pub find_destroyed_other :
      (j k : String) (s : Assoc P) → (j == k) ≡ false → lookup k (remove j s) ≡ lookup k s
  find_destroyed_other j k s h = ground (arith, lookup-remove j k s, h)

abbrev pub table : (P : Type 0) → Records P
table P = record {
  State = Assoc P;
  find = λ k s. lookup k s;
  upsert = λ k p s. insert k p s;
  destroy = λ k s. remove k s;
  find-upsert = find_upserted P;
  find-upsert_other = find_upserted_other P;
  find-destroy = find_destroyed P;
  find-destroy_other = find_destroyed_other P;
}
