-- ===== src/Tally.antt =====
-- Counted records with an index, for administrators: the records of
-- utils/session/access-requests.js and utils/session/incident-log.js. Times are milliseconds.
pub mod Counts
pub mod Listing
mod Tests
use passmower.Prelude.{
  ℕ, suc, ◌+◌, ◌*◌, String, Option, none, some, Bool, true, false, not, List, [], ◌∷◌, ◌++◌, ◌==◌,
  ◌&&◌, ◌||◌, filter, filter_map, sort_by, take, leb, get_or, or_else, concat, contains, same_text,
  is_some, if◌then◌else◌,
}
use passmower.Session.{Records}

pub record AccessRequest : Type 0 where
  pub id : String
  pub account_id : String
  pub client_id : String
  pub allowed_groups : List String
  pub count : ℕ
  pub first_requested_at : ℕ
  pub last_requested_at : ℕ

pub record Incident : Type 0 where
  pub id : String
  pub source : String
  pub account_id : Option String
  pub client_id : String
  pub failure : String
  pub allowed_groups : List String
  pub allowed_users : List String
  pub source_ip : Option String
  pub count : ℕ
  pub first_seen_at : ℕ
  pub last_seen_at : ℕ

-- The records of a model and the members of its set INDEX.
pub record Store {P : Type 0} (r : Records P) : Type 0 where
  pub records : r.State
  pub index : List String

-- appendToSet and removeFromSet
abbrev pub append_to_set : String → List String → List String
append_to_set id ids = if contains id ids then ids else ids ++ id ∷ []

abbrev pub remove_from_set : String → List String → List String
remove_from_set id ids = filter (λ x. not (x == id)) ids

module _ {P : Type 0} (r : Records P) where
  abbrev pub put : String → P → Store r → Store r
  put id p s = record { records = r.upsert id p s.records; index = append_to_set id s.index }

  -- The records that the index has, newest first, at most a hundred of them, and the index without the rest.
  unfoldable pub list_records : (P → ℕ) → Store r → List P × Store r
  list_records at s = (
    take 100 (sort_by (λ a b. leb (at b) (at a)) (filter_map (λ id. r.find id s.records) s.index)),
    record s { index = filter (λ id. is_some (r.find id s.records)) s.index },
  )

abbrev pub count_of_request : Option AccessRequest → ℕ
count_of_request none = 0
count_of_request (some q) = q.count

abbrev pub first_request : Option AccessRequest → ℕ → ℕ
first_request none now = now
first_request (some q) now = q.first_requested_at

abbrev pub request_id : String → String → String
request_id account_id client_id = concat account_id (concat ":" client_id)

module _ (r : Records AccessRequest) where
  -- `now` is read after the record is found.
  unfoldable pub record_access_request :
      String → String → Option (List String) → ℕ → Store r → Store r
  record_access_request account_id client_id allowed_groups now s =
      (let id = request_id account_id client_id in
        let existing = r.find id s.records in
        put r id
          (record {
            id = id;
            account_id = account_id;
            client_id = client_id;
            allowed_groups = get_or allowed_groups [];
            count = count_of_request existing + 1;
            first_requested_at = first_request existing now;
            last_requested_at = now;
          })
          s)

  unfoldable pub list_access_requests : Store r → List AccessRequest × Store r
  unfolding list_records
  list_access_requests s = list_records r (λ (q : AccessRequest). q.last_requested_at) s

  unfoldable pub dismiss_access_request : String → Store r → Store r
  dismiss_access_request id s = record {
    records = r.destroy id s.records;
    index = remove_from_set id s.index;
  }

abbrev count_of_incident : Option Incident → ℕ
count_of_incident none = 0
count_of_incident (some i) = i.count

abbrev first_incident : Option Incident → ℕ → ℕ
first_incident none now = now
first_incident (some i) now = i.first_seen_at

pub incidents_enabled : Option String → Bool
incidents_enabled setting = not (same_text setting (some "false"))

-- incidentTtlSeconds, of what Number.parseInt gives (NaN is none).
pub incident_ttl_seconds : Option ℕ → ℕ
incident_ttl_seconds none = 7 * 24 * 3600
incident_ttl_seconds (some n) = if leb 1 n then n else 7 * 24 * 3600

abbrev pub incident_id : String → Option String → String → String → String
incident_id source account_id client_id failure = concat source (
    concat ":"
      (concat (get_or account_id "anonymous") (concat ":" (concat client_id (concat ":" failure)))))

module _ (r : Records Incident) where
  unfoldable pub record_incident :
      Option String
      → String
      → Option String
      → String
      → String
      → List String
      → List String
      → Option String
      → ℕ
      → Store r
      → Store r
  unfolding incidents_enabled
  record_incident setting source account_id client_id failure groups users ip now s =
      (let id = incident_id source account_id client_id failure in
        let existing = r.find id s.records in
        if not (incidents_enabled setting)
        then s
        else put r id
            (record {
              id = id;
              source = source;
              account_id = account_id;
              client_id = client_id;
              failure = failure;
              allowed_groups = groups;
              allowed_users = users;
              source_ip = ip;
              count = count_of_incident existing + 1;
              first_seen_at = first_incident existing now;
              last_seen_at = now;
            })
            s)

  unfoldable pub list_incidents : Store r → List Incident × Store r
  unfolding list_records
  list_incidents s = list_records r (λ (i : Incident). i.last_seen_at) s
