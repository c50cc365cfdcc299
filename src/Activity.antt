-- ===== src/Activity.antt =====
-- Who signed in where, and when: services/activity-tracker.js. Times are milliseconds, and a
-- client's record keeps the name, namespace and kind that its resource has.
pub mod Pending
pub mod Recent
mod Tests
use passmower.Prelude.{
  ℕ, String, Option, none, some, Bool, true, false, List, [], ◌∷◌, ◌++◌, ◌==◌, ◌&&◌, leb, nat_eq,
  if◌then◌else◌, truthy, Assoc, lookup, insert, remove, keys, values, dedup, sort_by, take, get_or,
}

-- newer(a, b)
abbrev pub newer : Option ℕ → Option ℕ → Option ℕ
newer none b = b
newer (some a) none = some a
newer (some a) (some b) = if leb b a then some a else some b

-- A client and, in an activity, when it was last used.
pub record Client : Type 0 where
  pub client_namespace : String
  pub client_name : String
  pub client_kind : String

pub record Activity : Type 0 where
  pub client : Client
  pub last_authenticated_at : ℕ

abbrev pub last_of : Option Activity → Option ℕ
last_of none = none
last_of (some a) = some a.last_authenticated_at

-- newestActivity(a, b), for a `b` that is there.
pub newest_activity : Option Activity → Activity → Activity
newest_activity none b = b
newest_activity (some a) b = if leb b.last_authenticated_at a.last_authenticated_at then a else b

-- {...client, lastAuthenticatedAt: newer(previous, timestamp)}
abbrev pub stamp : Option ℕ → Activity → Activity
stamp none a = a
stamp (some t) a =
    if leb a.last_authenticated_at t then record a { last_authenticated_at = t } else a

pub record Tracker : Type 0 where
  pub pending_users : Assoc (Assoc Activity)
  pub pending_clients : Assoc Activity
  pub known_clients : Assoc Client

-- What a sign-in hands to record(); `clientKind` has its default filled in.
pub record SignIn : Type 0 where
  pub account_id : Option String
  pub client_id : Option String
  pub client_namespace : Option String
  pub client_name : Option String
  pub client_kind : String
  pub user_authenticated : Bool
  pub timestamp : ℕ

abbrev pub applications_of : Option (Assoc Activity) → Assoc Activity
applications_of a = get_or a []

abbrev record_client : String → Activity → Tracker → Tracker
record_client c a t = record t {
  pending_clients = insert c (stamp (last_of (lookup c t.pending_clients)) a) t.pending_clients;
}

abbrev record_user : String → String → Activity → Tracker → Tracker
record_user u c a t =
    let apps = applications_of (lookup u t.pending_users) in
    record t {
      pending_users = insert u (insert c (stamp (last_of (lookup c apps)) a) apps) t.pending_users;
    }

abbrev activity_of : SignIn → Activity
activity_of s = record {
  client = record {
    client_namespace = get_or s.client_namespace "";
    client_name = get_or s.client_name "";
    client_kind = s.client_kind;
  };
  last_authenticated_at = s.timestamp;
}

-- record(...)
pub record_sign_in : SignIn → Tracker → Tracker
record_sign_in s t =
    if truthy s.client_id && truthy s.client_namespace && truthy s.client_name
    then (let c = get_or s.client_id "" in
        let t' = record_client c (activity_of s) t in
        if truthy s.account_id && s.user_authenticated
        then record_user (get_or s.account_id "") c (activity_of s) t'
        else t')
    else t

pub register_client : String → Client → Tracker → Tracker
register_client c x t = record t { known_clients = insert c x t.known_clients }

pub unregister_client : String → Tracker → Tracker
unregister_client c t = record t { known_clients = remove c t.known_clients }

-- The start of a flush: the batch leaves the tracker, which goes on collecting.
pub begin_flush : Tracker → Tracker
begin_flush t = record t { pending_users = []; pending_clients = [] }

-- The activities of a user whose write failed go back, beside what came meanwhile.
pub merge_back : Assoc Activity → Assoc Activity → Assoc Activity
unfolding newest_activity
merge_back pending [] = pending
merge_back pending ((c, a) ∷ apps) =
    merge_back (insert c (newest_activity (lookup c pending) a) pending) apps

pub user_failed : String → Assoc Activity → Tracker → Tracker
unfolding merge_back
user_failed u apps t = record t {
  pending_users =
      insert u (merge_back (applications_of (lookup u t.pending_users)) apps) t.pending_users;
}

pub client_failed : String → Option Activity → Tracker → Tracker
client_failed c none t = t
client_failed c (some a) t = record t {
  pending_clients = insert c (newest_activity (lookup c t.pending_clients) a) t.pending_clients;
}

-- The clients that a flush visits.
pub flushed_clients : Tracker → Tracker → List String
flushed_clients t batch = dedup (keys t.known_clients ++ keys batch.pending_clients)

-- The callback of #flushUser: the stored list by client, the batch on top, the newest first, cut off.
abbrev by_client : Assoc Activity → List (String × Activity) → Assoc Activity
by_client m [] = m
by_client m ((c, a) ∷ apps) = by_client (insert c a m) apps

pub merge_recent : Assoc Activity → Assoc Activity → Assoc Activity
merge_recent stored [] = stored
merge_recent stored ((c, a) ∷ apps) =
    merge_recent (insert c (stamp (last_of (lookup c stored)) a) stored) apps

abbrev pub newest_first : (String × Activity) → (String × Activity) → Bool
newest_first x y = leb y.1.last_authenticated_at x.1.last_authenticated_at

pub recent_applications : ℕ → List (String × Activity) → Assoc Activity → List (String × Activity)
unfolding merge_recent
recent_applications limit stored apps =
    take limit (sort_by newest_first (merge_recent (by_client [] stored) apps))
