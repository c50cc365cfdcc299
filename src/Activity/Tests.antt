-- ===== src/Activity/Tests.antt =====
-- Runs of the activity tracker, and its theorems at concrete sign-ins.
use passmower.Prelude.{ℕ, String, some, true, List, [], ◌∷◌, ◌≡◌, refl}
use passmower.Activity.{Activity, Tracker, SignIn, record_sign_in, begin_flush, recent_applications}
use passmower.Activity.Pending.{pending_of}

abbrev wiki_sign_in : SignIn
wiki_sign_in = record {
  account_id = some "alice";
  client_id = some "wiki";
  client_namespace = some "apps";
  client_name = some "wiki";
  client_kind = "OIDCClient";
  user_authenticated = true;
  timestamp = 500;
}

abbrev empty : Tracker
empty = record { pending_users = []; pending_clients = []; known_clients = [] }

abbrev batch : Tracker
batch = record_sign_in wiki_sign_in empty

-- An older timestamp that arrives later does not move the time back.
late_arrival :
    pending_of "alice" "wiki" (record_sign_in (record wiki_sign_in { timestamp = 400 }) batch)
    ≡ some 500
unfolding record_sign_in
late_arrival = refl

abbrev meanwhile : Tracker
meanwhile = record_sign_in (record wiki_sign_in { timestamp = 900 }) (begin_flush batch)

abbrev used : ℕ → Activity
used t = record {
  client = record { client_namespace = "apps"; client_name = "x"; client_kind = "OIDCClient" };
  last_authenticated_at = t;
}

abbrev stored_list : List (String × Activity)
stored_list = ("mail", used 100) ∷ ("wiki", used 50) ∷ []

oldest_dropped :
    recent_applications 2 stored_list (("git", used 70) ∷ [])
    ≡ ("mail", used 100) ∷ ("git", used 70) ∷ []
unfolding recent_applications
oldest_dropped = refl
