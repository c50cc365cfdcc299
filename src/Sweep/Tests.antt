-- ===== src/Sweep/Tests.antt =====
-- A sweep over four records, and its theorem for the one that it removes.
use passmower.Prelude.{
  String, Option, none, some, Bool, true, false, List, [], ◌∷◌, ◌==◌, ◌≡◌, refl, contains, all,
  is_some, if◌then◌else◌,
}
use passmower.Sweep.{
  LiveClient, ClientRecord, missing, there, World, sweep, list_live_client_ids, remove_orphans,
  is_removed, is_swept, confirm_absent, namespace_filter,
}
use passmower.Sweep.Safety.{is_listed, IsGone, sweep-IsGone}

abbrev apps : String → Bool
apps = namespace_filter (λ p n. p == n) ("apps" ∷ [])

abbrev record_of : String → String → ClientRecord
record_of namespace name = record {
  kind = "OIDCClient";
  client_namespace = namespace;
  client_name = name;
}

-- `late` was created after the list was taken.
abbrev world : World
world = record {
  find =
      λ id. if id == "elsewhere" then some (record_of "other" "x") else some (record_of "apps" id);
  read = λ r. if r.client_name == "late" then there else missing;
}

abbrev lists : List (Option (List LiveClient))
lists = some (record { client_id = "wiki"; client_namespace = "apps" } ∷ []) ∷ some [] ∷ []

abbrev clients : List String
clients = "wiki" ∷ "late" ∷ "gone" ∷ "elsewhere" ∷ []

swept : sweep apps world false lists clients ≡ "gone" ∷ []
unfolding sweep list_live_client_ids remove_orphans is_removed is_swept confirm_absent
    namespace_filter
swept = refl

gone_is_swept : contains "gone" (sweep apps world false lists clients) ≡ true
unfolding sweep list_live_client_ids remove_orphans is_removed is_swept confirm_absent
    namespace_filter
gone_is_swept = refl

sweep-IsGone_example :
    (false ≡ false)
    × (all is_some lists ≡ true)
    × (is_listed apps "gone" lists ≡ false)
    × (contains "gone" clients ≡ true)
    × IsGone apps world "gone"
sweep-IsGone_example = sweep-IsGone apps world false lists clients "gone" gone_is_swept

-- One list failed: nothing is removed.
skipped : sweep apps world false (some [] ∷ none ∷ []) clients ≡ []
unfolding sweep list_live_client_ids
skipped = refl
