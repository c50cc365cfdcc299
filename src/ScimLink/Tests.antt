-- ===== src/ScimLink/Tests.antt =====
-- Runs of linking and of revoking.
use passmower.Prelude.{none, some, true, false, [], ◌∷◌, ◌≡◌, refl}
use passmower.Scim.{Identity}
use passmower.ScimLink.{Resource, Connection, Cluster, Api, link_account}
use passmower.ScimLink.Links.{link_of, link_account-kept}

abbrev api : Api
api = record { writes_status = λ x. true; updates = λ x. true; has_account = λ x. true }

abbrev acme : Connection
acme = record {
  id = "acme";
  uid = "u1";
  source_key = "scim-u1";
  disabled = false;
  linking = some (record {
    provider = "entra";
    tenant_claim = "tid";
    tenant_value = "t1";
    subject_claim = "oid";
  });
}

abbrev identity : Identity
identity = record {
  external_id = some "x1";
  user_name = "ann";
  display_name = none;
  active = none;
  emails = [];
  source_groups = [];
  groups = [];
  created_at = 0;
  last_modified = 0;
}

abbrev subject : Resource
subject = record {
  account_id = "s1";
  is_group = false;
  connection_uid = "u1";
  identity = identity;
  linked_account_id = some "anna";
}

abbrev cluster : Cluster
cluster = record { subjects = subject ∷ []; projections = [] }

-- Another account signs in with the claims of the subject.
link_account-kept_example :
    link_of "s1"
      (link_account api "entra" "mallory"
        (("tid", "t1") ∷ ("oid", "x1") ∷ [])
        (acme ∷ [])
        cluster).1.subjects
    ≡ some "anna"
link_account-kept_example =
    link_account-kept api "entra" "mallory" (("tid", "t1") ∷ ("oid", "x1") ∷ []) (acme ∷ []) cluster
      "s1" "anna" (refl, tt) refl
