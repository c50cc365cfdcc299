-- ===== src/Discovery/Tests.antt =====
-- Concrete Ingresses for the module Discovery.
use passmower.Prelude.{◌≡◌, refl, none, some, true, false, [], ◌∷◌, any, concat}
use passmower.Discovery.{
  Ingress, ExistingClient, Web, Answers, event, annotation, reconcile, list_of, texts,
  described_fields, patch_client, discovered_client_labels, oidc_client_spec_for, create_client,
  resolved, resolve_ingress_ref,
}
use passmower.Discovery.Authority.{AreWarranted, reconcile-AreWarranted}
use passmower.Discovery.Convergence.{is_write, afterwards, reconcile-settles}

abbrev web : Web
web = record { trim = λ t. t; href = λ p o. some (concat o p) }

abbrev grafana : Ingress
grafana = record {
  namespace = some "monitoring";
  name = some "grafana";
  annotations = (annotation "redirect-path", "/login,/oauth") ∷ [];
  rule_hosts = some "grafana.example" ∷ none ∷ [];
}

abbrev nothing_there : Answers
nothing_there = record { existing = none; clients = []; written = true }

abbrev handwritten : ExistingClient
handwritten = record { client_name = "grafana"; labels = []; spec = []; ingress_ref = none }

abbrev handwritten_there : Answers
handwritten_there = record {
  existing = some handwritten;
  clients = handwritten ∷ [];
  written = true;
}

drops_empty_paths : list_of web (some "/login,,/oauth") ≡ "/login" ∷ "/oauth" ∷ []
unfolding list_of
drops_empty_paths = refl

leaves_handwritten : reconcile web handwritten_there grafana ≡ event "OIDCClientConflict" ∷ []
unfolding reconcile
leaves_handwritten = refl

creates_missing : any is_write (reconcile web nothing_there grafana) ≡ true
unfolding reconcile oidc_client_spec_for create_client
creates_missing = refl

-- A client that the Ingress restricted to a group before the annotation was removed.
abbrev restricted : ExistingClient
restricted = record {
  client_name = "grafana";
  labels = discovered_client_labels grafana;
  spec =
      ("allowedGroups", texts ("ops" ∷ []))
      ∷ described_fields web grafana
          ("https://grafana.example/login" ∷ "https://grafana.example/oauth" ∷ []);
  ingress_ref = none;
}

abbrev restricted_there : Answers
restricted_there = record { existing = some restricted; clients = []; written = true }

keeps_withdrawn_groups : reconcile web restricted_there grafana ≡ []
unfolding reconcile oidc_client_spec_for patch_client discovered_client_labels
keeps_withdrawn_groups = refl

resolves_one_host :
    resolve_ingress_ref web (some grafana) ("/a" ∷ [])
    ≡ resolved "https://grafana.example/" ("https://grafana.example/a" ∷ [])
unfolding resolve_ingress_ref
resolves_one_host = refl

reconcile-AreWarranted_example :
    AreWarranted web nothing_there grafana (reconcile web nothing_there grafana)
reconcile-AreWarranted_example = reconcile-AreWarranted web nothing_there grafana

reconcile-settles_example :
    any is_write (
      reconcile web
        (afterwards grafana (reconcile web nothing_there grafana) nothing_there)
        grafana)
    ≡ false
reconcile-settles_example = reconcile-settles web grafana nothing_there
