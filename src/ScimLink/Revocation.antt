-- ===== src/ScimLink/Revocation.antt =====
-- What an account keeps of a connection that is revoked.
use passmower.Prelude.{
  String, Option, none, some, Bool, true, false, not, List, ◌==◌, ◌&&◌, ◌≡◌, refl, find, is_empty,
  same_text,
}
use passmower.ScimLink.{
  Resource, Connection, ok, Projection, Cluster, Api, list_resources, revoke_each,
  revoke_connection,
}

-- The identity that an account has from a source: the latest projection.
abbrev pub latest : String → String → List Projection → Option Projection
latest a key ps = find (λ (p : Projection). p.account_id == a && p.source_key == key) ps

abbrev pub is_revoked : Option Projection → Bool
is_revoked none = false
is_revoked (some p) = not p.active && is_empty p.groups

abbrev pub is_linked_to : String → Resource → Bool
is_linked_to a r = same_text r.linked_account_id (some a)

module _ (api : Api) (c : Connection) where
  -- Where the subjects cannot be listed, revokeConnection reports no error and changes nothing.
  pub revoke_connection-unlisted : (s : Cluster) → revoke_connection api c false s ≡ (ok true, s)
  unfolding revoke_connection list_resources revoke_each
  revoke_connection-unlisted s = refl
