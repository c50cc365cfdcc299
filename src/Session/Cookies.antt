-- ===== src/Session/Cookies.antt =====
-- The end of an impersonation in the browser.
use passmower.Prelude.{
  String, Option, none, some, false, ◌==◌, ◌≡◌, refl, concat, lookup, lookup-insert, lookup-remove,
  if◌then◌else◌, arith, eq_refl,
}
use passmower.Session.{
  Records, Impersonation, Cookies, set_cookie, get_impersonation, end_impersonation,
}

lookup-set_cookie :
    (k j : String) (v : Option String) (m : Cookies)
    → lookup j (set_cookie k v m) ≡ (if k == j then v else lookup j m)
lookup-set_cookie k j none m = lookup-remove k j m
lookup-set_cookie k j (some v) m = lookup-insert k j v m

module _ (r : Records Impersonation) where
  -- The cookies of the impersonation, of the session and of its legacy form have different names. When an
  -- impersonation ends, the browser holds no impersonation, its session is the one of its administrator,
  -- if it had one, and the record that its cookie named is gone.
  pub end_impersonation-restores :
      (impersonation session admin_session jti : String) (cookies : Cookies) (s : r.State)
      → (session == impersonation) ≡ false
      → (concat session ".legacy" == impersonation) ≡ false
      → (concat session ".legacy" == session) ≡ false
      → lookup impersonation cookies ≡ some jti
      → let ended = end_impersonation r impersonation session admin_session cookies s in
        (get_impersonation r impersonation ended.0 ended.1 ≡ none)
        × (lookup session ended.0 ≡ lookup admin_session cookies)
        × (r.find jti ended.1 ≡ none)
  unfolding end_impersonation get_impersonation
  end_impersonation-restores impersonation session admin_session jti cookies s a b c h =
      (let admin = lookup admin_session cookies in
        let clear = set_cookie impersonation none cookies in
        let main = set_cookie session admin clear in
        let gone : lookup impersonation (set_cookie (concat session ".legacy") admin main) ≡ none =
          ground (
            arith,
            a,
            b,
            lookup-set_cookie (concat session ".legacy") impersonation admin main,
            lookup-set_cookie session impersonation admin clear,
            lookup-set_cookie impersonation impersonation none cookies,
            eq_refl impersonation,
          ) in
        let kept : lookup session (set_cookie (concat session ".legacy") admin main) ≡ admin =
          ground (
            arith,
            c,
            lookup-set_cookie (concat session ".legacy") session admin main,
            lookup-set_cookie session session admin clear,
            eq_refl session,
          ) in
        (
          rw (gone, get_impersonation, end_impersonation) refl,
          kept,
          rw (h, end_impersonation) (r.find-destroy jti s),
        ))
