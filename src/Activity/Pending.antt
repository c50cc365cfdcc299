-- ===== src/Activity/Pending.antt =====
-- What a tracker has collected, through sign-ins and failed flushes.
use passmower.Prelude.{
  ℕ, String, Option, none, some, Bool, true, false, [], ◌∷◌, ◌==◌, ◌&&◌, ◌≡◌, refl, arith, eq_iff,
  eq_refl, leb, if◌then◌else◌, truthy, Assoc, lookup, insert, lookup-insert, get_or, Option-cases,
  Bool-cases, inl, inr,
}
use passmower.Activity.{
  newer, Activity, last_of, newest_activity, stamp, Tracker, SignIn, applications_of,
  record_sign_in, record_user, activity_of, merge_back, user_failed,
}

-- When an account last used a client, as far as the tracker has yet to write it.
abbrev pub pending_of : String → String → Tracker → Option ℕ
pending_of u c t = last_of (lookup c (applications_of (lookup u t.pending_users)))

-- The sign-in is one of this account at this client, and is recorded for both.
abbrev pub concerns : String → String → SignIn → Bool
concerns u c s =
    truthy s.client_id
    && truthy s.client_namespace
    && truthy s.client_name
    && truthy s.account_id
    && s.user_authenticated
    && get_or s.account_id "" == u
    && get_or s.client_id "" == c

record_user-pending_of :
    (v d : String) (a : Activity) (t : Tracker) (u c : String)
    → pending_of u c (record_user v d a t) ≡ (
        if v == u && d == c
        then newer (pending_of u c t) (some a.last_authenticated_at)
        else pending_of u c t)
record_user-pending_of v d a t u c = ground (
  arith,
  eq_iff v u,
  eq_iff d c,
  Option-cases (lookup d (applications_of (lookup v t.pending_users))),
  lookup-insert v u
      (insert d (stamp (last_of (lookup d (applications_of (lookup v t.pending_users)))) a)
        (applications_of (lookup v t.pending_users)))
      t.pending_users,
  lookup-insert d c (stamp (last_of (lookup d (applications_of (lookup v t.pending_users)))) a)
      (applications_of (lookup v t.pending_users)),
)

-- A sign-in moves the pending time of its own account and client forward to its timestamp, never
-- back, and changes no other.
pub record_sign_in-pending_of :
    (s : SignIn) (t : Tracker) (u c : String)
    → pending_of u c (record_sign_in s t)
      ≡ (if concerns u c s then newer (pending_of u c t) (some s.timestamp) else pending_of u c t)
unfolding record_sign_in
record_sign_in-pending_of s t u c = ground (
  arith,
  record_user-pending_of (get_or s.account_id "") (get_or s.client_id "") (activity_of s) t u c,
)

abbrev pub at_most : Option ℕ → Option ℕ → Bool
at_most none b = true
at_most (some a) none = false
at_most (some a) (some b) = leb a b

at_most_refl : (a : Option ℕ) → at_most a a ≡ true
at_most_refl none = refl
at_most_refl (some a) = ground arith

merge_back-keeps :
    (c : String) (x : Option ℕ) (apps pending : Assoc Activity)
    → at_most x (last_of (lookup c pending)) ≡ true
    → at_most x (last_of (lookup c (merge_back pending apps))) ≡ true
unfolding merge_back newest_activity
merge_back-keeps c x [] pending h = h
merge_back-keeps c x ((d, a) ∷ apps) pending h = merge_back-keeps c x apps _ (
    ground (
      arith,
      h,
      eq_iff d c,
      lookup-insert d c (newest_activity (lookup d pending) a) pending,
      Option-cases x,
      Option-cases (lookup d pending),
    ))

merge_back-covers :
    (c : String) (apps pending : Assoc Activity)
    → at_most (last_of (lookup c apps)) (last_of (lookup c (merge_back pending apps))) ≡ true
unfolding merge_back newest_activity
merge_back-covers c [] pending = refl
merge_back-covers c ((d, a) ∷ apps) pending = elim (Bool-cases (d == c)) [
  | inl e ↦ ground (
    arith,
    e,
    merge_back-keeps c (some a.last_authenticated_at) apps
        (insert d (newest_activity (lookup d pending) a) pending)
        (ground (
          arith,
          e,
          eq_iff d c,
          lookup-insert d c (newest_activity (lookup d pending) a) pending,
          Option-cases (lookup d pending),
        )),
  )
  | inr e ↦
      ground (
        arith,
        e,
        merge_back-covers c apps (insert d (newest_activity (lookup d pending) a) pending),
      )
]

-- The write of one user of the batch `t` fails, when the tracker has become `t'`.
abbrev pub user_fails : String → Tracker → Tracker → Tracker
user_fails u t t' = elim (lookup u t.pending_users) [
  | none ↦ t'
  | some apps ↦ user_failed u apps t'
]

-- A failed write of a user's activity loses nothing: whatever was recorded since the flush began,
-- every client's pending time is afterwards no older than in the batch and no older than what was
-- recorded meanwhile.
pub user_fails-keeps :
    (t t' : Tracker) (u c : String)
    → (at_most (pending_of u c t) (pending_of u c (user_fails u t t')) ≡ true)
      × (at_most (pending_of u c t') (pending_of u c (user_fails u t t')) ≡ true)
unfolding user_failed
user_fails-keeps t t' u c = elim (Option-cases (lookup u t.pending_users)) [
  | inl e ↦ (ground arith, ground (arith, at_most_refl (pending_of u c t')))
  | inr (apps, e) ↦
      let old = applications_of (lookup u t'.pending_users) in
      let at_u = lookup-insert u u (merge_back old apps) t'.pending_users in
      (
        ground (arith, e, eq_refl u, at_u, merge_back-covers c apps old),
        ground (
          arith,
          e,
          eq_refl u,
          at_u,
          merge_back-keeps c (last_of (lookup c old)) apps old
              (at_most_refl (last_of (lookup c old))),
        ),
      )
]
