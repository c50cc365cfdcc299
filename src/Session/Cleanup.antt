-- ===== src/Session/Cleanup.antt =====
-- What cleanupSessions keeps.
use passmower.Prelude.{
  String, none, Bool, true, not, List, [], ◌∷◌, ◌==◌, ◌&&◌, ◌||◌, ◌≡◌, refl, ◌∙◌, inl, inr, lookup,
  lookup-insert, lookup-remove, filter, contains, is_some, if◌then◌else◌, arith, eq_iff, eq_refl,
  Bool-cases,
}
use passmower.Session.{Lists, sessions_of, cleanup_session, cleanup_each, cleanup_sessions}

abbrev pub is_live : String → Lists → Bool
is_live s l = is_some (lookup s l.session_uid)

contains-filter_other :
    (s x : String) (xs : List String)
    → contains s (filter (λ y. not (y == x)) xs) ≡ (contains s xs && not (x == s))
contains-filter_other s x [] = refl
contains-filter_other s x (y ∷ ys) =
    ground (arith, contains-filter_other s x ys, eq_iff y x, eq_iff y s, eq_iff x s)

session-live : (id s x : String) (l : Lists) → is_live s (cleanup_session id l x) ≡ is_live s l
unfolding cleanup_session
session-live id s x l = ground (arith, Bool-cases (is_live x l))

session-contains :
    (id s x : String) (l : Lists)
    → contains s (sessions_of id (cleanup_session id l x))
      ≡ (contains s (sessions_of id l) && (is_live x l || not (x == s)))
unfolding cleanup_session
session-contains id s x l = elim (Bool-cases (is_live x l)) [
  | inl e ↦ ground (arith, e)
  | inr e ↦ ground (
    arith,
    e,
    contains-filter_other s x (sessions_of id l),
    lookup-insert id id (filter (λ y. not (y == x)) (sessions_of id l)) l.account_sessions,
    eq_refl id,
  )
]

each-contains :
    (id s : String) (ss : List String) (l : Lists)
    → contains s (sessions_of id (cleanup_each id ss l))
      ≡ (contains s (sessions_of id l) && (is_live s l || not (contains s ss)))
unfolding cleanup_each
each-contains id s [] l = ground (arith)
each-contains id s (x ∷ ss) l =
    each-contains id s ss (cleanup_session id l x)
    ∙ ground (arith, session-contains id s x l, session-live id s x l, eq_iff x s)

session-metadata :
    (id s x : String) (l : Lists)
    → is_live s l ≡ true
    → lookup s (cleanup_session id l x).metadata ≡ lookup s l.metadata
unfolding cleanup_session
session-metadata id s x l h = elim (Bool-cases (is_live x l)) [
  | inl e ↦ ground (arith, e)
  | inr e ↦ ground (arith, e, h, eq_iff x s, lookup-remove x s l.metadata)
]

each-metadata :
    (id s : String) (ss : List String) (l : Lists)
    → is_live s l ≡ true
    → lookup s (cleanup_each id ss l).metadata ≡ lookup s l.metadata
unfolding cleanup_each
each-metadata id s [] l h = refl
each-metadata id s (x ∷ ss) l h =
    each-metadata id s ss (cleanup_session id l x) (session-live id s x l ∙ h)
    ∙ session-metadata id s x l h

-- After cleanupSessions the account has exactly those of its sessions that still exist, and the metadata
-- of every session that exists is as it was.
pub cleanup_sessions-exact :
    (id s : String) (l : Lists)
    → (contains s (sessions_of id (cleanup_sessions id l))
        ≡ (contains s (sessions_of id l) && is_live s l))
      × ((if is_live s l then lookup s (cleanup_sessions id l).metadata else none)
          ≡ (if is_live s l then lookup s l.metadata else none))
unfolding cleanup_sessions
cleanup_sessions-exact id s l = (
  ground (arith, each-contains id s (sessions_of id l) l),
  elim (Bool-cases (is_live s l)) [
    | inl e ↦ rw (e) (each-metadata id s (sessions_of id l) l e)
    | inr e ↦ rw (e) refl
  ],
)
