-- ===== src/Cache/Session/Purge.antt =====
-- `session_destroy_all_for_user` of backend/cache/src/session.rs on a quiet network.
use fullstackhex.Base.{
  arith, ℕ, ◌≡◌, ◌≢◌, refl, inl, inr, Bool, true, false, ◌||◌, Text, codes, List, [], ◌∷◌, ◌++◌,
  Option, none, some, text_eq, text_eq_refl, text_eq_iff, err, map, Bool-cases, All,
}
use fullstackhex.Base.Exec.{◌>>◌}
use fullstackhex.Domain.Errors.{session_not_found}
use fullstackhex.Cache.Redis.{Redis, members, has_member}
use fullstackhex.Cache.Client.{World, Session, make_key}
use fullstackhex.Cache.Deletion.{del_all, del_all-gone}
use fullstackhex.Cache.Store.{Codec}
use fullstackhex.Cache.Session.{
  Cached, find_cached, retain_others, session_get, session_destroy_all_for_user, destroy_members,
  if_renamed, drop_user, set_sessions, temp_key_of,
}
use fullstackhex.Cache.Session.Lifecycle.{get-missing, session_key, user_key}

-- The entries that the cache holds under an id are the user's.
abbrev pub Owned : Text → Text → Cached → Type 0
Owned id user_id = All (λ e. text_eq e.0 id ≡ true → (e.2).user_id ≡ user_id)

find_cached-retain_others :
    (id user_id : Text) (m : Cached)
    → Owned id user_id m
    → find_cached id (retain_others user_id m) ≡ none
unfolding find_cached retain_others
find_cached-retain_others id user_id [] h = refl
find_cached-retain_others id user_id ((k, expiry, s) ∷ m) (h, hs) =
    elim (Bool-cases (text_eq s.user_id user_id)) [
      | inl e ↦ rw e (find_cached-retain_others id user_id m hs)
      | inr e ↦ elim (Bool-cases (text_eq k id)) [
        | inl f ↦ absurd (cc (e, (text_eq_iff s.user_id user_id).1 (h f)))
        | inr f ↦ rw (e, f) (find_cached-retain_others id user_id m hs)
      ]
    ]

longer : (a b : Text) → b ≢ [] → text_eq a (a ++ b) ≡ false
longer [] [] h = absurd (h refl)
longer [] (x ∷ b) h = refl
longer (x ∷ a) b h = ground (arith, longer a b h)

module _ (R : Redis) (prefix : Text) (json : Codec Session) where
  open R use {Db, lookup, del}

  or_true : (a : Bool) {b : Bool} → b ≡ true → (a || b) ≡ true
  or_true true h = refl
  or_true false h = h

  member-map :
      (id : Text) (ids : List Text)
      → has_member id ids ≡ true
      → has_member (session_key R prefix json id) (map (make_key prefix (codes "session")) ids)
        ≡ true
  member-map id [] h = absurd (cc h)
  member-map id (i ∷ ids) h = elim (Bool-cases (text_eq id i)) [
    | inl e ↦ rw ((text_eq_iff id i).0 e, text_eq_refl (make_key prefix (codes "session") i)) refl
    | inr e ↦
        or_true (text_eq (session_key R prefix json id) (make_key prefix (codes "session") i))
          (member-map id ids (rw e at h))
  ]

  -- On a quiet network, when all the sessions of a user have been destroyed, none of the ids in the
  -- user's set is found any more, in Redis or in the cache of the process, where the id's entries
  -- are the user's.
  pub session_destroy_all_for_user-get :
      (user_id id i : Text) (ids : List Text) (ttl : Option ℕ) (w : World R)
      → w.net ≡ []
      → lookup w.db (user_key R prefix json user_id)
        ≡ some (record { value = members (i ∷ ids); ttl = ttl })
      → has_member id (i ∷ ids) ≡ true
      → Owned id user_id w.sessions
      → ((do session_destroy_all_for_user R prefix json user_id; session_get R prefix json id) w).0
        ≡ err session_not_found
  unfolding session_destroy_all_for_user destroy_members if_renamed drop_user set_sessions
  session_destroy_all_for_user-get user_id id i ids ttl w quiet at_user listed owned =
      let key = user_key R prefix json user_id in
      let temp = temp_key_of R prefix json key in
      let apart : text_eq key temp ≡ false = longer key (codes ":destroying") (λ e. cc e) in
      let d1 = R.rename key temp w.db in
      let at_temp : lookup d1 temp ≡ some (record { value = members (i ∷ ids); ttl = ttl }) =
        rw (R.lookup-rename key temp w.db temp apart, text_eq_refl temp) at_user in
      let d2 = del_all R (map (make_key prefix (codes "session")) (i ∷ ids)) (del temp d1) in
      rw (quiet, at_user, at_temp)
        (get-missing R prefix json id
          (record w { db = d2; net = []; sessions = retain_others user_id w.sessions }) refl
          (find_cached-retain_others id user_id w.sessions owned)
          (del_all-gone R (session_key R prefix json id)
            (map (make_key prefix (codes "session")) (i ∷ ids)) (del temp d1)
            (member-map id (i ∷ ids) listed)))
