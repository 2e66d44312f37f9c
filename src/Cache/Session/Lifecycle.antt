-- ===== src/Cache/Session/Lifecycle.antt =====
-- The life of a session of backend/cache/src/session.rs, on a quiet network.
use fullstackhex.Base.{
  inl, inr, ℕ, suc, ◌<◌, ◌≡◌, ◌∙◌, refl, false, Text, codes, [], ◌∷◌, Option, none, some, text_eq,
  text_eq_refl, ok, err, Bool-cases,
}
use fullstackhex.Base.Exec.{◌>>=◌, ◌>>◌}
use fullstackhex.Domain.Errors.{session_not_found}
use fullstackhex.Cache.Redis.{Redis, str}
use fullstackhex.Cache.Client.{World, Session, make_key, string_of}
use fullstackhex.Cache.Keys.{make_key-prefix}
use fullstackhex.Cache.Store.{Codec}
use fullstackhex.Cache.Session.{
  use_stored, next_id, drop_session, set_sessions, Cached, find_cached, remove_cached, session_get,
  session_create, session_destroy, create_script, destroy_script, is_set, owner_of, leave_set,
}

find_cached-remove : (id : Text) (m : Cached) → find_cached id (remove_cached id m) ≡ none
unfolding find_cached remove_cached
find_cached-remove id [] = refl
find_cached-remove id ((k, expiry, s) ∷ m) = elim (Bool-cases (text_eq k id)) [
  | inl h ↦ rw h (find_cached-remove id m)
  | inr h ↦ rw (h, h) (find_cached-remove id m)
]

module _ (R : Redis) (prefix : Text) (json : Codec Session) where
  open R use {Db, lookup}

  abbrev pub session_key : Text → Text
  session_key id = make_key prefix (codes "session") id

  abbrev pub user_key : Text → Text
  user_key id = make_key prefix (codes "user_sessions") id

  keys_differ : (id u : Text) → text_eq (session_key id) (user_key u) ≡ false
  keys_differ id u = make_key-prefix prefix (codes "session") id (codes "user_sessions") u ∙ refl

  keys_differ' : (id u : Text) → text_eq (user_key u) (session_key id) ≡ false
  keys_differ' id u = make_key-prefix prefix (codes "user_sessions") u (codes "session") id ∙ refl

  -- A session that is not cached is fetched from Redis, where it is missing.
  pub get-missing :
      (id : Text) (w : World R)
      → w.net ≡ []
      → find_cached id w.sessions ≡ none
      → lookup w.db (session_key id) ≡ none
      → (session_get R prefix json id w).0 ≡ err session_not_found
  unfolding session_get
  get-missing id w quiet uncached missing = rw (uncached, quiet, missing) refl

  get-stored :
      (id : Text) (w : World R) (s : Session) (ttl : Option ℕ)
      → w.net ≡ []
      → find_cached id w.sessions ≡ none
      → lookup w.db (session_key id) ≡ some (record { value = str (json.encode s); ttl = ttl })
      → (session_get R prefix json id w).0 ≡ ok s
  unfolding session_get
  get-stored id w s ttl quiet uncached stored =
      rw (uncached, quiet, stored, use_stored, json.decode-encode s) refl

  create-lookup :
      (s : Session) (id : Text) (ttl : ℕ) (d : Db)
      → 0 < ttl
      → is_set R prefix json (lookup d (user_key s.user_id)) ≡ ok tt
      → lookup
          (create_script R prefix json
            (session_key id)
            (user_key s.user_id)
            (json.encode s)
            id
            ttl
            d).1
          (session_key id)
        ≡ some (record { value = str (json.encode s); ttl = some ttl })
  unfolding create_script
  create-lookup s id ttl d live set =
      let d1 = R.set_ex (session_key id) (json.encode s) ttl d in
      rw
        (
          R.lookup-set_ex (session_key id) (json.encode s) ttl d (user_key s.user_id) live,
          keys_differ id s.user_id,
          set,
          R.lookup-expire (user_key s.user_id) ttl (R.sadd (user_key s.user_id) id d1)
              (session_key id) live,
          keys_differ' id s.user_id,
          R.lookup-sadd (user_key s.user_id) id d1 (session_key id),
          keys_differ' id s.user_id,
          R.lookup-set_ex (session_key id) (json.encode s) ttl d (session_key id) live,
          text_eq_refl (session_key id),
        )
        refl

  destroy-lookup :
      (id : Text) (d : Db) (t : Option Text)
      → string_of (lookup d (session_key id)) ≡ ok t
      → lookup (destroy_script R prefix json (session_key id) id d).1 (session_key id) ≡ none
  unfolding destroy_script
  destroy-lookup id d t h =
      rw
        (
          h,
          R.lookup-del (session_key id) (leave_set R prefix json id (owner_of R prefix json t) d)
              (session_key id),
          text_eq_refl (session_key id),
        )
        refl

  create-answers :
      (s : Session) (id : Text) (ttl : ℕ) (d : Db)
      → 0 < ttl
      → is_set R prefix json (lookup d (user_key s.user_id)) ≡ ok tt
      → create_script R prefix json (session_key id) (user_key s.user_id) (json.encode s) id ttl d
        ≡ (
          ok id,
          (create_script R prefix json
              (session_key id)
              (user_key s.user_id)
              (json.encode s)
              id
              ttl
              d).1,
        )
  unfolding create_script
  create-answers s id ttl d live set =
      rw
        (
          R.lookup-set_ex (session_key id) (json.encode s) ttl d (user_key s.user_id) live,
          keys_differ id s.user_id,
          set,
        )
        refl

  destroy-answers :
      (id : Text) (d : Db) (t : Option Text)
      → string_of (lookup d (session_key id)) ≡ ok t
      → destroy_script R prefix json (session_key id) id d
        ≡ (ok tt, (destroy_script R prefix json (session_key id) id d).1)
  unfolding destroy_script
  destroy-answers id d t h = rw h refl

  -- On a quiet network, a session that is created with a positive time to live, under a fresh id
  -- that the process has not cached, and with no key of another type in the way, is what the next
  -- `session_get` of that id returns.
  pub session_create-get :
      (s : Session) (ttl : ℕ) (w : World R)
      → 0 < ttl
      → w.net ≡ []
      → find_cached (w.random 0) w.sessions ≡ none
      → is_set R prefix json (lookup w.db (user_key s.user_id)) ≡ ok tt
      → ((do id ← session_create R prefix json s ttl; session_get R prefix json id) w).0 ≡ ok s
  unfolding session_create next_id
  session_create-get s ttl w live quiet fresh set =
      let d2 =
        (create_script R prefix json (session_key (w.random 0)) (user_key s.user_id) (json.encode s)
          (w.random 0) ttl w.db).1 in
      rw (quiet, create-answers s (w.random 0) ttl w.db live set)
        (get-stored (w.random 0) (record w { random = λ n. w.random (suc n); net = []; db = d2 }) s
          (some ttl) refl fresh (create-lookup s (w.random 0) ttl w.db live set))

  -- On a quiet network, once a session has been destroyed it is not found any more, whether it was
  -- stored and cached or not: neither in Redis nor in the cache of the process.
  pub session_destroy-get :
      (id : Text) (w : World R) (t : Option Text)
      → w.net ≡ []
      → string_of (lookup w.db (session_key id)) ≡ ok t
      → ((do session_destroy R prefix json id; session_get R prefix json id) w).0
        ≡ err session_not_found
  unfolding session_destroy drop_session set_sessions
  session_destroy-get id w t quiet h =
      let d2 = (destroy_script R prefix json (session_key id) id w.db).1 in
      rw (quiet, destroy-answers id w.db t h)
        (get-missing id (record w { net = []; db = d2; sessions = remove_cached id w.sessions })
          refl (find_cached-remove id w.sessions) (destroy-lookup id w.db t h))
