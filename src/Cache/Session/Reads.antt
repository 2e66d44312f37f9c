-- ===== src/Cache/Session/Reads.antt =====
-- `session_get` of backend/cache/src/session.rs leaves the server as it is.
use fullstackhex.Base.{
  inl, inr, Option-cases, Result-cases, ◌≡◌, refl, Text, [], Option, none, some,
}
use fullstackhex.Cache.Redis.{Redis}
use fullstackhex.Cache.Client.{World, Session, string_of}
use fullstackhex.Cache.Store.{Codec}
use fullstackhex.Cache.Session.{
  fetch_session, cached_session, use_stored, set_sessions, session_cache_get, session_get,
}
use fullstackhex.Cache.Session.Lifecycle.{session_key}

module _ (R : Redis) (prefix : Text) (json : Codec Session) where
  open R use {lookup}

  -- The server's data and the turns to come.
  abbrev pub Untouched : World R → World R → Type 0
  Untouched w v = (v.db ≡ w.db) × (v.net ≡ [])

  use_stored-Untouched :
      (id : Text) (t : Option Text) (w : World R)
      → w.net ≡ []
      → Untouched w (use_stored R prefix json id t w).1
  unfolding use_stored set_sessions
  use_stored-Untouched id none w quiet = (refl, quiet)
  use_stored-Untouched id (some t) w quiet = elim (Option-cases (json.decode t)) [
    | inl e ↦ rw (use_stored, e) (refl, quiet)
    | inr (s, e) ↦ rw (use_stored, e) (refl, quiet)
  ]

  fetch_session-Untouched :
      (id : Text) (found : Option Session) (w : World R)
      → w.net ≡ []
      → Untouched w (fetch_session R prefix json id found w).1
  unfolding fetch_session
  fetch_session-Untouched id (some s) w quiet = (refl, quiet)
  fetch_session-Untouched id none w quiet =
      elim (Result-cases (string_of (lookup w.db (session_key R prefix json id)))) [
        | inl (t, e) ↦ rw (quiet, e) (use_stored-Untouched id t (record w { net = [] }) refl)
        | inr (x, e) ↦ rw (quiet, e) (refl, refl)
      ]

  -- On a quiet network, reading a session changes nothing on the server.
  pub session_get-Untouched :
      (id : Text) (w : World R) → w.net ≡ [] → Untouched w (session_get R prefix json id w).1
  unfolding session_get cached_session set_sessions
  session_get-Untouched id w quiet =
      fetch_session-Untouched id _
        (set_sessions R prefix json (session_cache_get id w.now_ms w.sessions).1 w) quiet
