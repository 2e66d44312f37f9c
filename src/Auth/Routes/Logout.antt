-- ===== src/Auth/Routes/Logout.antt =====
-- `logout` and `delete_account` of backend/auth/src/routes.rs.
pub mod Laws
use fullstackhex.Base.{
  ℕ, Bool, true, false, ◌==◌, Text, codes, List, [], ◌∷◌, ◌++◌, Option, none, some, Result, ok, err,
  if◌then◌else◌, is_empty,
}
use fullstackhex.Base.Exec.{Exec, pure, throw, lift, ◌>>=◌, ◌>>◌}
use fullstackhex.Domain.Errors.{ApiError, internal_error, not_found}
use fullstackhex.Cache.Store.{cache_set, cache_delete}
use fullstackhex.Cache.Session.{session_destroy}
use fullstackhex.Auth.Config.{AuthConfig}
use fullstackhex.Auth.Middleware.{AuthUser}
use fullstackhex.Auth.App.{Platform, App, AppM, query_or, attempt, cached, redis, as_value}

-- The text of a header that clears a cookie.
unfoldable pub clear_text : Text → Bool → Text
clear_text name http_only =
    name
    ++ (if http_only
        then codes "=; HttpOnly; Path=/; Max-Age=0; SameSite=Lax"
        else codes "=; Path=/; Max-Age=0; SameSite=Lax")

module _ (p : Platform) (config : AuthConfig) (prefix : Text) where
  -- An empty refresh token is no token.
  drop_refresh : Option Text → AppM p (Unit {0})
  drop_refresh none = pure tt
  drop_refresh (some token) =
      if is_empty token
      then pure tt
      else redis p (cache_delete p.redis prefix (codes "refresh") token)

  unfoldable pub blacklist_token : Text → AppM p (Unit {0})
  blacklist_token jti =
      redis p (cache_set p.redis prefix p.bool_codec (codes "blacklist") jti true config.jwt_expiry)

  -- Best effort: a failure is only logged.
  unfoldable pub end_session : Option Text → AppM p (Unit {0})
  end_session none = pure tt
  end_session (some id) = do
    _ ← attempt p (cached p (session_destroy p.redis prefix p.session_codec id))
    pure tt

  clear : Text → Bool → List Text → Result ApiError (List Text)
  unfolding clear_text
  clear name http_only headers =
      if p.is_header_value (clear_text name http_only)
      then ok (headers ++ clear_text name http_only ∷ [])
      else err (internal_error (codes "failed to parse Set-Cookie header"))

  unfoldable pub logout : AuthUser → Option Text → AppM p (List Text)
  unfolding drop_refresh blacklist_token end_session clear
  logout user refresh_token = do
    drop_refresh refresh_token
    blacklist_token user.jti
    end_session user.session_id
    h1 ← lift (clear (codes "session") true [])
    h2 ← lift (clear (codes "access_token") true h1)
    h3 ← lift (clear (codes "refresh_token") true h2)
    lift (clear (codes "csrf_token") false h3)

  unfoldable pub delete_account : AuthUser → AppM p (Unit {0})
  unfolding blacklist_token end_session
  delete_account user = do
    blacklist_token user.jti
    end_session user.session_id
    query_or p (codes "Failed to delete account data")
        (λ d. (tt, p.postgres.delete_notes user.user_id d))
    rows ← query_or p (codes "Failed to delete account") (p.postgres.delete_user user.user_id)
    if rows == 0 then throw (not_found (codes "User not found")) else pure tt
