-- ===== src/Auth/Routes/Password.antt =====
-- `forgot_password` and `reset_password` of backend/auth/src/routes.rs.
pub mod Laws
use fullstackhex.Base.{
  ℕ, Bool, true, false, ◌==◌, Text, codes, List, [], ◌∷◌, ◌++◌, Option, none, some, Result, ok, err,
  if◌then◌else◌, is_empty, fail_if, ok_or,
}
use fullstackhex.Base.Exec.{Exec, pure, throw, lift, ◌>>=◌, ◌>>◌}
use fullstackhex.Domain.Errors.{ApiError, unauthorized, validation_error}
use fullstackhex.Cache.Store.{cache_set, cache_get, cache_delete}
use fullstackhex.Cache.Session.{session_destroy_all_for_user}
use fullstackhex.Auth.Config.{AuthConfig}
use fullstackhex.Auth.ClientIp.{HeaderMap, IpAddr, client_ip}
use fullstackhex.Auth.Registration.{invalid_email, password_length}
use fullstackhex.Auth.App.{Platform, App, AppM, UserRow, query, redis, new_uuid}
use fullstackhex.Auth.Routes.Tokens.{check_rate_limit, hash_password}

abbrev pub reset_token_ttl_secs : ℕ
reset_token_ttl_secs = 3600

pub record ResetPasswordRequest : Type 0 where
  pub token : Text
  pub password : Text

abbrev pub after_length : Text → Result ApiError (Unit {0}) → Result ApiError (Unit {0})
after_length token (err e) = err e
after_length token (ok _) =
    fail_if (is_empty token) (validation_error (codes "Reset token is required"))

-- The checks on the body: the password's length, then that there is a token.
unfoldable pub validate_reset : ResetPasswordRequest → Result ApiError (Unit {0})
validate_reset body = after_length body.token (password_length body.password)

module _ (p : Platform) (config : AuthConfig) (prefix : Text) where
  -- A token for a user that exists, in Redis for an hour.
  unfoldable pub store_reset_token : Option UserRow → AppM p (Unit {0})
  store_reset_token none = pure tt
  store_reset_token (some user) = do
    reset_token ← new_uuid p
    redis p (
        cache_set p.redis prefix p.text_codec (codes "reset") reset_token user.id
          reset_token_ttl_secs)

  -- The answer, 202, says the same in every case.
  unfoldable pub forgot_password : Bool → HeaderMap → Option IpAddr → Text → AppM p Text
  unfolding store_reset_token
  forgot_password trust_proxy headers peer email = do
    let ip = client_ip p.show_ip trust_proxy headers peer
    check_rate_limit p config prefix (codes "forgot:" ++ ip) config.rate_limits.forgot_window_secs
        config.rate_limits.forgot_max
    lift (invalid_email email)
    user ← query p (λ d. (p.postgres.find_by_email d email, d))
    store_reset_token user
    pure (codes "If the email exists, a reset link has been generated")

  abbrev pub bad_reset_token : ApiError
  bad_reset_token = unauthorized (codes "Invalid or expired reset token")

  unfoldable pub reset_password : ResetPasswordRequest → AppM p (Unit {0})
  reset_password body = do
    lift (validate_reset body)
    found ← redis p (cache_get p.redis prefix p.text_codec (codes "reset") body.token)
    user_id ← lift (ok_or found bad_reset_token)
    password_hash ← hash_password p config prefix body.password
    rows ← query p (p.postgres.update_password password_hash user_id)
    redis p (cache_delete p.redis prefix (codes "reset") body.token)
    lift (
        fail_if (rows == 0)
          (unauthorized (codes "Cannot reset password for OAuth-linked accounts")))
    redis p (session_destroy_all_for_user p.redis prefix p.session_codec user_id)
