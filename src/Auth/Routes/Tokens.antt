-- ===== src/Auth/Routes/Tokens.antt =====
-- The steps that the handlers of backend/auth/src/routes.rs share: the rate limit, signing a token
-- (backend/auth/src/jwt.rs), passwords (backend/auth/src/password.rs), the refresh token, the
-- session and the cookies. Logging and metrics are left out.
pub mod Keeps
use fullstackhex.Base.{
  ℕ, ◌+◌, ◌-◌, ◌/◌, Bool, true, Text, codes, decimal, List, [], ◌++◌, Option, Result, ok, err,
  if◌then◌else◌, map_err,
}
use fullstackhex.Base.Exec.{pure, gets, lift, ◌>>=◌, ◌>>◌}
use fullstackhex.Domain.Errors.{ApiError, unauthorized, rate_limited, internal_error}
use fullstackhex.Cache.Store.{cache_set}
use fullstackhex.Cache.Session.{session_create}
use fullstackhex.Cache.RateLimit.{rate_limit_check, RateLimitResult}
use fullstackhex.Auth.Config.{AuthConfig}
use fullstackhex.Auth.Cookies.{set_cookie, set_auth_cookies}
use fullstackhex.Auth.App.{
  Platform, App, AppM, Claims, JwtError, expired_signature, other, redis, random_hex, new_uuid,
}

pub record UserInfo : Type 0 where
  pub id : Text
  pub email : Text
  pub name : Option Text
  pub provider : Text

pub record TokenResponse : Type 0 where
  pub access_token : Text
  pub token_type : Text
  pub expires_in : ℕ
  pub refresh_token : Text
  pub csrf_token : Text
  pub user : UserInfo

module _ (p : Platform) (config : AuthConfig) (prefix : Text) where
  -- `saturating_sub`, then seconds.
  check_allowed : ℕ → RateLimitResult → Result ApiError (Unit {0})
  check_allowed now_ms result =
      if result.allowed
      then ok tt
      else err (
          rate_limited (
            codes "Rate limit exceeded. Try again after "
            ++ (decimal ((result.reset_at - now_ms) / 1000) ++ codes " seconds.")))

  unfoldable pub check_rate_limit : Text → ℕ → ℕ → AppM p (Unit {0})
  unfolding check_allowed
  check_rate_limit key window_secs max_requests = do
    result ← redis p (rate_limit_check p.redis prefix key window_secs max_requests)
    now_ms ← gets (λ s. s.cache.now_ms)
    lift (check_allowed now_ms result)

  -- `JwtService::create_token`
  unfoldable pub create_token : UserInfo → AppM p Text
  create_token user = do
    now ← gets (λ s. s.cache.now_ms / 1000)
    jti ← new_uuid p
    lift (
        map_err (λ e. internal_error (codes "JWT encode error: " ++ e))
          (p.sign_claims config.jwt_secret (record {
            sub = user.id;
            email = user.email;
            name = user.name;
            provider = user.provider;
            exp = now + config.jwt_expiry;
            iat = now;
            iss = config.jwt_issuer;
            jti = jti;
          })))

  abbrev jwt_failure : JwtError → ApiError
  jwt_failure expired_signature = unauthorized (codes "Token expired")
  jwt_failure (other e) = unauthorized (codes "Invalid token: " ++ e)

  -- `JwtService::validate_token`
  unfoldable pub validate_token : ℕ → Text → Result ApiError Claims
  validate_token now token =
      map_err jwt_failure (p.read_claims config.jwt_secret config.jwt_issuer now token)

  -- `password::hash_password`, with a fresh salt, and `password::verify_password`.
  unfoldable pub hash_password : Text → AppM p Text
  hash_password password = do
    salt ← random_hex p (codes "Password hash error: ")
    lift (
        map_err (λ e. internal_error (codes "Password hash error: " ++ e))
          (p.hash_password salt password))

  unfoldable pub verify_password : Text → Text → Result ApiError Bool
  verify_password password hash =
      map_err (λ e. internal_error (codes "Invalid password hash: " ++ e))
        (p.verify_hash password hash)

  -- A fresh refresh token, stored for the user.
  unfoldable pub new_refresh_token : Text → AppM p Text
  new_refresh_token user_id = do
    token ← random_hex p (codes "failed to generate refresh token: ")
    redis p (
        cache_set p.redis prefix p.text_codec (codes "refresh") token user_id config.refresh_expiry)
    pure token

  unfoldable pub new_session : UserInfo → AppM p Text
  new_session user = do
    now ← gets (λ s. s.cache.now_ms / 1000)
    redis p (
        session_create p.redis prefix p.session_codec
          (record {
            user_id = user.id;
            email = user.email;
            name = user.name;
            provider = user.provider;
            created_at = now;
          })
          config.jwt_expiry)

  abbrev keep : Result ApiError Text × App p → Result ApiError (Result ApiError Text) × App p
  keep (r, s) = (ok r, s)

  abbrev draw_csrf : AppM p (Result ApiError Text)
  draw_csrf s = keep (random_hex p (codes "failed to generate random bytes: ") s)

  -- `set_auth_cookies` on no headers yet.
  unfoldable pub auth_cookies : Text → Text → Option Text → AppM p (List Text × Text)
  auth_cookies access_token refresh_token session_id = do
    drawn ← draw_csrf
    lift (
        set_auth_cookies p.is_header_value drawn [] access_token refresh_token session_id
          config.jwt_expiry config.refresh_expiry config.cookie_secure)

  unfoldable pub session_cookie : List Text → Text → AppM p (List Text)
  session_cookie headers session_id = lift (
      set_cookie p.is_header_value headers (codes "session") session_id config.jwt_expiry true
        config.cookie_secure)

  abbrev pub token_response : Text → Text → Text → UserInfo → TokenResponse
  token_response access_token refresh_token csrf_token user = record {
    access_token = access_token;
    token_type = codes "Bearer";
    expires_in = config.jwt_expiry;
    refresh_token = refresh_token;
    csrf_token = csrf_token;
    user = user;
  }
