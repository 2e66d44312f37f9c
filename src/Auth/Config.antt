-- ===== src/Auth/Config.antt =====
-- backend/auth/src/lib.rs: the configuration of the auth service and how it is read from the
-- environment, a function from names to values. Parsing of numbers and Booleans is that of Rust.
pub mod Secret
use fullstackhex.Base.{
  ℕ, zero, suc, ◌+◌, ◌-◌, ◌*◌, ◌^◌, Bool, true, false, ◌&&◌, ◌||◌, Text, codes, List, [], ◌∷◌,
  Option, none, some, text_eq, ltb, leb, if◌then◌else◌, is_empty, map, to_lower, ◌==◌,
}
use fullstackhex.Domain.Flags.{Env}

pub data AuthMode : Type 0 where
  cookie bearer both : AuthMode

pub record RateLimitConfig : Type 0 where
  pub register_max : ℕ
  pub register_window_secs : ℕ
  pub login_email_max : ℕ
  pub login_email_window_secs : ℕ
  pub login_ip_max : ℕ
  pub login_ip_window_secs : ℕ
  pub forgot_max : ℕ
  pub forgot_window_secs : ℕ
  pub oauth_callback_max : ℕ
  pub oauth_callback_window_secs : ℕ

pub record AuthConfig : Type 0 where
  pub jwt_secret : Text
  pub jwt_issuer : Text
  pub jwt_expiry : ℕ
  pub refresh_expiry : ℕ
  pub auth_mode : AuthMode
  pub google_client_id : Option Text
  pub google_client_secret : Option Text
  pub github_client_id : Option Text
  pub github_client_secret : Option Text
  pub oauth_redirect_url : Option Text
  pub sidecar_shared_secret : Option Text
  pub fail_open_on_redis_error : Bool
  pub rate_limits : RateLimitConfig
  pub cookie_secure : Bool

-- The digits of a number below 2^64, from the value so far.
digits_from : ℕ → Text → Option ℕ
digits_from n [] = if ltb n (2 ^ 64) then some n else none
digits_from n (c ∷ cs) = if leb 48 c && leb c 57 then digits_from (n * 10 + (c - 48)) cs else none

-- `str::parse::<u64>`: a sign "+" is allowed, an empty number is not.
unfoldable pub parse_u64 : Text → Option ℕ
unfolding digits_from
parse_u64 [] = none
parse_u64 (c ∷ cs) =
    if c == 43 then (if is_empty cs then none else digits_from 0 cs) else digits_from 0 (c ∷ cs)

abbrev or_else : {A : Type 0} → Option A → A → A
or_else none a = a
or_else (some b) a = b

-- `str::parse::<bool>` after `to_lowercase`.
abbrev parse_bool : Text → Option Bool
parse_bool s =
    let lower = map to_lower s in
    if text_eq lower (codes "true")
    then some true
    else if text_eq lower (codes "false")
    then some false
    else none

abbrev and_then : {A : Type 0} → Option Text → (Text → Option A) → Option A
and_then none f = none
and_then (some v) f = f v

unfoldable pub env_or : Env → Text → ℕ → ℕ
env_or env key default = or_else (and_then (env key) parse_u64) default

unfoldable pub rate_limits_from_env : Env → RateLimitConfig
unfolding env_or
rate_limits_from_env env = record {
  register_max = env_or env (codes "RATE_LIMIT_REGISTER_MAX") 5;
  register_window_secs = env_or env (codes "RATE_LIMIT_REGISTER_WINDOW") 900;
  login_email_max = env_or env (codes "RATE_LIMIT_LOGIN_EMAIL_MAX") 5;
  login_email_window_secs = env_or env (codes "RATE_LIMIT_LOGIN_EMAIL_WINDOW") 300;
  login_ip_max = env_or env (codes "RATE_LIMIT_LOGIN_IP_MAX") 10;
  login_ip_window_secs = env_or env (codes "RATE_LIMIT_LOGIN_IP_WINDOW") 300;
  forgot_max = env_or env (codes "RATE_LIMIT_FORGOT_MAX") 3;
  forgot_window_secs = env_or env (codes "RATE_LIMIT_FORGOT_WINDOW") 900;
  oauth_callback_max = env_or env (codes "RATE_LIMIT_OAUTH_CALLBACK_MAX") 10;
  oauth_callback_window_secs = env_or env (codes "RATE_LIMIT_OAUTH_CALLBACK_WINDOW") 60;
}

abbrev mode_of : Text → AuthMode
mode_of m =
    if text_eq m (codes "cookie")
    then cookie
    else if text_eq m (codes "bearer")
    then bearer
    else both

abbrev filled : Option Text → Option Text
filled none = none
filled (some s) = if is_empty s then none else some s

with_secret : Env → Text → AuthConfig
unfolding rate_limits_from_env env_or
with_secret env jwt_secret = record {
  jwt_secret = jwt_secret;
  jwt_issuer = or_else (env (codes "JWT_ISSUER")) (codes "fullstackhex");
  jwt_expiry = env_or env (codes "JWT_EXPIRY") 900;
  refresh_expiry = env_or env (codes "JWT_REFRESH_EXPIRY") 604800;
  auth_mode = mode_of (or_else (env (codes "AUTH_MODE")) (codes "both"));
  google_client_id = env (codes "GOOGLE_CLIENT_ID");
  google_client_secret = env (codes "GOOGLE_CLIENT_SECRET");
  github_client_id = env (codes "GITHUB_CLIENT_ID");
  github_client_secret = env (codes "GITHUB_CLIENT_SECRET");
  oauth_redirect_url = env (codes "OAUTH_REDIRECT_URL");
  sidecar_shared_secret = filled (env (codes "SIDECAR_SHARED_SECRET"));
  fail_open_on_redis_error =
      or_else (and_then (env (codes "AUTH_FAIL_OPEN_ON_REDIS_ERROR")) parse_bool) true;
  rate_limits = rate_limits_from_env env;
  cookie_secure = or_else (and_then (env (codes "COOKIE_SECURE")) parse_bool) true;
}

unfoldable pub from_env : Env → Option AuthConfig
unfolding with_secret
from_env env = elim (env (codes "JWT_SECRET")) [
  | none ↦ none
  | some secret ↦
      if is_empty secret || text_eq secret (codes "CHANGE_ME")
      then none
      else some (with_secret env secret)
]
