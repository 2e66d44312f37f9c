-- ===== src/Auth/Routes/Login.antt =====
-- `login` of backend/auth/src/routes.rs. The three checks that it runs concurrently are on keys of
-- their own, and all three are made whatever they say: one order stands for all.
pub mod Laws
use fullstackhex.Base.{
  ℕ, Bool, true, false, Text, codes, decimal, List, [], ◌++◌, Option, none, some, Result, ok, err,
}
use fullstackhex.Base.Exec.{Exec, pure, throw, lift, ◌>>=◌, ◌>>◌}
use fullstackhex.Domain.Errors.{
  ApiError, unauthorized, rate_limited, internal_error, CacheError, not_configured,
  connection_failed, command_failed, serialization_failed, session_not_found, rate_limit_exceeded,
  backoff_blocked,
}
use fullstackhex.Cache.Backoff.{backoff_check, backoff_increment}
use fullstackhex.Auth.Config.{AuthConfig}
use fullstackhex.Auth.ClientIp.{HeaderMap, IpAddr, client_ip}
use fullstackhex.Auth.App.{Platform, App, AppM, UserRow, query, attempt, cached, as_value}
use fullstackhex.Auth.Routes.Tokens.{
  TokenResponse, UserInfo, check_rate_limit, create_token, verify_password, new_refresh_token,
  new_session, auth_cookies, session_cookie, token_response,
}

pub record LoginRequest : Type 0 where
  pub email : Text
  pub password : Text

abbrev pub invalid_credentials : ApiError
invalid_credentials = unauthorized (codes "Invalid credentials")

-- `CacheError` as `{}` prints it.
abbrev pub show_error : CacheError → Text
show_error not_configured = codes "redis not configured"
show_error (connection_failed msg) = codes "redis connection failed: " ++ msg
show_error (command_failed e) = codes "redis command failed: " ++ e
show_error (serialization_failed msg) = codes "serialization failed: " ++ msg
show_error session_not_found = codes "session not found"
show_error rate_limit_exceeded = codes "rate limit exceeded"
show_error (backoff_blocked remaining_secs count label) =
    codes "backoff blocked: "
    ++ (decimal count
        ++ (codes " failures, "
            ++ (label ++ (codes " cooldown, " ++ (decimal remaining_secs ++ codes "s remaining")))))

-- The answer to the result of the backoff check.
unfoldable pub backoff_verdict : Result CacheError (Unit {0}) → Result ApiError (Unit {0})
backoff_verdict (ok _) = ok tt
backoff_verdict (err (backoff_blocked remaining_secs count label)) = err (
    rate_limited (
      codes "Too many login attempts ("
      ++ (decimal count
          ++ (codes " failures). Try again in "
              ++ (decimal remaining_secs
                  ++ (codes " seconds (" ++ (label ++ codes " cooldown).")))))))
backoff_verdict (err e) = err (internal_error (codes "Backoff check failed: " ++ show_error e))

module _ (p : Platform) (config : AuthConfig) (prefix : Text) where
  -- A failed login is recorded; that this may fail is only logged.
  verified : Text → UserRow → Bool → AppM p UserRow
  verified ip u true = pure u
  verified ip u false = do
    _ ← attempt p (cached p (backoff_increment p.redis prefix ip (codes "login")))
    throw invalid_credentials

  check_hash : Text → Text → UserRow → Option Text → AppM p UserRow
  unfolding verified
  check_hash ip password u none = do
    _ ← attempt p (cached p (backoff_increment p.redis prefix ip (codes "login")))
    throw invalid_credentials
  check_hash ip password u (some hash) = do
    matches ← lift (verify_password p config prefix password hash)
    verified ip u matches

  -- The user that was found, if the password matches.
  unfoldable pub authenticate : Text → Text → Option UserRow → AppM p UserRow
  unfolding check_hash
  authenticate ip password none = do
    _ ← attempt p (cached p (backoff_increment p.redis prefix ip (codes "login")))
    throw invalid_credentials
  authenticate ip password (some u) = check_hash ip password u u.password_hash

  unfoldable pub throttle : Text → LoginRequest → AppM p (Unit {0})
  throttle ip body = do
    backoff ← attempt p (cached p (backoff_check p.redis prefix ip (codes "login")))
    email_limit ← attempt p (
        check_rate_limit p config prefix (codes "login:email:" ++ body.email)
          config.rate_limits.login_email_window_secs config.rate_limits.login_email_max)
    ip_limit ← attempt p (
        check_rate_limit p config prefix (codes "login:ip:" ++ ip)
          config.rate_limits.login_ip_window_secs config.rate_limits.login_ip_max)
    lift (backoff_verdict backoff)
    lift email_limit
    lift ip_limit

  -- Tokens, cookies and the session for an authenticated user.
  unfoldable pub issue : UserRow → AppM p (List Text × TokenResponse)
  issue row = do
    let user : UserInfo = record {
      id = row.id;
      email = row.email;
      name = row.name;
      provider = row.provider;
    }
    access_token ← create_token p config prefix user
    refresh_token ← new_refresh_token p config prefix user.id
    (headers, csrf_token) ← auth_cookies p config prefix access_token refresh_token none
    session_id ← new_session p config prefix user
    headers' ← session_cookie p config prefix headers session_id
    pure (headers', token_response p config prefix access_token refresh_token csrf_token user)

  unfoldable pub login :
      Bool → HeaderMap → Option IpAddr → LoginRequest → AppM p (List Text × TokenResponse)
  login trust_proxy headers peer body = do
    let ip = client_ip p.show_ip trust_proxy headers peer
    throttle ip body
    found ← query p (λ d. (p.postgres.find_by_email d body.email, d))
    row ← authenticate ip body.password found
    issue row
