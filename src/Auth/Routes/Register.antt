-- ===== src/Auth/Routes/Register.antt =====
-- `register` of backend/auth/src/routes.rs.
pub mod Laws
use fullstackhex.Base.{Bool, Text, codes, List, ◌++◌, Option, none, some, Result, ok, err}
use fullstackhex.Base.Exec.{pure, lift, ◌>>=◌, ◌>>◌}
use fullstackhex.Domain.Errors.{ApiError, conflict}
use fullstackhex.Auth.Config.{AuthConfig}
use fullstackhex.Auth.ClientIp.{HeaderMap, IpAddr, client_ip}
use fullstackhex.Auth.Registration.{RegisterRequest, validate_registration}
use fullstackhex.Auth.App.{Platform, AppM, UserRow, query}
use fullstackhex.Auth.Routes.Tokens.{
  TokenResponse, UserInfo, check_rate_limit, create_token, hash_password, new_refresh_token,
  new_session, auth_cookies, session_cookie, token_response,
}

abbrev pub taken : ApiError
taken = conflict (codes "Email already registered")

module _ (p : Platform) (config : AuthConfig) (prefix : Text) where
  abbrev refuse_existing : Option UserRow → Result ApiError (Unit {0})
  refuse_existing none = ok tt
  refuse_existing (some u) = err taken

  -- A unique violation is a registration that raced for the same email.
  abbrev inserted : Option Text → Result ApiError Text
  inserted none = err taken
  inserted (some id) = ok id

  -- The tokens, the cookies and the session of the new user.
  unfoldable pub welcome : UserInfo → AppM p (List Text × TokenResponse)
  welcome user = do
    access_token ← create_token p config prefix user
    refresh_token ← new_refresh_token p config prefix user.id
    (headers', csrf_token) ← auth_cookies p config prefix access_token refresh_token none
    session_id ← new_session p config prefix user
    headers'' ← session_cookie p config prefix headers' session_id
    pure (headers'', token_response p config prefix access_token refresh_token csrf_token user)

  -- The account, from the look for its e-mail address on.
  unfoldable pub open_account : RegisterRequest → AppM p (List Text × TokenResponse)
  unfolding welcome
  open_account body = do
    existing ← query p (λ d. (p.postgres.find_by_email d body.email, d))
    lift (refuse_existing existing)
    password_hash ← hash_password p config prefix body.password
    row ← query p (p.postgres.insert_local body.email body.name password_hash)
    id ← lift (inserted row)
    let user : UserInfo = record {
      id = id;
      email = body.email;
      name = body.name;
      provider = codes "local";
    }
    welcome user

  unfoldable pub register :
      Bool → HeaderMap → Option IpAddr → RegisterRequest → AppM p (List Text × TokenResponse)
  unfolding open_account
  register trust_proxy headers peer body = do
    let ip = client_ip p.show_ip trust_proxy headers peer
    check_rate_limit p config prefix (codes "register:" ++ ip)
        config.rate_limits.register_window_secs config.rate_limits.register_max
    lift (validate_registration body)
    open_account body
