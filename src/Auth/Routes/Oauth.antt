-- ===== src/Auth/Routes/Oauth.antt =====
-- `oauth_redirect`, `oauth_callback` and `list_providers` of backend/auth/src/routes.rs. The
-- provider's service and JSON are parameters of the platform.
pub mod State
use fullstackhex.Base.{
  Bool, true, false, not, Text, codes, List, [], ◌∷◌, ◌++◌, Option, none, some, Result, err,
  if◌then◌else◌, ok_or, split, map_err, fail_if,
}
use fullstackhex.Base.Exec.{pure, lift, ◌>>=◌, ◌>>◌}
use fullstackhex.Domain.Errors.{ApiError, unauthorized, internal_error, service_unavailable}
use fullstackhex.Cache.Store.{cache_set, cache_get_delete}
use fullstackhex.Auth.Config.{AuthConfig}
use fullstackhex.Auth.Cookies.{find_prefix}
use fullstackhex.Auth.ClientIp.{HeaderMap, IpAddr, client_ip}
use fullstackhex.Auth.OauthState.{
  OAuthProvider, google, git_hub, show_provider, parse_provider, parse_stored_oauth_state,
  validate_oauth_state_match,
}
use fullstackhex.Auth.App.{Platform, AppM, OAuthUserInfo, query, redis, new_uuid, new_csrf_state}
use fullstackhex.Auth.Routes.Tokens.{
  TokenResponse, UserInfo, check_rate_limit, create_token, new_refresh_token, new_session,
  auth_cookies, token_response,
}

abbrev named : Option Text → Text → List Text
named none name = []
named (some id) name = name ∷ []

unfoldable pub list_providers : AuthConfig → List Text
list_providers config =
    named config.google_client_id (codes "google") ++ named config.github_client_id (codes "github")

abbrev session_in : Option Text → Option Text
session_in none = none
session_in (some cookies) = find_prefix (codes "session=") (split b';' cookies)

module _ (p : Platform) (config : AuthConfig) (prefix : Text) where
  abbrev paired : Option Text → Option Text → Bool
  paired (some a) (some b) = true
  paired (some a) none = false
  paired none b = false

  -- `OAuthService::is_configured`: both halves of the credentials are there.
  unfoldable pub is_configured : OAuthProvider → Bool
  is_configured google = paired config.google_client_id config.google_client_secret
  is_configured git_hub = paired config.github_client_id config.github_client_secret

  -- The location of the redirect.
  unfoldable pub oauth_redirect : Option Text → Text → AppM p Text
  oauth_redirect cookie_header name = do
    provider ← lift (parse_provider name)
    lift (
        fail_if (not (is_configured provider))
          (service_unavailable (show_provider provider ++ codes " OAuth not configured")))
    redirect_url ← lift (
        ok_or config.oauth_redirect_url
          (internal_error (codes "OAUTH_REDIRECT_URL not configured")))
    csrf ← new_csrf_state p
    redis p (
        cache_set p.redis prefix p.text_codec (codes "oauth_csrf") csrf
          (p.to_json (show_provider provider) (session_in cookie_header)) 600)
    pure (p.authorize_url provider redirect_url csrf)

  abbrev exchange : OAuthProvider → Text → Result ApiError OAuthUserInfo
  exchange provider code =
      map_err (λ _. unauthorized (codes "OAuth authentication failed"))
        (if is_configured provider
          then p.exchange_code provider code
          else err (service_unavailable (codes "OAuth not configured")))

  -- Tokens, session and cookies for the provider's user.
  unfoldable pub sign_in : OAuthProvider → OAuthUserInfo → AppM p (List Text × TokenResponse)
  sign_in provider info = do
    id ← new_uuid p
    user_id ← query p (p.postgres.upsert_oauth id info.email info.name (show_provider provider))
    let user : UserInfo = record {
      id = user_id;
      email = info.email;
      name = info.name;
      provider = show_provider provider;
    }
    access_token ← create_token p config prefix user
    refresh_token ← new_refresh_token p config prefix user_id
    session_id ← new_session p config prefix user
    (headers, csrf_token) ←
        auth_cookies p config prefix access_token refresh_token (some session_id)
    pure (headers, token_response p config prefix access_token refresh_token csrf_token user)

  -- The stored state is taken out of Redis before anything else is looked at.
  unfoldable pub take_state : OAuthProvider → Text → Option Text → AppM p (Unit {0})
  take_state provider state cookie_header = do
    found ← redis p (cache_get_delete p.redis prefix p.text_codec (codes "oauth_csrf") state)
    stored ← lift (ok_or found (unauthorized (codes "Invalid or expired OAuth state")))
    parsed ← lift (parse_stored_oauth_state p.from_json stored)
    lift (validate_oauth_state_match parsed (show_provider provider) (session_in cookie_header))

  unfoldable pub oauth_callback :
      Bool
      → HeaderMap
      → Option IpAddr
      → Option Text
      → Text
      → Text
      → Text
      → AppM p (List Text × TokenResponse)
  oauth_callback trust_proxy headers peer cookie_header name code state = do
    provider ← lift (parse_provider name)
    let ip = client_ip p.show_ip trust_proxy headers peer
    check_rate_limit p config prefix (codes "oauth_callback:" ++ ip)
        config.rate_limits.oauth_callback_window_secs config.rate_limits.oauth_callback_max
    take_state provider state cookie_header
    info ← lift (exchange provider code)
    sign_in provider info
