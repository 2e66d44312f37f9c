-- ===== src/Auth/Routes/Refresh.antt =====
-- `refresh` of backend/auth/src/routes.rs.
pub mod Laws
use fullstackhex.Base.{
  ℕ, Bool, true, false, Text, codes, List, [], ◌∷◌, ◌++◌, Option, none, some, Result, ok, err,
  if◌then◌else◌, is_empty, ok_or, split, map_err,
}
use fullstackhex.Base.Exec.{Exec, pure, throw, lift, ◌>>=◌, ◌>>◌}
use fullstackhex.Domain.Errors.{ApiError, unauthorized, internal_error}
use fullstackhex.Cache.Store.{refresh_token_rotate}
use fullstackhex.Auth.Config.{AuthConfig}
use fullstackhex.Auth.Cookies.{find_prefix}
use fullstackhex.Auth.App.{Platform, App, AppM, UserRow, query, redis}
use fullstackhex.Auth.Routes.Tokens.{
  TokenResponse, UserInfo, create_token, new_refresh_token, auth_cookies, token_response,
}
use fullstackhex.Auth.Routes.Login.{invalid_credentials}

abbrev pub bad_refresh_token : ApiError
bad_refresh_token = unauthorized (codes "Invalid or expired refresh token")

abbrev in_cookie : Option Text → Option Text
in_cookie none = none
in_cookie (some cookies) = find_prefix (codes "refresh_token=") (split b';' cookies)

-- The token of the body if it is not empty, else that of the cookie.
unfoldable pub presented_token : Option Text → Option Text → Option Text
presented_token none cookie_header = in_cookie cookie_header
presented_token (some token) cookie_header =
    if is_empty token then in_cookie cookie_header else some token

module _ (p : Platform) (config : AuthConfig) (prefix : Text) where
  abbrev pub recreate : {A : Type 0} → Result ApiError A × App p → Result ApiError A × App p
  recreate (r, s) = (map_err (λ _. internal_error (codes "Failed to create token")) r, s)

  abbrev new_access_token : UserInfo → AppM p Text
  new_access_token user s = recreate (create_token p config prefix user s)

  abbrev pub info_of : UserRow → UserInfo
  info_of u = record { id = u.id; email = u.email; name = u.name; provider = u.provider }

  -- New tokens for the owner of a token that has been taken out of Redis.
  unfoldable pub renew : Text → AppM p (List Text × TokenResponse)
  renew owner = do
    row ← query p (λ d. (p.postgres.find_by_id d owner, d))
    u ← lift (ok_or row invalid_credentials)
    access_token ← new_access_token (info_of u)
    token ← new_refresh_token p config prefix u.id
    (headers, csrf_token) ← auth_cookies p config prefix access_token token none
    pure (headers, token_response p config prefix access_token token csrf_token (info_of u))

  -- The owner of a presented token, which is used up.
  unfoldable pub take_token : Text → AppM p Text
  take_token token = do
    owner ← redis p (refresh_token_rotate p.redis prefix p.text_codec token)
    lift (ok_or owner bad_refresh_token)

  unfoldable pub refresh : Option Text → Option Text → AppM p (List Text × TokenResponse)
  refresh body cookie_header = do
    token ← lift (ok_or (presented_token body cookie_header) bad_refresh_token)
    owner ← take_token token
    renew owner
