-- ===== src/Auth/Provider.antt =====
-- `OAuthService` of backend/auth/src/oauth.rs. The OAuth2 library, the HTTP client and the readers of
-- the JSON answers are parameters; the calls that a run makes come one after the other.
pub mod Laws
use fullstackhex.Base.{
  ℕ, suc, pos, negsuc, Bool, true, false, ◌&&◌, Text, codes, List, [], ◌∷◌, ◌++◌, Option, none,
  some, Result, ok, err, ok_or, map_err, fail_if, not, leb, ltb, ◌>>=◌, ◌>>◌, decimal, ℤ,
  if◌then◌else◌,
}
use fullstackhex.Domain.Errors.{ApiError, internal_error, service_unavailable}
use fullstackhex.Auth.OauthState.{OAuthProvider, google, git_hub}

-- `OAuthUserInfo`
pub record OAuthUserInfo : Type 0 where
  pub provider : OAuthProvider
  pub provider_id : Text
  pub email : Text
  pub name : Option Text

pub record GoogleUserInfo : Type 0 where
  pub id : Text
  pub email : Text
  pub name : Option Text

pub record GitHubUser : Type 0 where
  pub id : ℤ
  pub login : Text
  pub email : Option Text
  pub name : Option Text

pub record GitHubEmail : Type 0 where
  pub email : Text
  pub primary : Bool

-- `i64::to_string`
unfoldable pub show_i64 : ℤ → Text
show_i64 (pos n) = decimal n
show_i64 (negsuc n) = b'-' ∷ decimal (suc n)

-- The client of a provider: its id, its secret and its two endpoints.
pub record ConfiguredClient : Type 0 where
  pub client_id : Text
  pub client_secret : Text
  pub auth_uri : Text
  pub token_uri : Text

pub record OAuthService : Type 0 where
  pub google_client : Option ConfiguredClient
  pub github_client : Option ConfiguredClient

pub record HttpResponse : Type 0 where
  pub status : ℕ
  pub body : Text

pub record Web : Type 0 where
  -- `authorize_url` with the redirect URL and the scope, for a drawn state; `RedirectUrl::new`.
  pub authorize_url : ConfiguredClient → Text → Text → Text → Text
  pub redirect_url : Text → Result Text Text
  -- The exchange of a code for an access token.
  pub exchange_code : ConfiguredClient → Text → Result Text Text
  -- GET of a URL with headers.
  pub get : Text → List (Text × Text) → Result Text HttpResponse
  pub show_status : ℕ → Text
  pub read_google_user : Text → Result Text GoogleUserInfo
  pub read_github_user : Text → Result Text GitHubUser
  pub read_github_emails : Text → Result Text (List GitHubEmail)

-- `id.zip(secret).map(..)`
abbrev zipped : Option Text → Option Text → Text → Text → Option ConfiguredClient
zipped (some id) (some secret) auth_uri token_uri =
    some (record {
      client_id = id;
      client_secret = secret;
      auth_uri = auth_uri;
      token_uri = token_uri;
    })
zipped (some id) none auth_uri token_uri = none
zipped none secret auth_uri token_uri = none

unfoldable pub new : Option Text → Option Text → Option Text → Option Text → OAuthService
new google_client_id google_client_secret github_client_id github_client_secret = record {
  google_client =
      zipped google_client_id google_client_secret
        (codes "https://accounts.google.com/o/oauth2/v2/auth")
        (codes "https://www.googleapis.com/oauth2/v3/token");
  github_client =
      zipped github_client_id github_client_secret
        (codes "https://github.com/login/oauth/authorize")
        (codes "https://github.com/login/oauth/access_token");
}

abbrev is_some : {A : Type 0} → Option A → Bool
is_some none = false
is_some (some a) = true

unfoldable pub is_configured : OAuthService → OAuthProvider → Bool
is_configured s google = is_some s.google_client
is_configured s git_hub = is_some s.github_client

unfoldable pub get_client : OAuthService → OAuthProvider → Result ApiError ConfiguredClient
get_client s google =
    ok_or s.google_client (service_unavailable (codes "Google OAuth not configured"))
get_client s git_hub =
    ok_or s.github_client (service_unavailable (codes "GitHub OAuth not configured"))

abbrev scope_of : OAuthProvider → Text
scope_of google = codes "email"
scope_of git_hub = codes "user:email"

-- `StatusCode::is_success`
abbrev pub is_success : ℕ → Bool
is_success n = leb 200 n && ltb n 300

module _ (web : Web) where
  -- The URL and the state; `csrf` is the text that `CsrfToken::new_random` draws.
  unfoldable pub get_redirect_url :
      OAuthService → OAuthProvider → Text → Text → Result ApiError (Text × Text)
  unfolding get_client
  get_redirect_url s provider redirect csrf = do
    client ← get_client s provider
    url ←
        map_err (λ e. internal_error (codes "Invalid redirect URL: " ++ e))
          (web.redirect_url redirect)
    ok (web.authorize_url client url (scope_of provider) csrf, csrf)

  abbrev pub bearer : Text → Text × Text
  bearer access_token = (codes "Authorization", codes "Bearer " ++ access_token)

  -- A GET that must be answered by a success, and whose body must read.
  unfoldable pub fetch :
      {A : Type 0}
      → Text
      → Text
      → Text
      → Text
      → List (Text × Text)
      → (Text → Result Text A)
      → Result ApiError A
  fetch request_failed refused parse_failed url headers read = do
    resp ← map_err (λ e. internal_error (request_failed ++ e)) (web.get url headers)
    fail_if (not (is_success resp.status)) (internal_error (refused ++ web.show_status resp.status))
    map_err (λ e. internal_error (parse_failed ++ e)) (read resp.body)

  abbrev pub agent : Text × Text
  agent = (codes "User-Agent", codes "fullstackhex")

  unfoldable pub google_user : Text → Result ApiError GoogleUserInfo
  unfolding fetch
  google_user access_token =
      fetch (codes "Google userinfo request failed: ") (codes "Google userinfo failed: HTTP ")
        (codes "Google userinfo parse failed: ")
        (codes "https://www.googleapis.com/oauth2/v2/userinfo") (bearer access_token ∷ [])
        web.read_google_user

  unfoldable pub github_user : Text → Result ApiError GitHubUser
  unfolding fetch
  github_user access_token =
      fetch (codes "GitHub user request failed: ") (codes "GitHub user failed: HTTP ")
        (codes "GitHub user parse failed: ") (codes "https://api.github.com/user")
        (bearer access_token ∷ agent ∷ []) web.read_github_user

  unfoldable pub github_emails : Text → Result ApiError (List GitHubEmail)
  unfolding fetch
  github_emails access_token =
      fetch (codes "GitHub email request failed: ") (codes "GitHub email request failed: HTTP ")
        (codes "GitHub email parse failed: ") (codes "https://api.github.com/user/emails")
        (bearer access_token ∷ agent ∷ []) web.read_github_emails

  unfoldable pub fetch_google_user_info : Text → Result ApiError OAuthUserInfo
  unfolding google_user
  fetch_google_user_info access_token = do
    data_ ← google_user access_token
    ok (record {
      provider = google;
      provider_id = data_.id;
      email = data_.email;
      name = data_.name;
    })

  abbrev pub first_primary : List GitHubEmail → Option Text
  first_primary [] = none
  first_primary (e ∷ es) = if e.primary then some e.email else first_primary es

  unfoldable pub fetch_github_primary_email : Text → Result ApiError (Option Text)
  unfolding github_emails
  fetch_github_primary_email access_token = do
    emails ← github_emails access_token
    ok (first_primary emails)

  abbrev pub no_email : ApiError
  no_email = internal_error (
      codes "GitHub email not available "
      ++ (0xE2 ∷ 0x80 ∷ 0x94 ∷ codes " make sure user:email scope is granted"))

  -- The public address, or else the primary one.
  unfoldable pub github_email : Text → Option Text → Result ApiError Text
  unfolding fetch_github_primary_email
  github_email access_token (some e) = ok e
  github_email access_token none = do
    found ← fetch_github_primary_email access_token
    ok_or found no_email

  abbrev pub or_login : Option Text → Text → Text
  or_login (some n) login = n
  or_login none login = login

  unfoldable pub fetch_github_user_info : Text → Result ApiError OAuthUserInfo
  unfolding github_user github_email show_i64
  fetch_github_user_info access_token = do
    user ← github_user access_token
    email ← github_email access_token user.email
    ok (record {
      provider = git_hub;
      provider_id = show_i64 user.id;
      email = email;
      name = some (or_login user.name user.login);
    })

  unfoldable pub fetch_user_info : OAuthProvider → Text → Result ApiError OAuthUserInfo
  unfolding fetch_google_user_info fetch_github_user_info
  fetch_user_info google access_token = fetch_google_user_info access_token
  fetch_user_info git_hub access_token = fetch_github_user_info access_token

  unfoldable pub exchange_code : OAuthService → OAuthProvider → Text → Result ApiError OAuthUserInfo
  unfolding get_client fetch_user_info
  exchange_code s provider code = do
    client ← get_client s provider
    access_token ←
        map_err (λ e. internal_error (codes "Token exchange failed: " ++ e))
          (web.exchange_code client code)
    fetch_user_info provider access_token
