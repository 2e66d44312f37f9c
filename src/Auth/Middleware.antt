-- ===== src/Auth/Middleware.antt =====
-- backend/auth/src/middleware.rs: who a request is from. The rest of the handler stack is left out:
-- the result is the `AuthUser` put into the request's extensions, or the refusal.
pub mod Csrf
pub mod Sources
pub mod Identity
pub mod Revoked
use fullstackhex.Auth.Request.{AuthRejection, put, Request, is_public, cookie_auth_prepare}
use fullstackhex.Auth.Blacklist.{Blacklist, blacklisted_in_process, cache_blacklisted}
use fullstackhex.Base.{
  ℕ, suc, ◌+◌, ◌*◌, ◌/◌, ◌<◌, ◌≡◌, Bool, true, false, ◌&&◌, ◌||◌, not, Text, codes, List, [], ◌∷◌,
  Option, none, some, text_eq, starts_with, split_once, eq_ignore_case, trim_start, is_empty, ltb,
  length, if◌then◌else◌, Result, ok, err, to_option,
}
use fullstackhex.Base.Exec.{Exec, pure, gets, lift, ◌>>=◌, ◌>>◌}
use fullstackhex.Domain.Errors.{ApiError, CacheError}
use fullstackhex.Cache.Client.{World, Session, call, execute, settle, make_key, string_of}
use fullstackhex.Cache.Store.{cache_get, Codec}
use fullstackhex.Cache.Session.{session_get}
use fullstackhex.Auth.Config.{AuthConfig, AuthMode, cookie, bearer, both}
use fullstackhex.Auth.Cookies.{parse_cookie_value}
use fullstackhex.Auth.Util.{validate_csrf_token}
use fullstackhex.Auth.App.{Platform, App, Claims, JwtError, cached}

pub record AuthUser : Type 0 where
  pub user_id : Text
  pub email : Text
  pub name : Option Text
  pub provider : Text
  pub jti : Text
  pub session_id : Option Text

module _ (p : Platform) (config : AuthConfig) (prefix : Text) where
  -- Nothing here fails but the refusal of a request.
  abbrev pub AuthM : Type 0 → Type 0
  AuthM A = Exec (App p) AuthRejection A

  abbrev now_secs : App p → ℕ
  now_secs s = s.cache.now_ms / 1000

  user_of_claims : Claims → AuthUser
  user_of_claims c = record {
    user_id = c.sub;
    email = c.email;
    name = c.name;
    provider = c.provider;
    jti = c.jti;
    session_id = none;
  }

  abbrev user_of_result : Result JwtError Claims → Option AuthUser
  user_of_result (err e) = none
  user_of_result (ok c) = some (user_of_claims c)

  abbrev bearer_token : Option Text → Option Text
  bearer_token none = none
  bearer_token (some value) = elim (split_once b' ' value) [
    | none ↦ none
    | some (scheme, token) ↦
        if eq_ignore_case scheme (codes "Bearer") then some (trim_start token) else none
  ]

  abbrev read_bearer : ℕ → Option Text → Option AuthUser
  read_bearer now none = none
  read_bearer now (some token) =
      user_of_result (p.read_claims config.jwt_secret config.jwt_issuer now token)

  unfoldable pub extract_bearer : ℕ → Request → Option AuthUser
  unfolding user_of_claims
  extract_bearer now req = read_bearer now (bearer_token req.authorization)

  unfoldable pub user_of_session : Text → Session → AuthUser
  user_of_session id s = record {
    user_id = s.user_id;
    email = s.email;
    name = s.name;
    provider = s.provider;
    jti = [];
    session_id = some id;
  }

  abbrev session_user :
      Text → Result CacheError Session × App p → Result AuthRejection (Option AuthUser) × App p
  session_user id (ok s, a) = (ok (some (user_of_session id s)), a)
  session_user id (err e, a) = (ok none, a)

  -- `.await.ok()?`: every error of the lookup means no user.
  unfoldable pub resolve_cookie_user : Text → AuthM (Option AuthUser)
  unfolding user_of_session
  resolve_cookie_user id s =
      session_user id (cached p (session_get p.redis prefix p.session_codec id) s)

  -- The user by cookie; Redis may not be configured.
  by_cookie : Bool → Option Text → AuthM (Option AuthUser)
  unfolding resolve_cookie_user
  by_cookie has_redis none = pure none
  by_cookie false (some id) = pure none
  by_cookie true (some id) = resolve_cookie_user id

  prepared : Bool → Request → AuthM (Option AuthUser)
  unfolding by_cookie
  prepared has_redis req = do session ← lift (cookie_auth_prepare req); by_cookie has_redis session

  identify : Bool → Request → AuthMode → Option AuthUser → AuthM (Option AuthUser)
  unfolding prepared
  identify has_redis req bearer bearer_user = pure bearer_user
  identify has_redis req both (some user) = pure (some user)
  identify has_redis req both none = prepared has_redis req
  identify has_redis req cookie bearer_user = prepared has_redis req

  -- What GET on the blacklist says: none for an error.
  abbrev pub blacklist_answer : Result CacheError (Option Bool) → Option Bool
  blacklist_answer (ok (some v)) = some v
  blacklist_answer (ok none) = some false
  blacklist_answer (err e) = none

  abbrev remember : AuthUser → App p → App p
  remember user s = if is_empty user.jti then s else record s {
    blacklist = cache_blacklisted user.jti (s.cache.now_ms + config.jwt_expiry * 1000) s.blacklist;
  }

  verdict : AuthUser → Option Bool → AuthM (Option AuthUser)
  verdict user (some true) s = (ok none, remember user s)
  verdict user (some false) s = (ok (some user), s)
  verdict user none s = (ok (if config.fail_open_on_redis_error then some user else none), s)

  abbrev ask_blacklist :
      AuthUser
      → Result CacheError (Option Bool) × App p
      → Result AuthRejection (Option AuthUser) × App p
  ask_blacklist user (r, s) = verdict user (blacklist_answer r) s

  redis_check : AuthUser → AuthM (Option AuthUser)
  unfolding verdict
  redis_check user s =
      ask_blacklist user
        (cached p (cache_get p.redis prefix p.bool_codec (codes "blacklist") user.jti) s)

  -- The fast path for a JTI that this process knows to be blacklisted.
  abbrev after_fast_path :
      AuthUser → Bool × Blacklist → App p → Result AuthRejection (Option AuthUser) × App p
  after_fast_path user (true, m) s = (ok none, record s { blacklist = m })
  after_fast_path user (false, m) s = redis_check user (record s { blacklist = m })

  pub check_blacklist : Bool → Option AuthUser → AuthM (Option AuthUser)
  unfolding redis_check
  check_blacklist has_redis none s = (ok none, s)
  check_blacklist false (some user) s = (ok (some user), s)
  check_blacklist true (some user) s =
      if is_empty user.jti
      then redis_check user s
      else after_fast_path user (blacklisted_in_process user.jti s.cache.now_ms s.blacklist) s

  -- The whole middleware: the user that the handlers see, if any, or the refusal.
  unfoldable pub auth_middleware : Bool → Request → AuthM (Option AuthUser)
  unfolding identify check_blacklist
  auth_middleware has_redis req = if is_public req.path then pure none else do
    now ← gets now_secs
    user ← identify has_redis req config.auth_mode (extract_bearer now req)
    check_blacklist has_redis user
