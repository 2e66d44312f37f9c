-- ===== src/Tests/Handlers.antt =====
-- The theorems on the middleware and the routes, for one user and one session.

use fullstackhex.Domain.Errors.{ApiError}
use fullstackhex.Auth.Config.{cookie, bearer}
use fullstackhex.Cache.Backoff.{backoff_increment}
use fullstackhex.Auth.Registration.{RegisterRequest, validate_registration}
use fullstackhex.Base.{
  arith, ℕ, suc, ◌/◌, ◌<◌, ◌≡◌, ◌≢◌, ◌⊎◌, refl, ap, subst, Bool, true, false, Text, codes, List, [],
  ◌∷◌, ◌++◌, Option, none, some, Result, ok, err, inl, inr, ap, subst,
}
use fullstackhex.Cache.Redis.{str}
use fullstackhex.Cache.Memory.{memory, empty, update}
use fullstackhex.Cache.Client.{make_key}
use fullstackhex.Cache.Session.{session_create, session_get, find_cached}
use fullstackhex.Cache.Store.{cache_get, refresh_token_rotate}
use fullstackhex.Auth.Util.{validate_csrf_token, IsBytes}
use fullstackhex.Auth.Cookies.{parse_cookie_value}
use fullstackhex.Auth.App.{App}
use fullstackhex.Auth.Request.{Request, get, post, is_public, cookie_auth_prepare, or_empty}
use fullstackhex.Auth.Blacklist.{blacklisted_in_process}
use fullstackhex.Auth.Middleware.{AuthUser, extract_bearer, auth_middleware}
use fullstackhex.Auth.Middleware.Sources.{ByToken, BySession}
use fullstackhex.Auth.Middleware.Identity.{auth_middleware_sound}
use fullstackhex.Auth.Middleware.Csrf.{cookie_auth_prepare-csrf}
use fullstackhex.Auth.Routes.Tokens.{TokenResponse}
use fullstackhex.Auth.Routes.Login.{authenticate, invalid_credentials}
use fullstackhex.Auth.Routes.Login.Laws.{authenticate-uniform, wrong_password}
use fullstackhex.Auth.Routes.Logout.{blacklist_token}
use fullstackhex.Auth.Routes.Password.{ResetPasswordRequest, reset_password, validate_reset}
use fullstackhex.Auth.Routes.Password.Laws.{reset_password_sound, Resets, Untouched}
use fullstackhex.Auth.Routes.Refresh.{take_token, bad_refresh_token}
use fullstackhex.Auth.Routes.Refresh.Laws.{refresh_token_once}
use fullstackhex.Auth.OauthState.{google, parse_stored_oauth_state, validate_oauth_state_match}
use fullstackhex.Auth.Routes.Oauth.{take_state}
use fullstackhex.Auth.Routes.Oauth.State.{oauth_state_once, expired}
use fullstackhex.Cache.Store.{cache_get_delete}
use fullstackhex.Tests.World.{to_json, platform, config, app, world, text_codec, alice}

abbrev pub prefix : Text
prefix = codes "fsh"

abbrev second : {A B : Type 0} → A × B → B
second (a, b) = b

-- A request with a bearer token, which is its own JTI.
abbrev pub by_bearer : Text → Request
by_bearer token = record {
  method = get;
  path = codes "/notes";
  authorization = some (codes "Bearer " ++ token);
  cookie_header = none;
  x_csrf_token = none;
}

abbrev pub bearer_user : Text → AuthUser
bearer_user token = record {
  user_id = codes "alice";
  email = codes "a@b";
  name = none;
  provider = codes "local";
  jti = token;
  session_id = none;
}

auth_middleware_sound_example :
    (is_public (codes "/notes") ≡ false)
    × (((config.auth_mode ≢ cookie)
          × ByToken platform config prefix (by_bearer (codes "j1")) 1000 (bearer_user (codes "j1")))
        ⊎ ((config.auth_mode ≢ bearer)
            × (true ≡ true)
            × BySession platform config prefix
                (by_bearer (codes "j1"))
                app
                (bearer_user (codes "j1"))))
unfolding auth_middleware is_public fullstackhex.Base.starts_with extract_bearer
    fullstackhex.Base.split_once fullstackhex.Base.eq_ignore_case fullstackhex.Base.trim_start
    blacklisted_in_process cache_get
auth_middleware_sound_example =
    auth_middleware_sound platform config prefix true (by_bearer (codes "j1")) app
      (auth_middleware platform config prefix true (by_bearer (codes "j1")) app).1
      (bearer_user (codes "j1")) refl

-- Five seconds after the token j1 was blacklisted.
abbrev logged_out : App platform
logged_out = (blacklist_token platform config prefix (codes "j1") app).1

abbrev five_later : App platform
five_later = record logged_out {
  cache = record logged_out.cache { db = memory.wait 5 logged_out.cache.db };
}

authenticate-uniform_example :
    authenticate platform config prefix (codes "ip") (codes "guess") (some alice) app ≡ (
      err invalid_credentials,
      record app {
        cache = (backoff_increment memory prefix (codes "ip") (codes "login") app.cache).1;
      },
    )
authenticate-uniform_example =
    authenticate-uniform platform config prefix (codes "ip") (codes "guess") (some alice) app
      (wrong_password alice (codes "hunter22") refl refl)

-- The user's refresh token and reset token in Redis.
abbrev holding : Text → App platform
holding kind = record app {
  cache = record world {
    db =
        update (make_key prefix kind (codes "t1"))
          (some (record { value = str (text_codec.encode (codes "alice")); ttl = some 9 })) empty;
  };
}

abbrev taken_once : App platform
taken_once = (take_token platform config prefix (codes "t1") (holding (codes "refresh"))).1

refresh_token_once_example :
    (take_token platform config prefix (codes "t1") taken_once).0 ≡ err (bad_refresh_token)
unfolding take_token refresh_token_rotate make_key
refresh_token_once_example =
    refresh_token_once platform config prefix (codes "t1") (codes "alice")
      (holding (codes "refresh")) taken_once taken_once refl refl refl refl

abbrev new_password : ResetPasswordRequest
new_password = record { token = codes "t1"; password = codes "hunter23" }

abbrev reset_done : App platform
reset_done = (reset_password platform config prefix new_password (holding (codes "reset"))).1

abbrev succeeded : Result ApiError (Unit {0})
succeeded = ok tt

reset_password_sound_example :
    Untouched platform config prefix (holding (codes "reset")) reset_done (ok tt)
    ⊎ ((rows : ℕ) × Resets platform config prefix new_password
          (holding (codes "reset"))
          rows
          reset_done.pg
        × ((succeeded ≢ ok tt) ⊎ (rows ≢ 0)))
unfolding reset_password make_key validate_reset fullstackhex.Auth.Registration.password_length
    cache_get fullstackhex.Auth.Routes.Tokens.hash_password fullstackhex.Cache.Store.cache_delete
    fullstackhex.Cache.Session.session_destroy_all_for_user
reset_password_sound_example =
    reset_password_sound platform config prefix new_password (holding (codes "reset")) reset_done
      (ok tt) refl refl

abbrev form : Request
form = record {
  method = post;
  path = codes "/notes";
  authorization = none;
  cookie_header = some (codes "session=s; csrf_token=t");
  x_csrf_token = some (codes "t");
}

cookie_auth_prepare-csrf_example :
    (c : Text) × (form.cookie_header ≡ some c)
    × (or_empty (parse_cookie_value c (codes "csrf_token")) ≢ [])
    × (or_empty (parse_cookie_value c (codes "csrf_token")) ≡ codes "t")
unfolding cookie_auth_prepare parse_cookie_value fullstackhex.Base.split
    fullstackhex.Base.strip_prefix fullstackhex.Base.trim validate_csrf_token
cookie_auth_prepare-csrf_example =
    cookie_auth_prepare-csrf form (codes "s") refl (omega arith, tt)
      (λ c e.
        subst (λ x. IsBytes (or_empty (parse_cookie_value x (codes "csrf_token")))) (ap or_empty e)
          (omega arith, tt))
      refl

-- The state of a redirect to Google without a session.
abbrev redirected : App platform
redirected = record app {
  cache = record world {
    db =
        update (make_key prefix (codes "oauth_csrf") (codes "st"))
          (some (record {
            value = str (text_codec.encode (to_json (codes "google") none));
            ttl = some 9;
          }))
          empty;
  };
}

abbrev called_back : App platform
called_back = (take_state platform config prefix google (codes "st") none redirected).1

oauth_state_once_example :
    (take_state platform config prefix google (codes "st") none called_back).0
    ≡ err (expired platform config prefix)
unfolding take_state cache_get_delete make_key parse_stored_oauth_state validate_oauth_state_match
oauth_state_once_example =
    oauth_state_once platform config prefix google google (codes "st") none none redirected
      called_back called_back refl refl refl refl
