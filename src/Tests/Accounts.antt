-- ===== src/Tests/Accounts.antt =====
-- The theorems on registration and login, for one user and one newcomer.
use fullstackhex.Auth.Routes.Register.Laws.{register_sound}
use fullstackhex.Auth.Routes.Register.{register, open_account, welcome}
use fullstackhex.Auth.Registration.{RegisterRequest, validate_registration}
use fullstackhex.Base.{
  arith, ℕ, suc, ◌/◌, ◌<◌, ◌≡◌, ◌≢◌, ◌⊎◌, refl, ap, subst, Bool, true, false, Text, codes, List, [],
  ◌∷◌, ◌++◌, Option, none, some, Result, ok, err, inl, inr, ap, subst,
}
use fullstackhex.Domain.Errors.{ApiError}
use fullstackhex.Cache.Client.{make_key}
use fullstackhex.Cache.Backoff.{backoff_check}
use fullstackhex.Cache.RateLimit.{rate_limit_check}
use fullstackhex.Cache.Session.{session_create, session_get, find_cached}
use fullstackhex.Cache.Store.{cache_set}
use fullstackhex.Auth.Cookies.{parse_cookie_value, find_prefix, set_cookie, set_auth_cookies}
use fullstackhex.Auth.ClientIp.{client_ip, HeaderMap}
use fullstackhex.Auth.App.{App, UserRow}
use fullstackhex.Auth.Routes.Tokens.{TokenResponse}
use fullstackhex.Auth.Routes.Login.{
  LoginRequest, authenticate, invalid_credentials, login, throttle, issue,
}
use fullstackhex.Auth.Routes.Login.Laws.{login_sound}
use fullstackhex.Tests.World.{platform, config, app}
use fullstackhex.Tests.Handlers.{prefix}

abbrev headers : HeaderMap
headers = record { x_forwarded_for = none; x_real_ip = none }

abbrev credentials : LoginRequest
credentials = record { email = codes "a@b"; password = codes "hunter22" }

abbrev attempted : Result ApiError (List Text × TokenResponse) × App platform
attempted = login platform config prefix false headers none credentials app

abbrev nothing : TokenResponse
nothing = record {
  access_token = [];
  token_type = [];
  expires_in = 0;
  refresh_token = [];
  csrf_token = [];
  user = record { id = []; email = []; name = none; provider = [] };
}

abbrev given : Result ApiError (List Text × TokenResponse) → List Text × TokenResponse
given (ok r) = r
given (err e) = ([], nothing)

abbrev is_given : Result ApiError (List Text × TokenResponse) → Bool
is_given (ok r) = true
is_given (err e) = false

given_ok :
    (x : Result ApiError (List Text × TokenResponse) × App platform)
    → is_given x.0 ≡ true
    → x ≡ (ok ((given x.0).0, (given x.0).1), x.1)
given_ok (ok (cookies, r), t) h = refl
given_ok (err e, t) h = absurd (cc h)

attempted_ok : is_given attempted.0 ≡ true
unfolding login throttle fullstackhex.Auth.Routes.Login.backoff_verdict backoff_check
    fullstackhex.Auth.Routes.Tokens.check_rate_limit rate_limit_check
    fullstackhex.Cache.RateLimit.limit_script make_key client_ip authenticate
    fullstackhex.Auth.Routes.Tokens.verify_password issue
    fullstackhex.Auth.Routes.Tokens.create_token fullstackhex.Auth.Routes.Tokens.new_refresh_token
    cache_set fullstackhex.Auth.Routes.Tokens.auth_cookies set_auth_cookies
    fullstackhex.Auth.Routes.Tokens.new_session fullstackhex.Auth.Cookies.cookie_text set_cookie
    fullstackhex.Auth.Routes.Tokens.session_cookie fullstackhex.Cache.Backoff.backoff_script
    fullstackhex.Cache.Backoff.judge_backoff fullstackhex.Cache.RateLimit.eval_limit
    fullstackhex.Cache.Session.create_script session_create
attempted_ok = refl

login_sound_example :
    (row : UserRow) × (hash : Text) × (platform.postgres.find_by_email app.pg (codes "a@b")
      ≡ some row)
    × (row.password_hash ≡ some hash)
    × (platform.verify_hash (codes "hunter22") hash ≡ ok true)
login_sound_example =
    login_sound platform config prefix false headers none credentials app attempted.1
      (given attempted.0).0 (given attempted.0).1 (given_ok attempted attempted_ok)

abbrev newcomer : RegisterRequest
newcomer = record { email = codes "n@b"; password = codes "hunter23"; name = none }

abbrev registered : Result ApiError (List Text × TokenResponse) × App platform
registered = register platform config prefix false headers none newcomer app

registered_ok : is_given registered.0 ≡ true
unfolding register open_account welcome validate_registration
    fullstackhex.Auth.Routes.Tokens.hash_password fullstackhex.Auth.Routes.Tokens.check_rate_limit
    rate_limit_check fullstackhex.Cache.RateLimit.limit_script make_key client_ip
    fullstackhex.Auth.Routes.Tokens.create_token fullstackhex.Auth.Routes.Tokens.new_refresh_token
    cache_set fullstackhex.Auth.Routes.Tokens.auth_cookies set_auth_cookies
    fullstackhex.Auth.Routes.Tokens.new_session fullstackhex.Auth.Cookies.cookie_text set_cookie
    fullstackhex.Auth.Routes.Tokens.session_cookie fullstackhex.Cache.RateLimit.eval_limit
    fullstackhex.Cache.Session.create_script session_create fullstackhex.Base.contains
registered_ok = refl

register_sound_example :
    (validate_registration newcomer ≡ ok tt)
    × (platform.postgres.find_by_email app.pg (codes "n@b") ≡ none)
    × ((salt hash : Text) × (platform.hash_password salt (codes "hunter23") ≡ ok hash)
        × (platform.postgres.insert_local (codes "n@b") none hash app.pg
            ≡ (some (given registered.0).1.user.id, registered.1.pg)))
register_sound_example =
    register_sound platform config prefix false headers none newcomer app registered.1
      (given registered.0).0 (given registered.0).1 (given_ok registered registered_ok)
