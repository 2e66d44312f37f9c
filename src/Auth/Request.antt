-- ===== src/Auth/Request.antt =====
-- The request that backend/auth/src/middleware.rs reads, the paths that it leaves alone and the CSRF
-- check of a request with a cookie.
use fullstackhex.Base.{
  Bool, true, false, ◌&&◌, ◌||◌, not, Text, codes, [], Option, none, some, text_eq, starts_with,
  if◌then◌else◌, Result, ok, err,
}
use fullstackhex.Auth.Cookies.{parse_cookie_value}
use fullstackhex.Auth.Util.{validate_csrf_token}

pub data AuthRejection : Type 0 where
  unauthorized forbidden : AuthRejection

pub data Method : Type 0 where
  get head options post put delete patch : Method

-- Header values are those that `to_str` gives.
pub record Request : Type 0 where
  pub method : Method
  pub path : Text
  pub authorization : Option Text
  pub cookie_header : Option Text
  pub x_csrf_token : Option Text

-- The paths that skip authentication.
unfoldable pub is_public : Text → Bool
is_public path =
    text_eq path (codes "/live")
    || (starts_with (codes "/health") path
        || (text_eq path (codes "/metrics")
            || (starts_with (codes "/metrics/") path
                || (text_eq path (codes "/auth/login")
                    || (text_eq path (codes "/auth/register")
                        || (text_eq path (codes "/auth/forgot-password")
                            || (text_eq path (codes "/auth/reset-password")
                                || (text_eq path (codes "/auth/refresh")
                                    || (text_eq path (codes "/auth/providers")
                                        || (text_eq path (codes "/auth/oauth/google")
                                            || (text_eq path (codes "/auth/oauth/github")
                                                || (text_eq path
                                                      (codes "/auth/oauth/google/callback")
                                                    || text_eq path (
                                                        codes
                                                          "/auth/oauth/github/callback")))))))))))))

abbrev pub changes_state : Method → Bool
changes_state post = true
changes_state put = true
changes_state delete = true
changes_state patch = true
changes_state _ = false

abbrev pub or_empty : Option Text → Text
or_empty none = []
or_empty (some t) = t

-- The CSRF check of a request with a session cookie.
unfoldable pub check_csrf : Request → Text → Text → Result AuthRejection (Option Text)
check_csrf req cookie_header session_id =
    if changes_state req.method
      && not (
          validate_csrf_token (or_empty (parse_cookie_value cookie_header (codes "csrf_token")))
            (or_empty req.x_csrf_token))
    then err forbidden
    else ok (some session_id)

unfoldable pub session_of : Request → Text → Option Text → Result AuthRejection (Option Text)
unfolding check_csrf
session_of req cookie_header none = ok none
session_of req cookie_header (some session_id) = check_csrf req cookie_header session_id

unfoldable pub cookies_of : Request → Option Text → Result AuthRejection (Option Text)
unfolding session_of
cookies_of req none = ok none
cookies_of req (some c) = session_of req c (parse_cookie_value c (codes "session"))

unfoldable pub cookie_auth_prepare : Request → Result AuthRejection (Option Text)
unfolding cookies_of
cookie_auth_prepare req = cookies_of req req.cookie_header
