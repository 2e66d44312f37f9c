-- ===== src/Auth/Middleware/Csrf.antt =====
-- The CSRF check of backend/auth/src/middleware.rs.
use fullstackhex.Base.{
  ◌≡◌, ◌≢◌, inl, inr, refl, true, Text, codes, [], Option, none, some, ok, Bool-cases,
}
use fullstackhex.Auth.Cookies.{parse_cookie_value}
use fullstackhex.Auth.Util.{validate_csrf_token, validate_csrf_token_iff, IsBytes}
use fullstackhex.Auth.Request.{
  Request, cookie_auth_prepare, session_of, cookies_of, check_csrf, changes_state, or_empty,
}

check_csrf-ok :
    (req : Request) (c id jd : Text)
    → changes_state req.method ≡ true
    → check_csrf req c id ≡ ok (some jd)
    → validate_csrf_token
        (or_empty (parse_cookie_value c (codes "csrf_token")))
        (or_empty req.x_csrf_token)
      ≡ true
unfolding check_csrf
check_csrf-ok req c id jd m h =
    elim (Bool-cases (
      validate_csrf_token (or_empty (parse_cookie_value c (codes "csrf_token")))
        (or_empty req.x_csrf_token))) [ inl v ↦ v | inr v ↦ absurd (cc (rw (m, v) at h)) ]

session_of-ok :
    (req : Request) (c id : Text) (session : Option Text)
    → changes_state req.method ≡ true
    → session_of req c session ≡ ok (some id)
    → validate_csrf_token
        (or_empty (parse_cookie_value c (codes "csrf_token")))
        (or_empty req.x_csrf_token)
      ≡ true
unfolding session_of
session_of-ok req c id none m h = absurd (cc h)
session_of-ok req c id (some jd) m h = check_csrf-ok req c jd id m h

cookies_of-ok :
    (req : Request) (id : Text) (header : Option Text)
    → changes_state req.method ≡ true
    → cookies_of req header ≡ ok (some id)
    → (c : Text) × (header ≡ some c)
      × (validate_csrf_token
            (or_empty (parse_cookie_value c (codes "csrf_token")))
            (or_empty req.x_csrf_token)
          ≡ true)
unfolding cookies_of
cookies_of-ok req id none m h = absurd (cc h)
cookies_of-ok req id (some c) m h = (c, refl, session_of-ok req c id _ m h)

-- A request that changes state passes the cookie check with a session only if it has a Cookie
-- header whose CSRF token is not empty and is the very token of its X-CSRF-Token header.
pub cookie_auth_prepare-csrf :
    (req : Request) (id : Text)
    → changes_state req.method ≡ true
    → IsBytes (or_empty req.x_csrf_token)
    → ((c : Text)
        → req.cookie_header ≡ some c
        → IsBytes (or_empty (parse_cookie_value c (codes "csrf_token"))))
    → cookie_auth_prepare req ≡ ok (some id)
    → (c : Text) × (req.cookie_header ≡ some c)
      × ((or_empty (parse_cookie_value c (codes "csrf_token"))) ≢ [])
      × (or_empty (parse_cookie_value c (codes "csrf_token")) ≡ or_empty req.x_csrf_token)
unfolding cookie_auth_prepare
cookie_auth_prepare-csrf req id m bx bc h =
    let (c, e, v) = cookies_of-ok req id req.cookie_header m h in
    let both_same = (validate_csrf_token_iff _ _ (bc c e) bx).0 v in
    (c, e, both_same.0, both_same.1)
