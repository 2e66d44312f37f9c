-- ===== src/Auth/Middleware/Sources.antt =====
-- The two sources of a user in backend/auth/src/middleware.rs: a bearer token and a stored session.
use fullstackhex.Base.{
  ℕ, ◌≡◌, ◌∙◌, inl, inr, refl, sym, ap, true, not, ◌&&◌, Text, codes, [], Option, none, some, ok,
  Bool-cases, Option-cases, Result-cases, split_once, eq_ignore_case, trim_start,
}
use fullstackhex.Cache.Client.{Session}
use fullstackhex.Cache.Session.{session_get}
use fullstackhex.Auth.Cookies.{parse_cookie_value}
use fullstackhex.Auth.Util.{validate_csrf_token}
use fullstackhex.Auth.Config.{AuthConfig}
use fullstackhex.Auth.App.{Platform, App, Claims}
use fullstackhex.Auth.Request.{
  changes_state, or_empty, check_csrf, session_of, cookies_of, Request, cookie_auth_prepare,
}
use fullstackhex.Auth.Middleware.{
  bearer_token, read_bearer, user_of_claims, user_of_session, AuthUser, extract_bearer,
  resolve_cookie_user,
}

module _ (p : Platform) (config : AuthConfig) (prefix : Text) where
  -- The user of a bearer token that verifies at a time, field by field.
  abbrev pub ByToken : Request → ℕ → AuthUser → Type 0
  ByToken req now u =
      (header scheme rest : Text) × (c : Claims) × (req.authorization ≡ some header)
      × (split_once b' ' header ≡ some (scheme, rest))
      × (eq_ignore_case scheme (codes "Bearer") ≡ true)
      × (p.read_claims config.jwt_secret config.jwt_issuer now (trim_start rest) ≡ ok c)
      × (u.user_id ≡ c.sub)
      × (u.email ≡ c.email)
      × (u.name ≡ c.name)
      × (u.provider ≡ c.provider)
      × (u.jti ≡ c.jti)
      × (u.session_id ≡ none)

  -- The owner of the stored session that a request's cookie names, field by field.
  abbrev pub BySession : Request → App p → AuthUser → Type 0
  BySession req s u =
      (cookies id : Text) × (session : Session) × (req.cookie_header ≡ some cookies)
      × (parse_cookie_value cookies (codes "session") ≡ some id)
      × (cookie_auth_prepare req ≡ ok (some id))
      × ((session_get p.redis prefix p.session_codec id s.cache).0 ≡ ok session)
      × (u.user_id ≡ session.user_id)
      × (u.email ≡ session.email)
      × (u.name ≡ session.name)
      × (u.provider ≡ session.provider)
      × (u.jti ≡ [])
      × (u.session_id ≡ some id)

  bearer_token-ok :
      (value : Option Text) (token : Text)
      → bearer_token p config prefix value ≡ some token
      → (header scheme rest : Text) × (value ≡ some header)
        × (split_once b' ' header ≡ some (scheme, rest))
        × (eq_ignore_case scheme (codes "Bearer") ≡ true)
        × (trim_start rest ≡ token)
  bearer_token-ok none token h = absurd (cc h)
  bearer_token-ok (some header) token h = elim (Option-cases (split_once b' ' header)) [
    | inl e ↦ absurd (cc (rw (bearer_token, e) at h))
    | inr ((scheme, rest), e) ↦ elim (Bool-cases (eq_ignore_case scheme (codes "Bearer"))) [
      | inl g ↦ (header, scheme, rest, refl, e, g, cc (rw (bearer_token, e, g) at h))
      | inr g ↦ absurd (cc (rw (bearer_token, e, g) at h))
    ]
  ]

  read_bearer-ok :
      (now : ℕ) (token : Option Text) (u : AuthUser)
      → read_bearer p config prefix now token ≡ some u
      → (x : Text) × (c : Claims) × (token ≡ some x)
        × (p.read_claims config.jwt_secret config.jwt_issuer now x ≡ ok c)
        × (user_of_claims p config prefix c ≡ u)
  read_bearer-ok now none u h = absurd (cc h)
  read_bearer-ok now (some x) u h =
      elim (Result-cases (p.read_claims config.jwt_secret config.jwt_issuer now x)) [
        | inl (c, e) ↦ (x, c, refl, e, cc (rw e at h))
        | inr (y, e) ↦ absurd (cc (rw e at h))
      ]

  pub extract_bearer-ok :
      (now : ℕ) (req : Request) (u : AuthUser)
      → extract_bearer p config prefix now req ≡ some u
      → ByToken req now u
  unfolding extract_bearer user_of_claims
  extract_bearer-ok now req u h =
      let (x, c, is_token, verified, user) =
        read_bearer-ok now (bearer_token p config prefix req.authorization) u h in
      let (header, scheme, rest, given, cut, is_bearer, same) =
        bearer_token-ok req.authorization x is_token in
      (
        header,
        scheme,
        rest,
        c,
        given,
        cut,
        is_bearer,
        ap (p.read_claims config.jwt_secret config.jwt_issuer now) same ∙ verified,
        ap (λ v. v.user_id) (sym user),
        ap (λ v. v.email) (sym user),
        ap (λ v. v.name) (sym user),
        ap (λ v. v.provider) (sym user),
        ap (λ v. v.jti) (sym user),
        ap (λ v. v.session_id) (sym user),
      )

  session_of-id :
      (req : Request) (cookies : Text) (found : Option Text) (id : Text)
      → session_of req cookies found ≡ ok (some id)
      → found ≡ some id
  unfolding session_of check_csrf
  session_of-id req cookies none id h = absurd (cc h)
  session_of-id req cookies (some jd) id h =
      elim (Bool-cases (
        changes_state req.method
        && not (
            validate_csrf_token (or_empty (parse_cookie_value cookies (codes "csrf_token")))
              (or_empty req.x_csrf_token)))) [
                | inl e ↦ absurd (cc (rw e at h))
                | inr e ↦ cc (rw e at h)
              ]

  cookies_of-id :
      (req : Request) (header : Option Text) (id : Text)
      → cookies_of req header ≡ ok (some id)
      → (cookies : Text) × (header ≡ some cookies)
        × (parse_cookie_value cookies (codes "session") ≡ some id)
  unfolding cookies_of
  cookies_of-id req none id h = absurd (cc h)
  cookies_of-id req (some c) id h = (c, refl, session_of-id req c _ id h)

  cookie_auth_prepare-id :
      (req : Request) (id : Text)
      → cookie_auth_prepare req ≡ ok (some id)
      → (cookies : Text) × (req.cookie_header ≡ some cookies)
        × (parse_cookie_value cookies (codes "session") ≡ some id)
  unfolding cookie_auth_prepare
  cookie_auth_prepare-id req id h = cookies_of-id req req.cookie_header id h

  resolve-ok :
      (id : Text) (s t : App p) (u : AuthUser)
      → resolve_cookie_user p config prefix id s ≡ (ok (some u), t)
      → (session : Session) × ((session_get p.redis prefix p.session_codec id s.cache).0
          ≡ ok session)
        × (user_of_session p config prefix id session ≡ u)
  unfolding resolve_cookie_user
  resolve-ok id s t u h =
      elim (Result-cases (session_get p.redis prefix p.session_codec id s.cache).0) [
        | inl (session, e) ↦ (session, e, cc (rw e at h))
        | inr (x, e) ↦ absurd (cc (rw e at h))
      ]

  pub session_owner :
      (req : Request) (id : Text) (s t : App p) (u : AuthUser)
      → cookie_auth_prepare req ≡ ok (some id)
      → resolve_cookie_user p config prefix id s ≡ (ok (some u), t)
      → BySession req s u
  unfolding user_of_session
  session_owner req id s t u q h =
      let (cookies, given, named) = cookie_auth_prepare-id req id q in
      let (session, stored, user) = resolve-ok id s t u h in
      (
        cookies,
        id,
        session,
        given,
        named,
        q,
        stored,
        ap (λ v. v.user_id) (sym user),
        ap (λ v. v.email) (sym user),
        ap (λ v. v.name) (sym user),
        ap (λ v. v.provider) (sym user),
        ap (λ v. v.jti) (sym user),
        ap (λ v. v.session_id) (sym user),
      )
