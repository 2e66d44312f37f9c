-- ===== src/Auth/Middleware/Identity.antt =====
-- Who the middleware of backend/auth/src/middleware.rs lets a request act for.
use fullstackhex.Base.{
  arith, ◌/◌, ◌≡◌, ◌≢◌, ◌∙◌, ◌⊎◌, inl, inr, refl, sym, ap, subst, Bool, true, false, Text, Option,
  none, some, is_empty, ok, Bool-cases,
}
use fullstackhex.Base.Exec.{lift, bind-ok}
use fullstackhex.Auth.Config.{AuthConfig, AuthMode, cookie, bearer, both}
use fullstackhex.Auth.App.{Platform, App}
use fullstackhex.Auth.Request.{Request, is_public, cookie_auth_prepare}
use fullstackhex.Auth.Blacklist.{Blacklist, blacklisted_in_process}
use fullstackhex.Auth.Middleware.{
  after_fast_path, AuthUser, extract_bearer, resolve_cookie_user, by_cookie, prepared, identify,
  verdict, redis_check, check_blacklist, auth_middleware,
}
use fullstackhex.Auth.Middleware.Sources.{ByToken, BySession, extract_bearer-ok, session_owner}

module _ (p : Platform) (config : AuthConfig) (prefix : Text) where
  abbrev Answer : Type 0
  Answer = Option AuthUser

  verdict-same :
      (v u : AuthUser) (a : Option Bool) (s t : App p)
      → verdict p config prefix v a s ≡ (ok (some u), t)
      → v ≡ u
  unfolding verdict
  verdict-same v u (some true) s t h = absurd (cc h)
  verdict-same v u (some false) s t h = grind arith
  verdict-same v u none s t h = elim (Bool-cases config.fail_open_on_redis_error) [
    | inl f ↦ grind (arith, rw f at h)
    | inr f ↦ absurd (cc (rw f at h))
  ]

  redis_check-same :
      (v u : AuthUser) (s t : App p) → redis_check p config prefix v s ≡ (ok (some u), t) → v ≡ u
  unfolding redis_check
  redis_check-same v u s t h = verdict-same v u _ _ t h

  fast_path-same :
      (v u : AuthUser) (r : Bool × Blacklist) (s t : App p)
      → after_fast_path p config prefix v r s ≡ (ok (some u), t)
      → v ≡ u
  fast_path-same v u (true, m) s t h = absurd (cc h)
  fast_path-same v u (false, m) s t h = redis_check-same v u _ t h

  pub check_blacklist-same :
      (has_redis : Bool) (found : Option AuthUser) (s t : App p) (u : AuthUser)
      → check_blacklist p config prefix has_redis found s ≡ (ok (some u), t)
      → found ≡ some u
  unfolding check_blacklist
  check_blacklist-same has_redis none s t u h = absurd (cc h)
  check_blacklist-same false (some v) s t u h = grind arith
  check_blacklist-same true (some v) s t u h = elim (Bool-cases (is_empty v.jti)) [
    | inl f ↦ ap some (redis_check-same v u s t (rw f at h))
    | inr f ↦ ap some (
        fast_path-same v u (blacklisted_in_process v.jti s.cache.now_ms s.blacklist) s t
          (rw f at h))
  ]

  by_cookie_sound :
      (has_redis : Bool) (session : Option Text) (s t : App p) (u : AuthUser)
      → by_cookie p config prefix has_redis session s ≡ (ok (some u), t)
      → (id : Text) × (session ≡ some id)
        × (has_redis ≡ true)
        × (resolve_cookie_user p config prefix id s ≡ (ok (some u), t))
  unfolding by_cookie
  by_cookie_sound has_redis none s t u h = absurd (cc h)
  by_cookie_sound false (some id) s t u h = absurd (cc h)
  by_cookie_sound true (some id) s t u h = (id, refl, refl, h)

  prepared_sound :
      (has_redis : Bool) (req : Request) (s t : App p) (u : AuthUser)
      → prepared p config prefix has_redis req s ≡ (ok (some u), t)
      → (has_redis ≡ true) × BySession p config prefix req s u
  unfolding prepared
  prepared_sound has_redis req s t u h =
      let (session, s', e, h') =
        bind-ok (lift (cookie_auth_prepare req)) (by_cookie p config prefix has_redis) s t (some u)
          h in
      let (id, q, up, r) = by_cookie_sound has_redis session s' t u h' in
      let same : s' ≡ s = ap (λ x. x.1) (sym e) in
      let resolved : resolve_cookie_user p config prefix id s ≡ (ok (some u), t) =
        subst (λ x. resolve_cookie_user p config prefix id x ≡ (ok (some u), t)) same r in
      (up, session_owner p config prefix req id s t u (ap (λ x. x.0) e ∙ ap ok q) resolved)

  identify_sound :
      (has_redis : Bool) (req : Request) (m : AuthMode) (b : Option AuthUser) (s t : App p)
      (u : AuthUser)
      → identify p config prefix has_redis req m b s ≡ (ok (some u), t)
      → ((m ≢ cookie) × (b ≡ some u))
        ⊎ ((m ≢ bearer) × (has_redis ≡ true) × BySession p config prefix req s u)
  unfolding identify
  identify_sound has_redis req bearer b s t u h = inl (λ q. cc q, grind arith)
  identify_sound has_redis req both (some v) s t u h = inl (λ q. cc q, grind arith)
  identify_sound has_redis req both none s t u h =
      let (up, owner) = prepared_sound has_redis req s t u h in inr (λ q. cc q, up, owner)
  identify_sound has_redis req cookie b s t u h =
      let (up, owner) = prepared_sound has_redis req s t u h in inr (λ q. cc q, up, owner)

  -- A request that is answered for a user is not for a public path, and either bearer tokens are
  -- accepted and the user is the one whose claims its bearer token carries, a token that verifies at
  -- the time, or cookies are accepted, Redis is configured and the user is the owner of the session
  -- that is stored under the id in its cookie.
  pub auth_middleware_sound :
      (has_redis : Bool) (req : Request) (s t : App p) (u : AuthUser)
      → auth_middleware p config prefix has_redis req s ≡ (ok (some u), t)
      → (is_public req.path ≡ false)
        × (((config.auth_mode ≢ cookie) × ByToken p config prefix req (s.cache.now_ms / 1000) u)
            ⊎ ((config.auth_mode ≢ bearer)
                × (has_redis ≡ true)
                × BySession p config prefix req s u))
  unfolding auth_middleware
  auth_middleware_sound has_redis req s t u h = elim (Bool-cases (is_public req.path)) [
    | inl f ↦ absurd (cc (rw f at h))
    | inr f ↦
        let (found, s1, e, h1) =
          bind-ok
            (identify p config prefix has_redis req config.auth_mode
              (extract_bearer p config prefix (s.cache.now_ms / 1000) req))
            (check_blacklist p config prefix has_redis) s t (some u) (rw f at h) in
        let same = check_blacklist-same has_redis found s1 t u h1 in
        (
          f,
          elim (identify_sound has_redis req config.auth_mode _ s s1 u
              (e ∙ ap (λ x. (ok x, s1)) same)) [
                | inl (mode, b) ↦
                    inl (mode, extract_bearer-ok p config prefix (s.cache.now_ms / 1000) req u b)
                | inr owner ↦ inr owner
              ],
        )
  ]
