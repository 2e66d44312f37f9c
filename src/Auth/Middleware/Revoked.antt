-- ===== src/Auth/Middleware/Revoked.antt =====
-- The blacklist of tokens in backend/auth/src/middleware.rs.
use fullstackhex.Base.{
  ℕ, ◌/◌, ◌≡◌, ◌≢◌, ◌∙◌, inl, inr, refl, ap, subst, Bool, true, false, Text, codes, [], Option,
  none, some, is_empty, Result, ok, err, Bool-cases, Result-cases,
}
use fullstackhex.Base.Exec.{bind-ok}
use fullstackhex.Domain.Errors.{CacheError}
use fullstackhex.Cache.Redis.{str}
use fullstackhex.Cache.Client.{Session, World, make_key}
use fullstackhex.Cache.Store.{cache_get}
use fullstackhex.Cache.Session.{session_get}
use fullstackhex.Cache.Session.Reads.{session_get-Untouched}
use fullstackhex.Auth.Config.{AuthConfig, AuthMode, cookie, bearer, both}
use fullstackhex.Auth.App.{Platform, App, cached}
use fullstackhex.Auth.Request.{Request, is_public, cookie_auth_prepare}
use fullstackhex.Auth.Blacklist.{Blacklist}
use fullstackhex.Auth.Middleware.{
  after_fast_path, session_user, AuthUser, extract_bearer, resolve_cookie_user, by_cookie, prepared,
  identify, verdict, redis_check, check_blacklist, auth_middleware,
}
use fullstackhex.Auth.Middleware.Identity.{check_blacklist-same}

module _ (p : Platform) (config : AuthConfig) (prefix : Text) where
  -- On a quiet network, a JTI whose key holds true.
  abbrev pub Listed : Text → World p.redis → Type 0
  Listed jti w =
      (ttl : Option ℕ) × (w.net ≡ [])
      × (p.redis.lookup w.db (make_key prefix (codes "blacklist") jti)
          ≡ some (record { value = str (p.bool_codec.encode true); ttl = ttl }))

  redis_check-Listed :
      (v u : AuthUser) (s t : App p)
      → Listed v.jti s.cache
      → redis_check p config prefix v s ≢ (ok (some u), t)
  unfolding redis_check cache_get verdict
  redis_check-Listed v u s t (ttl, quiet, at_key) h =
      cc (rw (quiet, at_key, p.bool_codec.decode-encode true) at h)

  fast_path-Listed :
      (v u : AuthUser) (r : Bool × Blacklist) (s t : App p)
      → Listed v.jti s.cache
      → after_fast_path p config prefix v r s ≢ (ok (some u), t)
  fast_path-Listed v u (true, m) s t l h = cc h
  fast_path-Listed v u (false, m) s t l h =
      redis_check-Listed v u (record s { blacklist = m }) t l h

  check_blacklist-Listed :
      (v u : AuthUser) (s t : App p)
      → Listed v.jti s.cache
      → check_blacklist p config prefix true (some v) s ≢ (ok (some u), t)
  unfolding check_blacklist
  check_blacklist-Listed v u s t l h = elim (Bool-cases (is_empty v.jti)) [
    | inl f ↦ redis_check-Listed v u s t l (rw f at h)
    | inr f ↦ fast_path-Listed v u _ s t l (rw f at h)
  ]

  session_user-state :
      (id : Text) (r : Result CacheError Session × App p)
      → (session_user p config prefix id r).1 ≡ r.1
  session_user-state id (ok x, a) = refl
  session_user-state id (err e, a) = refl

  resolve-Listed :
      (id : Text) (s : App p) (jti : Text)
      → Listed jti s.cache
      → Listed jti (resolve_cookie_user p config prefix id s).1.cache
  unfolding resolve_cookie_user
  resolve-Listed id s jti (ttl, quiet, at_key) =
      let (same, quiet') = session_get-Untouched p.redis prefix p.session_codec id s.cache quiet in
      rw (session_user-state id (cached p (session_get p.redis prefix p.session_codec id) s)) (
        ttl,
        quiet',
        ap (λ d. p.redis.lookup d (make_key prefix (codes "blacklist") jti)) same ∙ at_key,
      )

  by_cookie-Listed :
      (has_redis : Bool) (session : Option Text) (s : App p) (jti : Text)
      → Listed jti s.cache
      → Listed jti (by_cookie p config prefix has_redis session s).1.cache
  unfolding by_cookie
  by_cookie-Listed has_redis none s jti l = l
  by_cookie-Listed false (some id) s jti l = l
  by_cookie-Listed true (some id) s jti l = resolve-Listed id s jti l

  prepared-Listed :
      (has_redis : Bool) (req : Request) (s : App p) (jti : Text)
      → Listed jti s.cache
      → Listed jti (prepared p config prefix has_redis req s).1.cache
  unfolding prepared
  prepared-Listed has_redis req s jti l = elim (Result-cases (cookie_auth_prepare req)) [
    | inl (session, e) ↦ rw e (by_cookie-Listed has_redis session s jti l)
    | inr (x, e) ↦ rw e l
  ]

  identify-Listed :
      (has_redis : Bool) (req : Request) (m : AuthMode) (b : Option AuthUser) (s : App p)
      (jti : Text)
      → Listed jti s.cache
      → Listed jti (identify p config prefix has_redis req m b s).1.cache
  unfolding identify
  identify-Listed has_redis req bearer b s jti l = l
  identify-Listed has_redis req both (some v) s jti l = l
  identify-Listed has_redis req both none s jti l = prepared-Listed has_redis req s jti l
  identify-Listed has_redis req cookie b s jti l = prepared-Listed has_redis req s jti l

  -- On a quiet network, while the blacklist holds true for a JTI, no request is answered for a user
  -- with that JTI, whatever this process remembers of the blacklist.
  pub auth_middleware-blacklisted :
      (req : Request) (s t : App p) (u : AuthUser) (jti : Text)
      → Listed jti s.cache
      → auth_middleware p config prefix true req s ≡ (ok (some u), t)
      → u.jti ≢ jti
  unfolding auth_middleware
  auth_middleware-blacklisted req s t u jti l h same_jti = elim (Bool-cases (is_public req.path)) [
    | inl f ↦ cc (rw f at h)
    | inr f ↦
        let (found, s1, e, h1) =
          bind-ok
            (identify p config prefix true req config.auth_mode
              (extract_bearer p config prefix (s.cache.now_ms / 1000) req))
            (check_blacklist p config prefix true) s t (some u) (rw f at h) in
        let same = check_blacklist-same p config prefix true found s1 t u h1 in
        let l1 : Listed u.jti s1.cache =
          subst (λ r. Listed u.jti r.1.cache) e
            (identify-Listed true req config.auth_mode _ s u.jti (rw same_jti l)) in
        check_blacklist-Listed u u s1 t l1
          (subst (λ v. check_blacklist p config prefix true v s1 ≡ (ok (some u), t)) same h1)
  ]
