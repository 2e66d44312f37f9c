-- ===== src/Auth/Config/Secret.antt =====
-- The JWT secret that backend/auth/src/lib.rs accepts.
use fullstackhex.Base.{
  arith, ◌≡◌, ◌≢◌, ◌∙◌, inl, inr, ap, ◌||◌, codes, [], some, text_eq, is_empty, Option-cases,
  Bool-cases,
}
use fullstackhex.Domain.Flags.{Env}
use fullstackhex.Auth.Config.{AuthConfig, from_env, with_secret}

-- The service starts with a configuration only if JWT_SECRET is set to a text that is neither empty
-- nor the placeholder, and that text is the secret of the configuration.
pub from_env-secret :
    (env : Env) (c : AuthConfig)
    → from_env env ≡ some c
    → (env (codes "JWT_SECRET") ≡ some c.jwt_secret)
      × (c.jwt_secret ≢ [])
      × (c.jwt_secret ≢ codes "CHANGE_ME")
unfolding from_env with_secret
from_env-secret env c h = elim (Option-cases (env (codes "JWT_SECRET"))) [
  | inl e ↦ absurd (cc (rw (from_env, e) at h))
  | inr (secret, e) ↦ elim (Bool-cases (is_empty secret || text_eq secret (codes "CHANGE_ME"))) [
    | inl f ↦ absurd (cc (rw (from_env, e, f) at h))
    | inr f ↦
        let same : with_secret env secret ≡ c = grind (arith, rw (from_env, e, f) at h) in
        let is_it : secret ≡ c.jwt_secret = ap (λ x. x.jwt_secret) same in
        (e ∙ ap some is_it, λ n. cc (rw (is_it ∙ n) at f), λ n. cc (rw (is_it ∙ n) at f))
  ]
]
