-- ===== src/Domain/Flags.antt =====
-- backend/domain/src/lib.rs (FeatureFlags) and backend/api/src/middleware.rs
-- (maintenance_middleware). The environment is a function from names to values; the rest of the
-- handler stack is a function from the request to its answer.
use fullstackhex.Base.{
  refl, Option-cases, Bool, true, false, not, ◌&&◌, ◌||◌, Text, codes, text_eq, eq_ignore_case,
  starts_with, Option, none, some, if◌then◌else◌, ◌≡◌, ◌⊎◌, Bool-cases, inl, inr, arith, ◌↔◌,
  text_eq_iff,
}

abbrev pub Env : Type 0
Env = Text → Option Text

pub record FeatureFlags : Type 0 where
  pub maintenance_mode : Bool

abbrev truthy : Text → Bool
truthy v = eq_ignore_case v (codes "true") || text_eq v (codes "1")

unfoldable pub env_bool : Env → Text → Bool
env_bool env key = elim (env key) [ none ↦ false | some v ↦ truthy v ]

unfoldable pub from_env : Env → FeatureFlags
unfolding env_bool
from_env env = record { maintenance_mode = env_bool env (codes "FEATURE_MAINTENANCE") }

abbrev enabled : Option FeatureFlags → Bool
enabled none = false
enabled (some flags) = flags.maintenance_mode

unfoldable pub is_whitelisted : Text → Bool
is_whitelisted path =
    text_eq path (codes "/health")
    || starts_with (codes "/health/") path
    || text_eq path (codes "/metrics")
    || starts_with (codes "/metrics/") path
    || text_eq path (codes "/live")
    || text_eq path (codes "/auth/me")

-- `maintenance_middleware`: the flags are those of the request's extensions, if any.
unfoldable pub maintenance_middleware {ℓ} : {A : Type ℓ} → Text → Option FeatureFlags → A → A → A
maintenance_middleware path flags unavailable next =
    if not (is_whitelisted path) && enabled flags then unavailable else next

truthy_iff :
    (v : Text) → (truthy v ≡ true) ↔ ((eq_ignore_case v (codes "true") ≡ true) ⊎ (v ≡ codes "1"))
truthy_iff v =
    (λ h. ground (arith, text_eq_iff v (codes "1")), λ h. ground (arith, text_eq_iff v (codes "1")))

env_bool_iff :
    (env : Env) (key : Text)
    → (env_bool env key ≡ true) ↔ (
        (v : Text) × (env key ≡ some v)
        × ((eq_ignore_case v (codes "true") ≡ true) ⊎ (v ≡ codes "1")))
unfolding env_bool
env_bool_iff env key = elim (Option-cases (env key)) [
  | inl e ↦ (λ h. cc (e, h), λ h. cc (e, h.1))
  | inr (v, e) ↦ (
    λ h. (v, e, (truthy_iff v).0 (rw (e, env_bool) at h)),
    λ h. ground (arith, (truthy_iff h.0).1 h.2),
  )
]

-- The middleware refuses exactly the requests that arrive with maintenance switched on and whose
-- path is not one of the health, metrics, live and profile routes.
pub maintenance_refuses_iff :
    (env : Env) (path : Text)
    → (maintenance_middleware path (some (from_env env)) true false ≡ true) ↔ (
        (is_whitelisted path ≡ false)
        × ((v : Text) × (env (codes "FEATURE_MAINTENANCE") ≡ some v)
            × ((eq_ignore_case v (codes "true") ≡ true) ⊎ (v ≡ codes "1"))))
unfolding maintenance_middleware from_env
maintenance_refuses_iff env path = elim (Bool-cases (is_whitelisted path)) [
  | inl w ↦ rw w (λ h. cc, λ h. cc h.0)
  | inr w ↦ rw w (
    λ h. (refl, (env_bool_iff env (codes "FEATURE_MAINTENANCE")).0 (ground arith)),
    λ h. ground (arith, (env_bool_iff env (codes "FEATURE_MAINTENANCE")).1 h.1),
  )
]
