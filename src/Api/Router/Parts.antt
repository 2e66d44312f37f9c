-- ===== src/Api/Router/Parts.antt =====
-- backend/api/src/lib.rs: the parts of the router wrap their routes in layers of a few kinds only.
use fullstackhex.Base.{ℕ, Bool, true, false, Text, All, none, some, if◌then◌else◌}
use fullstackhex.Domain.Flags.{FeatureFlags}
use fullstackhex.Auth.Request.{Method}
use fullstackhex.Api.Router.{
  Handler, Layer, Route, Axum, track_metrics, track_auth_metrics, maintenance, flags, body_limit,
  base_router, wrap, under, health_routes, auth_router, storage_router, nest_some, notes_router,
  fallback_router,
}
use fullstackhex.Api.Router.Layers.{
  Every, Every-new, Every-route, Every-merge, Every-nest, Every-layer,
}

module _ {R : Type 0} (axum : Axum R) where
  -- An optional part is nested under a prefix.
  pub nested_if :
      {P Q : Route → Type 0} (prefix : Text) {a r : R} (b : Bool)
      → ((x : Route) → Q x → P (under prefix x))
      → Every axum Q a
      → Every axum P r
      → Every axum P (nest_some axum prefix (if b then some a else none) r)
  unfolding nest_some
  nested_if prefix true f ea er = Every-nest axum f ea er
  nested_if prefix false f ea er = er

  -- `Fine` holds of the layers of the parts.
  module _ (Fine : Layer → Type 0) (fine_counter : Fine track_auth_metrics)
      (fine_limit : (n : ℕ) → Fine (body_limit n)) where
    abbrev pub FineRoute : Route → Type 0
    FineRoute x = All Fine x.layers

    bare :
        {path : Text} {m : Method} {h : Handler} {r : R}
        → Every axum FineRoute r
        → Every axum FineRoute (axum.route path m h r)
    bare e = Every-route axum tt e

    pub wrapped :
        {l : Layer} {r : R}
        → Fine l
        → Every axum FineRoute r
        → Every axum FineRoute (axum.layer l r)
    unfolding wrap
    wrapped f e = Every-layer axum (λ x q. (f, q)) e

    pub nested : (prefix : Text) (x : Route) → FineRoute x → FineRoute (under prefix x)
    unfolding under
    nested prefix x q = q

    pub health_routes-Fine : Every axum FineRoute (health_routes axum)
    unfolding health_routes
    health_routes-Fine = (bare (bare (bare (bare (bare (bare (Every-new axum)))))))

    pub auth_router-Fine : Every axum FineRoute (auth_router axum)
    unfolding auth_router
    auth_router-Fine = wrapped fine_counter (
        bare (bare (bare (bare (bare (bare (bare (bare (bare (bare (bare (Every-new axum))))))))))))

    pub storage_router-Fine : Every axum FineRoute (storage_router axum)
    unfolding storage_router
    storage_router-Fine =
        wrapped (fine_limit _)
          (bare (bare (bare (bare (bare (bare (bare (bare (bare (Every-new axum))))))))))

    pub notes_router-Fine : Every axum FineRoute (notes_router axum)
    unfolding notes_router
    notes_router-Fine = wrapped (fine_limit _) (bare (bare (bare (bare (bare (Every-new axum))))))

    pub fallback_router-Fine : Every axum FineRoute (fallback_router axum)
    unfolding fallback_router
    fallback_router-Fine = (bare (bare (bare (bare (bare (Every-new axum))))))

    pub base_router-Fine :
        (g : FeatureFlags)
        → Fine track_metrics
        → Fine maintenance
        → Fine (flags g)
        → Every axum FineRoute (base_router axum g)
    unfolding base_router
    base_router-Fine g fm fn ff = wrapped ff (
        wrapped fn
          (wrapped fm (bare (bare (bare (Every-merge axum health_routes-Fine (Every-new axum)))))))
