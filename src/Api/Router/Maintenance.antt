-- ===== src/Api/Router/Maintenance.antt =====
-- backend/api/src/lib.rs: the maintenance middleware is laid on before the other routers are nested, so
-- it stands only before routes that it lets through.
use mathlib.Core.List.{Memᴰ}
use fullstackhex.Base.{
  Bool, true, false, if◌then◌else◌, Text, codes, contains, All, List, [], ◌∷◌, Option, none, some,
  Result, ok, err, ◌≡◌, ◌≢◌, refl, sym, ◌&&◌, subst, starts_with,
}
use fullstackhex.Base.Exec.{Exec, continue}
use fullstackhex.Domain.Flags.{FeatureFlags, is_whitelisted, maintenance_middleware}
use fullstackhex.Auth.Config.{AuthConfig}
use fullstackhex.Auth.App.{Platform, App}
use fullstackhex.Auth.Request.{Request, Method, get}
use fullstackhex.Api.Router.{
  Layer, Handler, auth_me_disabled, track_metrics, track_auth_metrics, maintenance, auth, dev_user,
  auth_service, redis_client, flags, dev_user_id, body_limit, Route, Axum, AppState, under, wrap,
  build_router, open_router, guarded, base_router, health_routes, notes_routes, storage_routes,
  auth_routes, db_connected, dev_user_of,
}
use fullstackhex.Api.Router.Stack.{
  Extensions, unavailable, run_layers, no_extensions, authenticated, dev_user_middleware,
}
use fullstackhex.Api.Router.Layers.{
  Every, Every-new, Every-route, Every-merge, Every-nest, Every-layer, Every-at,
}
use fullstackhex.Api.Router.Parts.{
  nested_if, wrapped, auth_router-Fine, storage_router-Fine, notes_router-Fine,
  fallback_router-Fine,
}

Other : Layer → Type 0
Other maintenance = ⊥
Other l = Unit

passes_whitelisted {ℓ} :
    {A : Type ℓ} (path : Text) (fs : Option FeatureFlags) (a b : A)
    → is_whitelisted path ≡ true
    → maintenance_middleware path fs a b ≡ b
unfolding maintenance_middleware
passes_whitelisted path fs a b w = rw w refl

continue-ne :
    {S A B E : Type 0} (r : Result E A × S) (f : A → Exec S E B) (b : B)
    → ((a : A) (s : S) → (f a s).0 ≢ ok b)
    → (continue r f).0 ≢ ok b
continue-ne (ok a, s) f b h = h a s
continue-ne (err e, s) f b h = λ q. cc q

module _ (p : Platform) (config : AuthConfig) (prefix : Text) (req : Request) where
  -- The layers never answer 503, whatever extensions they begin with.
  Quiet : List Layer → Type 0
  Quiet ls =
      (e : Extensions) (s : App p) → (run_layers p config prefix req ls e s).0 ≢ ok unavailable

  Quiet-step : (l : Layer) (ls : List Layer) → Other l → Quiet ls → Quiet (l ∷ ls)
  unfolding Quiet Other run_layers
  Quiet-step track_metrics ls o q e s = q e s
  Quiet-step track_auth_metrics ls o q e s = q e s
  Quiet-step (body_limit n) ls o q e s = q e s
  Quiet-step (flags g) ls o q e s = q (record e { flags = some g }) s
  Quiet-step auth_service ls o q e s = q (record e { has_auth = true }) s
  Quiet-step redis_client ls o q e s = q (record e { has_redis = true }) s
  Quiet-step (dev_user_id uid) ls o q e s = q (record e { dev_user_id = some uid }) s
  Quiet-step dev_user ls o q e s = q (dev_user_middleware e) s
  Quiet-step auth ls o q e s =
      continue-ne (authenticated p config prefix req e.has_auth e s)
        (λ x. run_layers p config prefix req ls x) unavailable q
  Quiet-step maintenance ls o q e s = absurd o

  Quiet-All : (ls : List Layer) → All Other ls → Quiet ls
  unfolding Quiet run_layers
  Quiet-All [] a = λ e s h. cc h
  Quiet-All (l ∷ ls) a = Quiet-step l ls a.0 (Quiet-All ls a.1)

  Quiet-whitelisted :
      (ls : List Layer) → is_whitelisted req.path ≡ true → Quiet ls → Quiet (maintenance ∷ ls)
  unfolding Quiet run_layers
  Quiet-whitelisted ls w q e s =
      rw
        (passes_whitelisted req.path e.flags (λ t. (ok unavailable, t))
          (run_layers p config prefix req ls e) w)
        (q e s)

  -- `matches` is how the router library matches a path with a route's.
  module _ {R : Type 0} (axum : Axum R) (matches : Text → Text → Bool)
      (literal : (pattern path : Text)
        → contains b'{' pattern ≡ false
        → matches pattern path ≡ true
        → path ≡ pattern) where
    -- A request that a route matches is not refused on its way to the handler.
    Unrefused : Route → Type 0
    Unrefused x =
        matches x.path req.path ≡ true
        → (e : Extensions) (s : App p)
        → (run_layers p config prefix req x.layers e s).0 ≢ ok unavailable

    record Public (x : Route) : Type 0 where
      pub allowed : is_whitelisted x.path ≡ true
      pub fixed : contains b'{' x.path ≡ false
      pub other : All Other x.layers

    Other-under : (t : Text) (x : Route) → All Other x.layers → Unrefused (under t x)
    unfolding Unrefused under Quiet
    Other-under t x a m = Quiet-All x.layers a

    refused_step : (l : Layer) (x : Route) → Other l → Unrefused x → Unrefused (wrap l x)
    unfolding Unrefused wrap Quiet
    refused_step l x o u m = Quiet-step l x.layers o (u m)

    Public-step : (x : Route) → Public x → Unrefused (wrap maintenance x)
    unfolding Unrefused wrap Quiet
    Public-step x q m =
        Quiet-whitelisted x.layers
          (subst (λ t. is_whitelisted t ≡ true) (sym (literal x.path req.path q.fixed m)) q.allowed)
          (Quiet-All x.layers q.other)

    Public-route :
        {path : Text} {m : Method} {h : Handler} {r : R}
        → is_whitelisted path ≡ true
        → contains b'{' path ≡ false
        → Every axum Public r
        → Every axum Public (axum.route path m h r)
    Public-route w c e = Every-route axum (record { allowed = w; fixed = c; other = tt }) e

    base_router-Unrefused : (g : FeatureFlags) → Every axum Unrefused (base_router axum g)
    unfolding base_router health_routes Other wrap is_whitelisted contains starts_with
    base_router-Unrefused g =
        let health =
          (Public-route refl refl (
            Public-route refl refl (
              Public-route refl refl (
                Public-route refl refl
                  (Public-route refl refl (Public-route refl refl (Every-new axum))))))) in
        Every-layer axum (λ x. refused_step (flags g) x tt)
          (Every-layer axum Public-step (
            Every-layer axum {Q = Public}
              (λ x q. record { allowed = q.allowed; fixed = q.fixed; other = (tt, q.other) })
              (Public-route refl refl (
                Public-route refl refl
                  (Public-route refl refl (Every-merge axum health (Every-new axum)))))))

    abbrev OtherRoute : Route → Type 0
    OtherRoute x = All Other x.layers

    notes_routes-Other :
        (has_auth : Bool) (dev : Option Text) (db : Bool)
        → Every axum OtherRoute (notes_routes axum has_auth dev db)
    unfolding notes_routes Other
    notes_routes-Other has_auth dev false = fallback_router-Fine axum Other tt (λ n. tt)
    notes_routes-Other true dev true = notes_router-Fine axum Other tt (λ n. tt)
    notes_routes-Other false none true = fallback_router-Fine axum Other tt (λ n. tt)
    notes_routes-Other false (some uid) true =
        wrapped axum Other tt (λ n. tt) tt
          (wrapped axum Other tt (λ n. tt) tt (notes_router-Fine axum Other tt (λ n. tt)))

    open_router-Unrefused : (c : AppState) → Every axum Unrefused (open_router axum c)
    unfolding open_router storage_routes auth_routes Other
    open_router-Unrefused c =
        Every-nest axum (Other-under _)
          (notes_routes-Other c.has_auth (dev_user_of c) (db_connected c.db))
          (nested_if axum _ c.has_storage (Other-under _)
            (storage_router-Fine axum Other tt (λ n. tt))
            (nested_if axum _ (db_connected c.db && (c.has_auth && c.has_redis)) (Other-under _)
              (auth_router-Fine axum Other tt (λ n. tt)) (base_router-Unrefused c.feature_flags)))

    guarded-Unrefused :
        (b : Bool) {r : R} → Every axum Unrefused r → Every axum Unrefused (guarded axum b r)
    unfolding guarded Other
    guarded-Unrefused true e =
        Every-layer axum (λ x. refused_step redis_client x tt)
          (Every-layer axum (λ x. refused_step auth_service x tt)
            (Every-layer axum (λ x. refused_step auth x tt) e))
    guarded-Unrefused false e =
        Every-layer axum (λ x. refused_step auth_service x tt)
          (Every-layer axum (λ x. refused_step auth x tt) e)

    build-Unrefused :
        (c : AppState) (b : Bool)
        → Every axum Unrefused (open_router axum c)
        → Every axum Unrefused (
            if b
            then guarded axum c.has_redis (open_router axum c)
            else axum.route (codes "/auth/me") get auth_me_disabled (open_router axum c))
    unfolding Unrefused run_layers
    build-Unrefused c true e = guarded-Unrefused c.has_redis e
    build-Unrefused c false e = Every-route axum (λ m f s h. cc h) e

    build_router-Unrefused : (c : AppState) → Every axum Unrefused (build_router axum c)
    unfolding build_router
    build_router-Unrefused c = build-Unrefused c c.has_auth (open_router-Unrefused c)

    -- Maintenance mode refuses no request for a route: on the way to the handler of any route that
    -- matches it, whatever the flags, no request is answered by the maintenance middleware; a path
    -- without parameters is matched by itself only.
    pub maintenance_refuses_no_route :
        (c : AppState) (x : Route) (s : App p)
        → Memᴰ x (axum.routes (build_router axum c))
        → matches x.path req.path ≡ true
        → (run_layers p config prefix req x.layers no_extensions s).0 ≢ ok unavailable
    unfolding Unrefused
    maintenance_refuses_no_route c x s m h =
        Every-at axum (build_router-Unrefused c) m h no_extensions s
