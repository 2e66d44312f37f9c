-- ===== src/Api/Router/Dev.antt =====
-- backend/api/src/lib.rs without authentication: the layers of the user for development stand the
-- wrong way round, so that no handler sees a user.
use mathlib.Core.List.{Memᴰ}
use fullstackhex.Base.{
  Bool, true, false, Text, codes, [], Option, none, some, ok, err, ◌≡◌, ap, ◌&&◌, subst, sym,
}
use fullstackhex.Auth.Config.{AuthConfig}
use fullstackhex.Auth.App.{Platform, App}
use fullstackhex.Auth.Request.{Request, unauthorized, get}
use fullstackhex.Api.Router.{
  auth_me_disabled, Route, Axum, AppState, under, wrap, build_router, open_router, notes_routes,
  storage_routes, auth_routes, db_connected, dev_user_of,
}
use fullstackhex.Api.Router.Stack.{
  Extensions, reached, run_layers, no_extensions, extract_user, dev_user_middleware,
}
use fullstackhex.Api.Router.Layers.{
  Every, Every-route, Every-nest, Every-layer, Every-weaken, Every-else, Every-at,
}
use fullstackhex.Api.Router.Parts.{
  nested_if, auth_router-Fine, storage_router-Fine, notes_router-Fine, fallback_router-Fine,
  base_router-Fine,
}
use fullstackhex.Api.Router.Users.{Plain, PlainRoute, Plain-keeps}

refused : (f : Extensions) → f.user ≡ none → extract_user f ≡ err unauthorized
unfolding extract_user
refused f e = ap (λ u. extract_user (record f { user = u })) e

module _ (p : Platform) (config : AuthConfig) (prefix : Text) (req : Request) where
  -- The handler's extraction of a user fails.
  Userless : Route → Type 0
  Userless x =
      (f : Extensions) (s t : App p)
      → run_layers p config prefix req x.layers no_extensions s ≡ (ok (reached f), t)
      → extract_user f ≡ err unauthorized

  plain-Userless : (x : Route) → PlainRoute x → Userless x
  unfolding Userless
  plain-Userless x pl f s t h =
      refused f (Plain-keeps p config prefix req x.layers no_extensions f s t pl h).0

  under-Userless : (t : Text) (x : Route) → Userless x → Userless (under t x)
  unfolding Userless under
  under-Userless t x q = q

  module _ {R : Type 0} (axum : Axum R) where
    notes_routes-Userless :
        (dev : Option Text) (db : Bool) → Every axum Userless (notes_routes axum false dev db)
    unfolding notes_routes Plain Userless wrap run_layers dev_user_middleware
    notes_routes-Userless dev false =
        Every-weaken axum plain-Userless (fallback_router-Fine axum Plain tt (λ n. tt))
    notes_routes-Userless none true =
        Every-weaken axum plain-Userless (fallback_router-Fine axum Plain tt (λ n. tt))
    notes_routes-Userless (some uid) true =
        Every-layer axum {Q = Userless} (λ x q. q)
          (Every-layer axum
            (λ x pl f s t h.
              refused f
                (Plain-keeps p config prefix req x.layers
                  (record no_extensions { dev_user_id = some uid }) f s t pl h).0)
            (notes_router-Fine axum Plain tt (λ n. tt)))

    Plain-under : (t : Text) (x : Route) → PlainRoute x → Userless (under t x)
    Plain-under t x pl = under-Userless t x (plain-Userless x pl)

    open_router-Userless :
        (c : AppState) → c.has_auth ≡ false → Every axum Userless (open_router axum c)
    unfolding open_router storage_routes auth_routes Plain
    open_router-Userless c e =
        Every-nest axum (under-Userless _)
          (subst
            (λ b. Every axum Userless (notes_routes axum b (dev_user_of c) (db_connected c.db)))
            (sym e) (notes_routes-Userless (dev_user_of c) (db_connected c.db)))
          (nested_if axum _ c.has_storage (Plain-under _)
            (storage_router-Fine axum Plain tt (λ n. tt))
            (nested_if axum _ (db_connected c.db && (c.has_auth && c.has_redis)) (Plain-under _)
              (auth_router-Fine axum Plain tt (λ n. tt))
              (Every-weaken axum plain-Userless
                (base_router-Fine axum Plain tt (λ n. tt) c.feature_flags tt tt tt))))

    build_router-Userless :
        (c : AppState) → c.has_auth ≡ false → Every axum Userless (build_router axum c)
    unfolding build_router Userless
    build_router-Userless c e = Every-else axum c.has_auth _ e (
        Every-route axum
          (plain-Userless
            (record {
              method = get;
              path = codes "/auth/me";
              layers = [];
              handler = auth_me_disabled;
            })
            tt)
          (open_router-Userless c e))

    -- Without authentication no handler sees a user, whatever DEV_USER_ID says: where a request has
    -- come through the layers of a route, the extraction of the user fails as unauthorized.
    pub no_user_without_auth :
        (c : AppState) (x : Route) (f : Extensions) (s t : App p)
        → c.has_auth ≡ false
        → Memᴰ x (axum.routes (build_router axum c))
        → run_layers p config prefix req x.layers no_extensions s ≡ (ok (reached f), t)
        → extract_user f ≡ err unauthorized
    unfolding Userless
    no_user_without_auth c x f s t e m h = Every-at axum (build_router-Userless c e) m f s t h
