-- ===== src/Api/Router.antt =====
-- backend/api/src/lib.rs: which handler answers which route, and the layers that a request passes on
-- its way there. The router library is the interface `Axum`: its routers are seen as lists of routes,
-- and a layer wraps the routes that are there when it is added. A handler is its name.
pub mod Layers
pub mod Stack
pub mod Parts
pub mod Users
pub mod Serve
pub mod Dev
pub mod Maintenance
pub mod Mounted
use fullstackhex.Base.{
  ℕ, Bool, true, false, ◌&&◌, Text, codes, text_eq, is_empty, List, [], ◌∷◌, ◌++◌, map, Option,
  none, some, if◌then◌else◌, ◌≡◌,
}
use fullstackhex.Domain.Flags.{FeatureFlags, Env}
use fullstackhex.Auth.Request.{Method, get, post, put, delete}
use fullstackhex.Api.Health.{DbStatus, not_configured, connected, connection_failed}

pub data Handler : Type 0 where
  health health_db health_redis health_storage health_python health_auth : Handler
  metrics_handler metrics_python_proxy ws_handler : Handler
  register login logout forgot_password reset_password refresh providers me : Handler
  delete_account oauth_redirect oauth_callback auth_me_disabled : Handler
  upload download delete_object list presign init_multipart upload_part : Handler
  complete_multipart abort_multipart : Handler
  list_notes create_note get_note update_note delete_note notes_fallback : Handler

-- The middlewares, the extensions that are put into a request, and the limit on a body.
pub data Layer : Type 0 where
  track_metrics track_auth_metrics maintenance auth dev_user : Layer
  auth_service redis_client : Layer
  flags : FeatureFlags → Layer
  dev_user_id : Text → Layer
  body_limit : ℕ → Layer

-- The layers stand with the outermost first, which a request passes first.
pub record Route : Type 0 where
  pub method : Method
  pub path : Text
  pub layers : List Layer
  pub handler : Handler

unfoldable pub wrap : Layer → Route → Route
wrap l r = record r { layers = l ∷ r.layers }

-- A nested router's "/" is the prefix itself.
unfoldable pub under : Text → Route → Route
under prefix r = record r { path = if text_eq r.path (codes "/") then prefix else prefix ++ r.path }

-- What the code relies on of `axum::Router`.
pub record Axum (R : Type 0) : Type 0 where
  pub new : R
  pub route : Text → Method → Handler → R → R
  pub merge : R → R → R
  pub nest : Text → R → R → R
  pub layer : Layer → R → R
  pub routes : R → List Route
  pub routes-new : routes new ≡ []
  pub routes-route :
      (path : Text) (m : Method) (h : Handler) (r : R)
      → routes (route path m h r)
        ≡ record { method = m; path = path; layers = []; handler = h } ∷ routes r
  pub routes-merge : (a r : R) → routes (merge a r) ≡ routes a ++ routes r
  pub routes-nest :
      (prefix : Text) (a r : R)
      → routes (nest prefix a r) ≡ map (under prefix) (routes a) ++ routes r
  pub routes-layer : (l : Layer) (r : R) → routes (layer l r) ≡ map (wrap l) (routes r)

-- What `build_router` looks at in the state and the environment. `is_uuid` is `Uuid::parse_str`.
pub record AppState : Type 0 where
  pub feature_flags : FeatureFlags
  pub db : DbStatus
  pub has_redis : Bool
  pub has_auth : Bool
  pub has_storage : Bool
  pub env : Env
  pub is_uuid : Text → Bool

unfoldable pub db_connected : DbStatus → Bool
db_connected connected = true
db_connected not_configured = false
db_connected (connection_failed msg) = false

unfoldable pub dev_user_of : AppState → Option Text
dev_user_of c = parsed (c.env (codes "DEV_USER_ID"))
  where
    parsed : Option Text → Option Text
    parsed none = none
    parsed (some v) = if is_empty v then none else if c.is_uuid v then some v else none

module _ {R : Type 0} (axum : Axum R) where
  unfoldable pub health_routes : R
  health_routes = axum.route (codes "/health") get health (
      axum.route (codes "/health/db") get health_db (
        axum.route (codes "/health/redis") get health_redis (
          axum.route (codes "/health/storage") get health_storage (
            axum.route (codes "/health/python") get health_python
              (axum.route (codes "/health/auth") get health_auth axum.new)))))

  unfoldable pub auth_router : R
  auth_router = axum.layer track_auth_metrics (
      axum.route (codes "/register") post register (
        axum.route (codes "/login") post login (
          axum.route (codes "/logout") post logout (
            axum.route (codes "/forgot-password") post forgot_password (
              axum.route (codes "/reset-password") post reset_password (
                axum.route (codes "/refresh") post refresh (
                  axum.route (codes "/providers") get providers (
                    axum.route (codes "/me") get me (
                      axum.route (codes "/me") delete delete_account (
                        axum.route (codes "/oauth/{provider}") get oauth_redirect (
                          axum.route (codes "/oauth/{provider}/callback") get oauth_callback
                            axum.new)))))))))))

  -- The database, authentication and Redis are all wanted.
  unfoldable pub auth_routes : AppState → Option R
  unfolding auth_router db_connected
  auth_routes c =
      if db_connected c.db && (c.has_auth && c.has_redis) then some auth_router else none

  unfoldable pub storage_router : R
  storage_router = axum.layer (body_limit 10485760) (
      axum.route (codes "/{key}") put upload (
        axum.route (codes "/{key}") get download (
          axum.route (codes "/{key}") delete delete_object (
            axum.route (codes "/") get list (
              axum.route (codes "/presign") post presign (
                axum.route (codes "/multipart/init") post init_multipart (
                  axum.route (codes "/multipart/{key}/{upload_id}/part/{part_number}") put
                    upload_part
                    (axum.route (codes "/multipart/{key}/{upload_id}/complete") post
                      complete_multipart
                      (axum.route (codes "/multipart/{key}/{upload_id}") delete abort_multipart
                        axum.new)))))))))

  unfoldable pub storage_routes : AppState → Option R
  unfolding storage_router
  storage_routes c = if c.has_storage then some storage_router else none

  -- `if let Some(inner) = ... { router.nest(prefix, inner) }`
  unfoldable pub nest_some : Text → Option R → R → R
  nest_some prefix none r = r
  nest_some prefix (some inner) r = axum.nest prefix inner r

  -- The routes outside any prefix, with the maintenance middleware and its flags.
  unfoldable pub base_router : FeatureFlags → R
  unfolding health_routes
  base_router f = axum.layer (flags f) (
      axum.layer maintenance (
        axum.layer track_metrics (
          axum.route (codes "/live") get ws_handler (
            axum.route (codes "/metrics/python") get metrics_python_proxy (
              axum.route (codes "/metrics") get metrics_handler
                (axum.merge health_routes axum.new))))))

  unfoldable pub notes_router : R
  notes_router = axum.layer (body_limit 131072) (
      axum.route (codes "/") get list_notes (
        axum.route (codes "/") post create_note (
          axum.route (codes "/{id}") get get_note (
            axum.route (codes "/{id}") put update_note
              (axum.route (codes "/{id}") delete delete_note axum.new)))))

  unfoldable pub fallback_router : R
  fallback_router = axum.route (codes "/") get notes_fallback (
      axum.route (codes "/") post notes_fallback (
        axum.route (codes "/{id}") get notes_fallback (
          axum.route (codes "/{id}") put notes_fallback
            (axum.route (codes "/{id}") delete notes_fallback axum.new))))

  -- What stands under "/notes": whether authentication is configured, the user for development, and
  -- whether the database is connected.
  unfoldable pub notes_routes : Bool → Option Text → Bool → R
  unfolding notes_router fallback_router
  notes_routes has_auth dev false = fallback_router
  notes_routes true dev true = notes_router
  notes_routes false (some uid) true =
      axum.layer dev_user (axum.layer (dev_user_id uid) notes_router)
  notes_routes false none true = fallback_router

  -- Every route but for the layers of authentication.
  unfoldable pub open_router : AppState → R
  unfolding base_router auth_routes storage_routes nest_some notes_routes db_connected dev_user_of
  open_router c =
      axum.nest (codes "/notes") (notes_routes c.has_auth (dev_user_of c) (db_connected c.db)) (
        nest_some (codes "/storage") (storage_routes c)
          (nest_some (codes "/auth") (auth_routes c) (base_router c.feature_flags)))

  unfoldable pub guarded : Bool → R → R
  guarded true r = axum.layer redis_client (axum.layer auth_service (axum.layer auth r))
  guarded false r = axum.layer auth_service (axum.layer auth r)

  unfoldable pub build_router : AppState → R
  unfolding open_router guarded
  build_router c =
      if c.has_auth
      then guarded c.has_redis (open_router c)
      else axum.route (codes "/auth/me") get auth_me_disabled (open_router c)
