-- ===== src/Api/Router/Mounted.antt =====
-- backend/api/src/lib.rs: no handler stands where a service that it works on is missing.
use mathlib.Core.List.{Memᴰ}
use fullstackhex.Base.{
  codes, Bool, true, false, not, ◌&&◌, ◌||◌, if◌then◌else◌, Text, Option, none, some, ◌≡◌, refl,
}
use fullstackhex.Domain.Flags.{FeatureFlags}
use fullstackhex.Auth.Request.{Method, get}
use fullstackhex.Api.Router.{
  register, login, logout, forgot_password, reset_password, refresh, providers, me, delete_account,
  oauth_redirect, oauth_callback, upload, download, delete_object, list, presign, init_multipart,
  upload_part, complete_multipart, abort_multipart, list_notes, create_note, get_note, update_note,
  delete_note, health, health_db, health_redis, health_storage, health_python, health_auth,
  metrics_handler, metrics_python_proxy, ws_handler, notes_fallback, auth_me_disabled, Handler,
  Layer, Route, Axum, AppState, under, wrap, build_router, open_router, guarded, base_router,
  health_routes, auth_router, storage_router, notes_router, fallback_router, notes_routes,
  storage_routes, auth_routes, nest_some, db_connected, dev_user_of,
}
use fullstackhex.Api.Router.Layers.{
  Every, Every-new, Every-route, Every-merge, Every-nest, Every-layer, Every-at,
}

is_given : Option Text → Bool
is_given none = false
is_given (some t) = true

auth_mounted : AppState → Bool
auth_mounted c = db_connected c.db && (c.has_auth && c.has_redis)

notes_mounted : AppState → Bool
unfolding is_given
notes_mounted c = db_connected c.db && (c.has_auth || is_given (dev_user_of c))

-- Whether everything is there that a handler is mounted for: a connected database, authentication and
-- Redis for accounts, a store for objects, and for notes a connected database and authentication or
-- a user for development.
unfoldable pub wants : AppState → Handler → Bool
unfolding auth_mounted notes_mounted
wants c register = auth_mounted c
wants c login = auth_mounted c
wants c logout = auth_mounted c
wants c forgot_password = auth_mounted c
wants c reset_password = auth_mounted c
wants c refresh = auth_mounted c
wants c providers = auth_mounted c
wants c me = auth_mounted c
wants c delete_account = auth_mounted c
wants c oauth_redirect = auth_mounted c
wants c oauth_callback = auth_mounted c
wants c upload = c.has_storage
wants c download = c.has_storage
wants c delete_object = c.has_storage
wants c list = c.has_storage
wants c presign = c.has_storage
wants c init_multipart = c.has_storage
wants c upload_part = c.has_storage
wants c complete_multipart = c.has_storage
wants c abort_multipart = c.has_storage
wants c list_notes = notes_mounted c
wants c create_note = notes_mounted c
wants c get_note = notes_mounted c
wants c update_note = notes_mounted c
wants c delete_note = notes_mounted c
wants c auth_me_disabled = not c.has_auth
wants c health = true
wants c health_db = true
wants c health_redis = true
wants c health_storage = true
wants c health_python = true
wants c health_auth = true
wants c metrics_handler = true
wants c metrics_python_proxy = true
wants c ws_handler = true
wants c notes_fallback = true

module _ {R : Type 0} (axum : Axum R) (c : AppState) where
  abbrev Served : Route → Type 0
  Served x = wants c x.handler ≡ true

  offers :
      {path : Text} {m : Method} {h : Handler} {r : R}
      → wants c h ≡ true
      → Every axum Served r
      → Every axum Served (axum.route path m h r)
  offers w e = Every-route axum w e

  layered : (l : Layer) {r : R} → Every axum Served r → Every axum Served (axum.layer l r)
  unfolding wrap
  layered l e = Every-layer axum (λ x q. q) e

  mounted :
      {prefix : Text} {a r : R}
      → Every axum Served a
      → Every axum Served r
      → Every axum Served (axum.nest prefix a r)
  unfolding under
  mounted ea er = Every-nest axum (λ x q. q) ea er

  mounted_when :
      (prefix : Text) (b : Bool) {a r : R}
      → (b ≡ true → Every axum Served a)
      → Every axum Served r
      → Every axum Served (nest_some axum prefix (if b then some a else none) r)
  unfolding nest_some
  mounted_when prefix true ea er = mounted (ea refl) er
  mounted_when prefix false ea er = er

  base_router-Served : (g : FeatureFlags) → Every axum Served (base_router axum g)
  unfolding base_router health_routes wants
  base_router-Served g =
      let health =
        (offers refl
          (offers refl (offers refl (offers refl (offers refl (offers refl (Every-new axum))))))) in
      layered _ (
        layered _ (
          layered _
            (offers refl (offers refl (offers refl (Every-merge axum health (Every-new axum)))))))

  auth_router-Served : auth_mounted c ≡ true → Every axum Served (auth_router axum)
  unfolding auth_router wants
  auth_router-Served w = layered _ (
      offers w (
        offers w (
          offers w (
            offers w (
              offers w (
                offers w
                  (offers w (offers w (offers w (offers w (offers w (Every-new axum))))))))))))

  storage_router-Served : c.has_storage ≡ true → Every axum Served (storage_router axum)
  unfolding storage_router wants
  storage_router-Served w = layered _ (
      offers w (
        offers w (
          offers w
            (offers w (offers w (offers w (offers w (offers w (offers w (Every-new axum))))))))))

  notes_router-Served : notes_mounted c ≡ true → Every axum Served (notes_router axum)
  unfolding notes_router wants
  notes_router-Served w =
      layered _ (offers w (offers w (offers w (offers w (offers w (Every-new axum))))))

  fallback_router-Served : Every axum Served (fallback_router axum)
  unfolding fallback_router wants
  fallback_router-Served =
      (offers refl (offers refl (offers refl (offers refl (offers refl (Every-new axum))))))

  notes_routes-Served :
      (has_auth : Bool) (dev : Option Text) (db : Bool)
      → ((db && (has_auth || is_given dev)) ≡ true → notes_mounted c ≡ true)
      → Every axum Served (notes_routes axum has_auth dev db)
  unfolding notes_routes is_given
  notes_routes-Served has_auth dev false w = fallback_router-Served
  notes_routes-Served true dev true w = notes_router-Served (w refl)
  notes_routes-Served false none true w = fallback_router-Served
  notes_routes-Served false (some uid) true w = layered _ (layered _ (notes_router-Served (w refl)))

  open_router-Served : Every axum Served (open_router axum c)
  unfolding open_router storage_routes auth_routes auth_mounted notes_mounted
  open_router-Served =
      mounted (notes_routes-Served c.has_auth (dev_user_of c) (db_connected c.db) (λ w. w)) (
        mounted_when _ c.has_storage storage_router-Served (
          mounted_when _ (db_connected c.db && (c.has_auth && c.has_redis)) auth_router-Served
            (base_router-Served c.feature_flags)))

  guarded-Served : (b : Bool) {r : R} → Every axum Served r → Every axum Served (guarded axum b r)
  unfolding guarded
  guarded-Served true e = layered _ (layered _ (layered _ e))
  guarded-Served false e = layered _ (layered _ e)

  build-Served :
      (b : Bool)
      → c.has_auth ≡ b
      → Every axum Served (
          if b
          then guarded axum c.has_redis (open_router axum c)
          else axum.route (codes "/auth/me") get auth_me_disabled (open_router axum c))
  unfolding wants
  build-Served true h = guarded-Served c.has_redis open_router-Served
  build-Served false h = offers (rw h refl) open_router-Served

  -- A handler is mounted only where everything is there that it is mounted for: a connected database,
  -- authentication and Redis for accounts, a store for objects, a connected database and
  -- authentication or a user for development for notes, and no authentication for the stand-in of
  -- the profile.
  pub handlers_are_served :
      (x : Route) → Memᴰ x (axum.routes (build_router axum c)) → wants c x.handler ≡ true
  unfolding build_router
  handlers_are_served x m = Every-at axum (build-Served c.has_auth refl) m
