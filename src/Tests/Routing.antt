-- ===== src/Tests/Routing.antt =====
-- The theorems on the router, for routers that are lists of their routes.
use mathlib.Core.List.{Memᴰ}
use fullstackhex.Base.{
  Bool, true, false, Text, codes, text_eq, List, [], ◌∷◌, ◌++◌, map, Option, none, some, ok, err,
  refl, ◌≡◌, ◌≢◌, contains, text_eq_iff, sym, Result, ℕ, length, arith, ap, subst,
}
use fullstackhex.Cache.Store.{cache_get}
use fullstackhex.Auth.Request.{is_public, unauthorized, get, AuthRejection}
use fullstackhex.Auth.Blacklist.{blacklisted_in_process}
use fullstackhex.Auth.Middleware.{extract_bearer, auth_middleware, AuthUser}
use fullstackhex.Api.Health.{connected}
use fullstackhex.Api.Router.{
  Route, Axum, AppState, wrap, under, build_router, list_notes, flags, auth, auth_service,
  redis_client, body_limit, dev_user, dev_user_id,
}
use fullstackhex.Api.Router.Stack.{
  Extensions, run_layers, no_extensions, reached, unavailable, extract_user,
}
use fullstackhex.Api.Router.Users.{handlers_see_user}
use fullstackhex.Api.Router.Dev.{no_user_without_auth}
use fullstackhex.Api.Router.Maintenance.{maintenance_refuses_no_route}
use fullstackhex.Api.Router.Mounted.{handlers_are_served, wants}
use fullstackhex.Api.Cursor.{Libraries}
use fullstackhex.Api.Notes.Owner.{rows_of}
use fullstackhex.Api.Router.Serve.{serve_note, served_notes_isolated, delete}
use fullstackhex.Tests.Sockets.{libraries, notes}
use fullstackhex.Tests.World.{platform, config, app}
use fullstackhex.Tests.Handlers.{prefix, by_bearer, bearer_user}

abbrev lists : Axum (List Route)
lists = record {
  new = [];
  route = λ path m h r. record { method = m; path = path; layers = []; handler = h } ∷ r;
  merge = λ a r. a ++ r;
  nest = λ prefix a r. map (under prefix) a ++ r;
  layer = λ l r. map (wrap l) r;
  routes = λ r. r;
  routes-new = refl;
  routes-route = λ path m h r. refl;
  routes-merge = λ a r. refl;
  routes-nest = λ prefix a r. refl;
  routes-layer = λ l r. refl;
}

abbrev dev_env : Text → Option Text
dev_env name = some (codes "dev-1")

abbrev state : Bool → AppState
state has_auth = record {
  feature_flags = record { maintenance_mode = true };
  db = connected;
  has_redis = true;
  has_auth = has_auth;
  has_storage = false;
  env = dev_env;
  is_uuid = λ t. true;
}

-- The route of `list_notes` with authentication, and the extensions that it ends with.
abbrev notes_route : Route
notes_route = record {
  method = get;
  path = codes "/notes";
  layers = redis_client ∷ auth_service ∷ auth ∷ body_limit 131072 ∷ [];
  handler = list_notes;
}

abbrev at_notes : Extensions
at_notes = record no_extensions {
  has_auth = true;
  has_redis = true;
  user = some (bearer_user (codes "j1"));
}

notes_route-Mem : Memᴰ notes_route (build_router lists (state true))
unfolding build_router fullstackhex.Api.Router.open_router wrap under
notes_route-Mem = Memᴰ.head refl

handlers_see_user_example :
    auth_middleware platform config prefix true (by_bearer (codes "j1")) app ≡ (
      ok (some (bearer_user (codes "j1"))),
      (run_layers platform config prefix
          (by_bearer (codes "j1"))
          notes_route.layers
          no_extensions
          app).1,
    )
unfolding run_layers auth_middleware is_public fullstackhex.Base.starts_with extract_bearer
    fullstackhex.Base.split_once fullstackhex.Base.eq_ignore_case fullstackhex.Base.trim_start
    blacklisted_in_process cache_get
handlers_see_user_example =
    handlers_see_user platform config prefix (by_bearer (codes "j1")) lists (state true) notes_route
      at_notes app
      (run_layers platform config prefix (by_bearer (codes "j1")) notes_route.layers no_extensions
        app).1
      refl notes_route-Mem refl

-- The same route with a user for development.
abbrev dev_route : Route
dev_route = record notes_route {
  layers = dev_user ∷ dev_user_id (codes "dev-1") ∷ body_limit 131072 ∷ [];
}

abbrev at_dev_notes : Extensions
at_dev_notes = record no_extensions { dev_user_id = some (codes "dev-1") }

dev_route-Mem : Memᴰ dev_route (build_router lists (state false))
unfolding build_router fullstackhex.Api.Router.open_router wrap under
    fullstackhex.Api.Router.dev_user_of
dev_route-Mem = Memᴰ.tail (Memᴰ.head refl)

no_user_without_auth_example : extract_user at_dev_notes ≡ err unauthorized
unfolding run_layers fullstackhex.Api.Router.Stack.dev_user_middleware
no_user_without_auth_example =
    no_user_without_auth platform config prefix (by_bearer (codes "j1")) lists (state false)
      dev_route at_dev_notes app app refl dev_route-Mem refl

literal :
    (pattern path : Text)
    → contains b'{' pattern ≡ false
    → text_eq path pattern ≡ true
    → path ≡ pattern
literal pattern path fixed h = (text_eq_iff path pattern).0 h

maintenance_refuses_no_route_example :
    (run_layers platform config prefix
      (by_bearer (codes "j1"))
      dev_route.layers
      no_extensions
      app).0
    ≢ ok unavailable
maintenance_refuses_no_route_example =
    maintenance_refuses_no_route platform config prefix (by_bearer (codes "j1")) lists
      (λ pattern path. text_eq path pattern) literal (state false) dev_route app dev_route-Mem refl

handlers_are_served_example : wants (state false) list_notes ≡ true
handlers_are_served_example = handlers_are_served lists (state false) dev_route dev_route-Mem

-- Libraries for which the number of an id is its length.
abbrev by_length : Libraries
by_length = record libraries { cast_uuid = λ t. some (length t) }

number : Option ℕ → ℕ
number none = 0
number (some n) = n

five-ne-3 : ◌≢◌ {A = Option ℕ} (some 5) (some 3)
unfolding number
five-ne-3 h = absurd (omega (arith, ap number h))

NotThree : Result AuthRejection (Option AuthUser) → Type 0
NotThree (ok (some u)) = by_length.cast_uuid u.user_id ≢ some 3
NotThree (ok none) = Unit
NotThree (err e) = Unit

not_three :
    (u : AuthUser)
    → (auth_middleware platform config prefix true (by_bearer (codes "j1")) app).0 ≡ ok (some u)
    → by_length.cast_uuid u.user_id ≢ some 3
unfolding NotThree auth_middleware is_public fullstackhex.Base.starts_with extract_bearer
    fullstackhex.Base.split_once fullstackhex.Base.eq_ignore_case fullstackhex.Base.trim_start
    blacklisted_in_process cache_get
not_three u h = subst NotThree h five-ne-3

served_notes_isolated_example :
    rows_of 3
      (serve_note platform config prefix by_length notes_route.layers
        (by_bearer (codes "j1"))
        (delete (codes "aa"))
        app
        notes).1
    ≡ rows_of 3 notes
served_notes_isolated_example =
    served_notes_isolated platform config prefix by_length lists (state true) notes_route
      (by_bearer (codes "j1")) (delete (codes "aa")) app notes 3 refl notes_route-Mem not_three
