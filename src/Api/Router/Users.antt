-- ===== src/Api/Router/Users.antt =====
-- backend/api/src/lib.rs: which user a handler sees behind the layers of its route.
use mathlib.Core.List.{Memᴰ}
use fullstackhex.Base.{
  Bool, true, false, Text, List, [], ◌∷◌, Option, none, some, ok, ◌≡◌, ◌⊎◌, inl, inr, refl, ap, sym,
  ◌∙◌, if◌then◌else◌, All, subst, ◌&&◌,
}
use fullstackhex.Base.Exec.{bind-ok, pure}
use fullstackhex.Auth.Config.{AuthConfig}
use fullstackhex.Auth.App.{Platform, App}
use fullstackhex.Auth.Request.{Request}
use fullstackhex.Auth.Middleware.{AuthUser, auth_middleware}
use fullstackhex.Domain.Flags.{FeatureFlags, maintenance_middleware}
use fullstackhex.Api.Router.{
  Layer, Route, Axum, AppState, track_metrics, track_auth_metrics, maintenance, auth, dev_user,
  auth_service, redis_client, flags, dev_user_id, body_limit, wrap, build_router, open_router,
  guarded, auth_routes, storage_routes, notes_routes, dev_user_of, db_connected,
}
use fullstackhex.Api.Router.Stack.{
  Extensions, reached, unavailable, run_layers, authenticated, with_user, no_extensions,
}
use fullstackhex.Api.Router.Parts.{
  nested, nested_if, base_router-Fine, auth_router-Fine, storage_router-Fine, notes_router-Fine,
  fallback_router-Fine,
}
use fullstackhex.Api.Router.Layers.{Every, Every-nest, Every-layer, Every-then, Every-at}

-- A layer that does not touch the user.
unfoldable pub Plain : Layer → Type 0
Plain track_metrics = Unit
Plain track_auth_metrics = Unit
Plain maintenance = Unit
Plain (flags f) = Unit
Plain (body_limit n) = Unit
Plain auth = ⊥
Plain dev_user = ⊥
Plain auth_service = ⊥
Plain redis_client = ⊥
Plain (dev_user_id uid) = ⊥

if_cases {ℓ} :
    {A : Type ℓ} (b : Bool) (x y : A) → ((if b then x else y) ≡ x) ⊎ ((if b then x else y) ≡ y)
if_cases true x y = inl refl
if_cases false x y = inr refl

maintenance_cases {ℓ} :
    {A : Type ℓ} (path : Text) (fs : Option FeatureFlags) (a b : A)
    → (maintenance_middleware path fs a b ≡ a) ⊎ (maintenance_middleware path fs a b ≡ b)
unfolding maintenance_middleware
maintenance_cases path fs a b = if_cases _ a b

abbrev pub PlainRoute : Route → Type 0
PlainRoute x = All Plain x.layers

module _ {R : Type 0} (axum : Axum R) where
  notes_routes-Plain :
      (dev : Option Text) (db : Bool) → Every axum PlainRoute (notes_routes axum true dev db)
  unfolding notes_routes Plain
  notes_routes-Plain dev false = fallback_router-Fine axum Plain tt (λ n. tt)
  notes_routes-Plain dev true = notes_router-Fine axum Plain tt (λ n. tt)

  open_router-Plain :
      (c : AppState) → c.has_auth ≡ true → Every axum PlainRoute (open_router axum c)
  unfolding open_router storage_routes auth_routes Plain
  open_router-Plain c e =
      Every-nest axum (nested axum Plain tt (λ n. tt) _)
        (subst
          (λ b. Every axum PlainRoute (notes_routes axum b (dev_user_of c) (db_connected c.db)))
          (sym e) (notes_routes-Plain (dev_user_of c) (db_connected c.db)))
        (nested_if axum _ c.has_storage (nested axum Plain tt (λ n. tt) _)
          (storage_router-Fine axum Plain tt (λ n. tt))
          (nested_if axum _ (db_connected c.db && (c.has_auth && c.has_redis))
            (nested axum Plain tt (λ n. tt) _) (auth_router-Fine axum Plain tt (λ n. tt))
            (base_router-Fine axum Plain tt (λ n. tt) c.feature_flags tt tt tt)))

module _ (p : Platform) (config : AuthConfig) (prefix : Text) (req : Request) where
  -- Plain layers end in the handler with the extensions' user, and change nothing else.
  pub Plain-keeps :
      (ls : List Layer) (e f : Extensions) (s t : App p)
      → All Plain ls
      → run_layers p config prefix req ls e s ≡ (ok (reached f), t)
      → (f.user ≡ e.user) × (t ≡ s)
  unfolding run_layers Plain
  Plain-keeps [] e f s t pl h = (cc h, cc h)
  Plain-keeps (track_metrics ∷ ls) e f s t pl h = Plain-keeps ls e f s t pl.1 h
  Plain-keeps (track_auth_metrics ∷ ls) e f s t pl h = Plain-keeps ls e f s t pl.1 h
  Plain-keeps (body_limit n ∷ ls) e f s t pl h = Plain-keeps ls e f s t pl.1 h
  Plain-keeps (flags g ∷ ls) e f s t pl h =
      Plain-keeps ls (record e { flags = some g }) f s t pl.1 h
  Plain-keeps (maintenance ∷ ls) e f s t pl h =
      elim (maintenance_cases req.path e.flags (pure unavailable)
        (run_layers p config prefix req ls e)) [
          | inl q ↦ absurd (cc (sym (ap (λ k. k s) q) ∙ h))
          | inr q ↦ Plain-keeps ls e f s t pl.1 (sym (ap (λ k. k s) q) ∙ h)
        ]
  Plain-keeps (auth ∷ ls) e f s t pl h = absurd pl.0
  Plain-keeps (dev_user ∷ ls) e f s t pl h = absurd pl.0
  Plain-keeps (auth_service ∷ ls) e f s t pl h = absurd pl.0
  Plain-keeps (redis_client ∷ ls) e f s t pl h = absurd pl.0
  Plain-keeps (dev_user_id uid ∷ ls) e f s t pl h = absurd pl.0

  with_user-none : (e : Extensions) (u : Option AuthUser) → e.user ≡ none → (with_user e u).user ≡ u
  unfolding with_user
  with_user-none e none q = q
  with_user-none e (some u) q = refl

  -- The middleware adds the user that it finds, if any.
  authenticated-ok :
      (has_auth : Bool) (e g : Extensions) (s t : App p)
      → has_auth ≡ true
      → e.user ≡ none
      → authenticated p config prefix req has_auth e s ≡ (ok g, t)
      → auth_middleware p config prefix e.has_redis req s ≡ (ok g.user, t)
  unfolding authenticated
  authenticated-ok false e g s t a n h = absurd (cc a)
  authenticated-ok true e g s t a n h =
      let (u, v, q, r) =
        bind-ok (auth_middleware p config prefix e.has_redis req) (λ u. pure (with_user e u)) s t g
          h in
      cc (q, r, with_user-none e u n)

  behind_auth :
      (ls : List Layer) (e f : Extensions) (s t : App p)
      → All Plain ls
      → e.has_auth ≡ true
      → e.user ≡ none
      → run_layers p config prefix req (auth ∷ ls) e s ≡ (ok (reached f), t)
      → auth_middleware p config prefix e.has_redis req s ≡ (ok f.user, t)
  unfolding run_layers
  behind_auth ls e f s t pl a n h =
      let (g, u, q, r) =
        bind-ok (authenticated p config prefix req e.has_auth e)
          (λ x. run_layers p config prefix req ls x) s t (reached f) h in
      let k = Plain-keeps ls g f u t pl r in
      cc (authenticated-ok e.has_auth e g s u a n q, k.0, k.1)

  -- What a handler sees as its user, from some extensions on, is what the middleware says.
  abbrev Sees : Extensions → Bool → Route → Type 0
  Sees e has_redis x =
      (f : Extensions) (s t : App p)
      → run_layers p config prefix req x.layers e s ≡ (ok (reached f), t)
      → auth_middleware p config prefix has_redis req s ≡ (ok f.user, t)

  abbrev pub SeesUser : Bool → Route → Type 0
  SeesUser = Sees no_extensions

  abbrev served : Bool → Extensions
  served has_redis = record no_extensions { has_auth = true; has_redis = has_redis }

  module _ {R : Type 0} (axum : Axum R) where
    auth-Sees :
        (b : Bool) {r : R}
        → Every axum PlainRoute r
        → Every axum (Sees (served b) b) (axum.layer auth r)
    unfolding wrap
    auth-Sees b e =
        Every-layer axum (λ x pl f s t h. behind_auth x.layers (served b) f s t pl refl refl h) e

    guarded-SeesUser :
        (b : Bool) {r : R} → Every axum PlainRoute r → Every axum (SeesUser b) (guarded axum b r)
    unfolding guarded wrap run_layers
    guarded-SeesUser true e =
        Every-layer axum {Q = Sees (record no_extensions { has_redis = true }) true} (λ x q. q)
          (Every-layer axum {Q = Sees (served true) true} (λ x q. q) (auth-Sees true e))
    guarded-SeesUser false e =
        Every-layer axum {Q = Sees (served false) false} (λ x q. q) (auth-Sees false e)

    build_router-SeesUser :
        (c : AppState) → c.has_auth ≡ true → Every axum (SeesUser c.has_redis) (build_router axum c)
    unfolding build_router
    build_router-SeesUser c e =
        Every-then axum c.has_auth _ e (guarded-SeesUser c.has_redis (open_router-Plain axum c e))

    -- With authentication configured, a request that has come through the layers of any route to its
    -- handler has passed the auth middleware, and the user that the handler sees is the one that the
    -- middleware found, with the blacklist in reach exactly if Redis is configured.
    pub handlers_see_user :
        (c : AppState) (x : Route) (f : Extensions) (s t : App p)
        → c.has_auth ≡ true
        → Memᴰ x (axum.routes (build_router axum c))
        → run_layers p config prefix req x.layers no_extensions s ≡ (ok (reached f), t)
        → auth_middleware p config prefix c.has_redis req s ≡ (ok f.user, t)
    handlers_see_user c x f s t e m h = Every-at axum (build_router-SeesUser c e) m f s t h
