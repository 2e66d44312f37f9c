-- ===== src/Api/Router/Stack.antt =====
-- The layers of backend/api/src/lib.rs at work on one request: what each of them reads and adds in the
-- request's extensions (backend/api/src/middleware.rs and the auth middleware), and the extraction of
-- the user before a handler runs. Counters and the body's limit do not look at the extensions.
use fullstackhex.Base.{
  Bool, true, false, Text, codes, List, [], ◌∷◌, Option, none, some, Result, ok_or,
}
use fullstackhex.Base.Exec.{pure, ◌>>=◌}
use fullstackhex.Domain.Flags.{FeatureFlags, maintenance_middleware}
use fullstackhex.Auth.Config.{AuthConfig}
use fullstackhex.Auth.App.{Platform}
use fullstackhex.Auth.Request.{Request, AuthRejection, unauthorized}
use fullstackhex.Auth.Middleware.{AuthUser, AuthM, auth_middleware}
use fullstackhex.Api.Router.{
  Layer, track_metrics, track_auth_metrics, maintenance, auth, dev_user, auth_service, redis_client,
  flags, dev_user_id, body_limit,
}

pub record Extensions : Type 0 where
  pub flags : Option FeatureFlags
  pub has_auth : Bool
  pub has_redis : Bool
  pub dev_user_id : Option Text
  pub user : Option AuthUser

abbrev pub no_extensions : Extensions
no_extensions = record {
  flags = none;
  has_auth = false;
  has_redis = false;
  dev_user_id = none;
  user = none;
}

pub data Outcome : Type 0 where
  -- The answer 503 of the maintenance middleware.
  unavailable : Outcome
  -- The handler runs, with these extensions.
  reached : Extensions → Outcome

-- The user that `dev_user_middleware` makes up.
unfoldable pub mock_user : Text → AuthUser
mock_user uid = record {
  user_id = uid;
  email = codes "dev@local.dev";
  name = some (codes "Dev User");
  provider = codes "dev";
  jti = [];
  session_id = none;
}

unfoldable pub dev_user_middleware : Extensions → Extensions
unfolding mock_user
dev_user_middleware e = insert e.dev_user_id
  where
    insert : Option Text → Extensions
    insert none = e
    insert (some uid) = record e { user = some (mock_user uid) }

-- `AuthUser::from_request_parts`
unfoldable pub extract_user : Extensions → Result AuthRejection AuthUser
extract_user e = ok_or e.user unauthorized

unfoldable pub with_user : Extensions → Option AuthUser → Extensions
with_user e none = e
with_user e (some u) = record e { user = some u }

module _ (p : Platform) (config : AuthConfig) (prefix : Text) (req : Request) where
  unfoldable pub authenticated : Bool → Extensions → AuthM p config prefix Extensions
  unfolding with_user
  authenticated false e = pure e
  authenticated true e = do
    user ← auth_middleware p config prefix e.has_redis req
    pure (with_user e user)

  unfoldable pub run_layers : List Layer → Extensions → AuthM p config prefix Outcome
  unfolding authenticated dev_user_middleware
  run_layers [] e = pure (reached e)
  run_layers (track_metrics ∷ ls) e = run_layers ls e
  run_layers (track_auth_metrics ∷ ls) e = run_layers ls e
  run_layers (body_limit n ∷ ls) e = run_layers ls e
  run_layers (flags f ∷ ls) e = run_layers ls (record e { flags = some f })
  run_layers (auth_service ∷ ls) e = run_layers ls (record e { has_auth = true })
  run_layers (redis_client ∷ ls) e = run_layers ls (record e { has_redis = true })
  run_layers (dev_user_id uid ∷ ls) e = run_layers ls (record e { dev_user_id = some uid })
  run_layers (dev_user ∷ ls) e = run_layers ls (dev_user_middleware e)
  run_layers (auth ∷ ls) e = do f ← authenticated e.has_auth e; run_layers ls f
  run_layers (maintenance ∷ ls) e =
      maintenance_middleware req.path e.flags (pure unavailable) (run_layers ls e)
