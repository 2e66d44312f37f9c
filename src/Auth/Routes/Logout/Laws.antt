-- ===== src/Auth/Routes/Logout/Laws.antt =====
-- What `logout` of backend/auth/src/routes.rs leaves behind.
use fullstackhex.Base.{Text, codes}
use fullstackhex.Cache.Client.{make_key}
use fullstackhex.Auth.Config.{AuthConfig}
use fullstackhex.Auth.App.{Platform, App}
use fullstackhex.Auth.Request.{Request}

module _ (p : Platform) (config : AuthConfig) (prefix : Text) where
  abbrev blacklist_key : Text → Text
  blacklist_key jti = make_key prefix (codes "blacklist") jti
