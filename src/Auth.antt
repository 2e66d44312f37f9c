-- ===== src/Auth.antt =====
-- backend/auth/src: cookies and CSRF tokens, the client's address, the checks on a registration,
-- the OAuth state, the authentication middleware and the signature for the sidecar.
pub mod Util
pub mod Cookies
pub mod ClientIp
pub mod Registration
pub mod OauthState
pub mod Config
pub mod App
pub mod Request
pub mod Blacklist
pub mod Middleware
pub mod Signature
pub mod Provider
pub mod Routes
