-- ===== src/Auth/Routes.antt =====
-- backend/auth/src/routes.rs: the handlers. `Tokens` holds what several of them do, with
-- backend/auth/src/jwt.rs and backend/auth/src/password.rs.
pub mod Tokens
pub mod Register
pub mod Login
pub mod Logout
pub mod Password
pub mod Refresh
pub mod Oauth
