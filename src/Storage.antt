-- ===== src/Storage.antt =====
-- backend/storage/src: the configuration, the signing of requests, the client and its routes.
pub mod Trim
pub mod Keys
pub mod Config
pub mod Sign
pub mod Client
pub mod Multipart
pub mod Routes
