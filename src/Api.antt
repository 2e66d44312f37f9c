-- ===== src/Api.antt =====
-- backend/api/src: the live socket, the notes and the health checks.
pub mod Live
pub mod Rows
pub mod Blank
pub mod Cursor
pub mod Notes
pub mod Health
pub mod Router
pub mod Metrics
pub mod Startup
