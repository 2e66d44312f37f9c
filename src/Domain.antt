-- ===== src/Domain.antt =====
-- backend/domain/src: the shared error type, its HTTP answer and the conversions into it, and the
-- feature flags. The text that a third-party error prints is an argument.
pub mod Errors
pub mod Flags
