-- ===== src/Sidecar/Errors.antt =====
-- `SidecarError` of backend/py-sidecar/src/lib.rs; durations are in milliseconds.
use fullstackhex.Base.{ℕ, Text}

pub data SidecarError : Type 0 where
  socket_not_found connection_failed : Text → SidecarError
  timeout : ℕ → SidecarError
  invalid_response invalid_input : Text → SidecarError
  http_error : ℕ → Text → SidecarError
