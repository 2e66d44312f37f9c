-- ===== src/Sidecar.antt =====
-- backend/py-sidecar/src/lib.rs: the client of the Python sidecar. `Headers` checks what is put
-- into a request, `Exchange` is one request and its answer, `Retry` the loop around them.
pub mod Errors
pub mod Headers
pub mod Retry
pub mod Exchange
pub mod Client
