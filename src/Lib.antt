-- ===== src/Lib.antt =====
-- fullstackhex: a model of the Rust backend, and theorems about it.
--
-- The backend authenticates users (backend/auth), keeps sessions, tokens, rate limits and backoff
-- counters in Redis (backend/cache), maps every error to one HTTP answer (backend/domain), calls a
-- Python service over a socket (backend/py-sidecar), stores objects (backend/storage), and serves
-- notes and live events over web sockets (backend/api). A request passes the maintenance middleware
-- and the auth middleware, and then a handler; a handler changes Redis and the database, each call
-- of which may fail before or after it took effect.
--
-- Files, and the code that they follow:
-- - Base: texts as lists of UTF-8 bytes with the functions of `str`, lists, results, and methods
--   that change a state and may fail (Exec).
-- - Domain/Errors, Domain/Flags: backend/domain/src/error.rs (ApiError, the From impls,
--   into_response), backend/domain/src/lib.rs (FeatureFlags), backend/api/src/middleware.rs.
-- - Cache/Redis: the interface of the server, one law for each command; Cache/Memory fills it.
--   Cache/Client: a call over the network (backend/cache/src/lib.rs). Cache/Store:
--   backend/cache/src/cache.rs. Cache/Session: backend/cache/src/session.rs. Cache/RateLimit and
--   Cache/Backoff: backend/cache/src/rate_limit.rs. Cache/Deletion: cache_invalidate_pattern of
--   backend/cache/src/cache.rs. Cache/PubSub: backend/cache/src/pubsub.rs, a step relation.
-- - Sidecar/Headers, Sidecar/Exchange, Sidecar/Retry, Sidecar/Client: validate_header_value,
--   perform_request, do_request_inner and the public calls of backend/py-sidecar/src/lib.rs.
-- - Auth/Util, Cookies, ClientIp, Registration, OauthState, Config: the helpers of
--   backend/auth/src; Auth/App: the services that the handlers call, and the state they change;
--   Auth/Provider: backend/auth/src/oauth.rs; Auth/Request, Auth/Blacklist,
--   Auth/Middleware, Auth/Signature: backend/auth/src/middleware.rs; Auth/Routes: the handlers of
--   backend/auth/src/routes.rs, one file for each group.
-- - Storage/Keys, Storage/Routes: backend/storage/src/routes.rs. Storage/Trim, Storage/Sign,
--   Storage/Client, Storage/Multipart: backend/storage/src/client.rs. Storage/Config, and the bucket operations in
--   Storage/Client: backend/storage/src/lib.rs.
-- - Api/Live: backend/api/src/live.rs; Capacity is the server as a step relation on the slots, Loop
--   the loop of one socket. Api/Rows: the table of notes and its queries. Api/Cursor, Api/Blank,
--   Api/Notes: the cursors, the test of a title and the handlers of
--   backend/api/src/notes.rs. Api/Health: the cached checks of backend/api/src/health.rs; Spacing is
--   a cache under the interleaved locks of concurrent calls. Api/Router: the routes and layers of
--   backend/api/src/lib.rs over the interface Axum; Router/Stack: the layers at work on a request;
--   Router/Serve: a request for a note from the layers to its handler. Api/Health/Report,
--   Api/Metrics, Api/Startup: the joint health answer, backend/api/src/metrics.rs and
--   backend/auth/src/metrics.rs, and what `router` reads at the start.
-- - Tests: the theorems applied at concrete inputs.
--
-- State. `World` is the server's data as one process sees it, with a list of turns of the network: a
-- turn says what other clients did before the call and whether the command and its reply get
-- through. A quiet network has no turns left. `App` adds the database, the outcomes of its queries,
-- the random texts to come and the blacklist of the process. Lua scripts run in one step. Numbers
-- are natural numbers; a u64 is reduced modulo 2^64 or saturates where the code can reach that.
-- Times to live are natural numbers: the cast of `as_secs()` to an i64 changes none below 2^63.
-- A locked health check is one step. So are the permit of a socket with its user's count, and the
-- drops of its two guards, which follow one another without an await: what another thread could do
-- between the two is left out.
-- Loops are structural recursion: the retry loop on the attempts left, with max_retries + 1 rounds,
-- the loop of a socket on the rounds that occur, the client that follows note cursors on the
-- requests it is ready to make, one more than there are notes being enough.
--
-- Parameters: Redis, the database, JSON, Argon2, JWT signatures, how an address prints, percent
-- decoding, the OAuth2 library and the providers' answers, the router library, URLs, SHA-256,
-- HMAC, XML reading, the lossy reading of UTF-8, Base64, UUID texts, the HTTP exchange with the
-- object store and the bytes that the sidecar's socket delivers. Laws are assumed of Redis, of the JSON codecs, of Base64 and
-- of UUID texts, that digests are bytes, and of the router library that a layer wraps the routes
-- added before it, that a nested route has its prefix, and that a path without parameters is
-- matched by itself only.
--
-- Not modelled: connecting to services and serving sockets, which are I/O; logging and the values
-- of counters, which change nothing that the code reads; what a broadcast channel drops for a
-- receiver that is too slow; the frontend and the Python service, which are other programs.
pub mod Base
pub mod Domain
pub mod Cache
pub mod Sidecar
pub mod Auth
pub mod Storage
pub mod Api
mod Tests
