-- ===== src/Domain/Errors.antt =====
-- backend/domain/src/error.rs, with the error types of backend/cache/src/lib.rs and
-- backend/db/src/lib.rs that it converts. Messages are the bytes that the source formats.
use fullstackhex.Base.{
  ℕ, Text, codes, decimal, ◌≡◌, ◌≢◌, ◌⊎◌, inl, inr, ◌++◌, ◌≤◌, ◌<◌, refl, arith,
}

pub data ApiError : Type 0 where
  unauthorized forbidden not_found validation_error rate_limited conflict internal_error
        service_unavailable :
      Text → ApiError

-- `CacheError`; a command's failure carries the text that the client library prints.
pub data CacheError : Type 0 where
  not_configured : CacheError
  connection_failed command_failed serialization_failed : Text → CacheError
  session_not_found rate_limit_exceeded : CacheError
  backoff_blocked : ℕ → ℕ → Text → CacheError

-- `DbError`
pub data DbError : Type 0 where
  db_not_configured : DbError
  pool_timeout : ℕ → DbError
  query_failed migration_failed : Text → DbError

-- `sqlx::Error`, as far as the conversion tells its variants apart.
pub data SqlxError : Type 0 where
  row_not_found : Text → SqlxError
  pool_timed_out pool_closed : SqlxError
  other : Text → SqlxError

-- `From<CacheError> for ApiError`
unfoldable pub of_cache : CacheError → ApiError
of_cache not_configured = service_unavailable (codes "Redis not configured")
of_cache (connection_failed msg) = service_unavailable (codes "Redis connection failed: " ++ msg)
of_cache (command_failed e) = internal_error (codes "Redis error: " ++ e)
of_cache (serialization_failed msg) = internal_error msg
of_cache session_not_found = unauthorized (codes "Session not found")
of_cache rate_limit_exceeded = rate_limited (codes "Rate limit exceeded")
of_cache (backoff_blocked remaining_secs count label) = rate_limited (
    codes "Too many attempts ("
    ++ decimal count
    ++ codes " failures). Try again in "
    ++ decimal remaining_secs
    ++ codes " seconds ("
    ++ label
    ++ codes " cooldown).")

-- `From<sqlx::Error> for ApiError`
unfoldable pub of_sqlx : SqlxError → ApiError
of_sqlx (row_not_found msg) = not_found msg
of_sqlx pool_timed_out = service_unavailable (codes "Database pool timeout")
of_sqlx pool_closed = service_unavailable (codes "Database pool closed")
of_sqlx (other e) = internal_error (codes "Database query failed: " ++ e)

-- `From<DbError> for ApiError`
unfoldable pub of_db : DbError → ApiError
of_db db_not_configured = service_unavailable (codes "Database not configured")
of_db (pool_timeout secs) = service_unavailable (codes "Database pool timeout")
of_db (query_failed e) = internal_error (codes "Database error: " ++ e)
of_db (migration_failed e) = internal_error (codes "Migration error: " ++ e)

pub record Response : Type 0 where
  pub status : ℕ
  pub code : Text
  pub message : Text

-- `IntoResponse for ApiError`: the status and the two fields of the JSON body.
unfoldable pub into_response : ApiError → Response
into_response (unauthorized msg) = record {
  status = 401;
  code = codes "UNAUTHORIZED";
  message = msg;
}
into_response (forbidden msg) = record { status = 403; code = codes "FORBIDDEN"; message = msg }
into_response (not_found msg) = record { status = 404; code = codes "NOT_FOUND"; message = msg }
into_response (validation_error msg) = record {
  status = 422;
  code = codes "VALIDATION_ERROR";
  message = msg;
}
into_response (conflict msg) = record { status = 409; code = codes "CONFLICT"; message = msg }
into_response (rate_limited msg) = record {
  status = 429;
  code = codes "RATE_LIMITED";
  message = msg;
}
into_response (internal_error msg) = record {
  status = 500;
  code = codes "INTERNAL_ERROR";
  message = msg;
}
into_response (service_unavailable msg) = record {
  status = 503;
  code = codes "SERVICE_UNAVAILABLE";
  message = msg;
}

-- The answer to an error tells which error it was: two errors with the same status and message
-- are the same error.
pub into_response-injective :
    (e f : ApiError)
    → (into_response e).status ≡ (into_response f).status
    → (into_response e).message ≡ (into_response f).message
    → e ≡ f
unfolding into_response
into_response-injective e f h k = ground arith

abbrev pub answer : CacheError → ℕ
answer e = (into_response (of_cache e)).status

-- A cache error is answered by 401 exactly for a missing session, by 429 exactly for a rate limit
-- or a backoff, and by a 5xx status in every other case.
pub of_cache_statuses :
    (e : CacheError)
    → ((answer e ≡ 401) × (e ≡ session_not_found))
      ⊎ (((answer e ≡ 429)
            × ((e ≡ rate_limit_exceeded)
                ⊎ ((r : ℕ) × (n : ℕ) × (l : Text) × (e ≡ backoff_blocked r n l))))
          ⊎ ((500 ≤ answer e) × (answer e < 600) × (e ≢ session_not_found)))
unfolding of_cache into_response
of_cache_statuses not_configured = ground arith
of_cache_statuses (connection_failed msg) = ground arith
of_cache_statuses (command_failed e) = ground arith
of_cache_statuses (serialization_failed msg) = ground arith
of_cache_statuses session_not_found = ground arith
of_cache_statuses rate_limit_exceeded = ground arith
of_cache_statuses (backoff_blocked r n l) = inr (inl (refl, inr (r, n, l, refl)))
