-- ===== src/Api/Startup.antt =====
-- `router` of backend/api/src/lib.rs: what the environment decides when the server starts. Connecting to
-- the database and to Redis are calls outside; their outcomes are arguments.
use fullstackhex.Base.{
  ℕ, Bool, true, false, Text, codes, is_empty, Option, none, some, Result, ok, err, ◌++◌,
  if◌then◌else◌, parse_unsigned,
}
use fullstackhex.Domain.Flags.{Env}
use fullstackhex.Domain.Errors.{CacheError}
use fullstackhex.Api.Health.{DbStatus, not_configured, connected, connection_failed}

abbrev or_default : Option ℕ → ℕ → ℕ
or_default none default_ = default_
or_default (some n) default_ = n

-- `parse_env_or` for an unsigned type of `bits` bits; a value that is not Unicode counts as missing.
unfoldable pub parse_env_or : ℕ → Env → Text → ℕ → ℕ
parse_env_or bits env key default_ = elim (env key) [
  | none ↦ default_
  | some v ↦ or_default (parse_unsigned bits v) default_
]

-- The limits of the live socket.
pub record WebSocketState : Type 0 where
  pub max_connections : ℕ
  pub idle_timeout_secs : ℕ
  pub per_user_max : ℕ

unfoldable pub ws_state : Env → WebSocketState
unfolding parse_env_or
ws_state env = record {
  max_connections = parse_env_or 64 env (codes "WS_MAX_CONNECTIONS") 100;
  idle_timeout_secs = parse_env_or 64 env (codes "WS_IDLE_TIMEOUT_SECS") 300;
  per_user_max = parse_env_or 64 env (codes "WS_PER_USER_MAX") 10;
}

abbrev non_empty : Option Text → Option Text
non_empty none = none
non_empty (some v) = if is_empty v then none else some v

unfoldable pub allowed_origin : Env → Option Text
allowed_origin env = non_empty (env (codes "ALLOWED_ORIGIN"))

-- Connecting with the URL, and the migrations; an error of a migration ends the start.
unfoldable pub connect_db :
    Option Text → Result Text (Unit {0}) → Result Text (Unit {0}) → Result Text DbStatus
connect_db none connect migrate = ok not_configured
connect_db (some url) (err e) migrate = ok (connection_failed (codes "connection failed: " ++ e))
connect_db (some url) (ok u) (ok v) = ok connected
connect_db (some url) (ok u) (err e) = err e

unfoldable pub db_max_connections : Env → ℕ
db_max_connections env = elim (env (codes "DB_MAX_CONNECTIONS")) [
  | none ↦ 20
  | some v ↦ or_default (parse_unsigned 32 v) 20
]

-- Redis is left out on any error.
unfoldable pub redis_enabled : Result CacheError (Unit {0}) → Bool
redis_enabled (ok u) = true
redis_enabled (err e) = false
