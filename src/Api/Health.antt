-- ===== src/Api/Health.antt =====
-- The cached checks of backend/api/src/health.rs. A time is in nanoseconds. What the dependencies
-- answer is an argument; a JSON answer is its texts `status` and `service`, where it has them.
pub mod Spacing
pub mod Report
use fullstackhex.Base.{
  ℕ, suc, ◌-◌, Bool, true, false, Text, codes, is_empty, text_eq, Option, none, some, ltb,
  if◌then◌else◌, Result, ok, err,
}
use fullstackhex.Sidecar.Errors.{SidecarError}

pub record Reply : Type 0 where
  pub status : Option Text
  pub service : Option Text

abbrev pub just_status : Text → Reply
just_status t = record { status = some t; service = none }

unfoldable pub is_ok : Reply → Bool
is_ok v = status_is (v.status)
  where
    status_is : Option Text → Bool
    status_is none = false
    status_is (some t) = text_eq t (codes "ok")

-- `HEALTH_CACHE_TTL` and `HEALTH_ERROR_CACHE_TTL`
abbrev pub health_cache_ttl : ℕ
health_cache_ttl = 1000000000

abbrev pub health_error_cache_ttl : ℕ
health_error_cache_ttl = 2000000000

-- `now` is the time at which `elapsed` is called.
unfoldable pub health_cache_fresh : ℕ → ℕ → Reply → Bool
unfolding is_ok
health_cache_fresh now cached_at v =
    ltb (now - cached_at) (if is_ok v then health_cache_ttl else health_error_cache_ttl)

-- A cache behind its lock, and how often its dependency has been looked at.
pub record Cell : Type 0 where
  pub cache : Option (ℕ × Reply)
  pub probes : ℕ

-- The `if let` of both paths.
unfoldable pub cached : ℕ → Option (ℕ × Reply) → Option Reply
unfolding health_cache_fresh
cached now none = none
cached now (some (at_, v)) = if health_cache_fresh now at_ v then some v else none

-- What happens under the write lock, taken at `now`: the check again, or the probe, whose value is
-- stored at `done`.
unfoldable pub locked_check : ℕ → ℕ → Reply → Cell → Reply × Cell
unfolding cached
locked_check now done value c = serve (cached now c.cache)
  where
    serve : Option Reply → Reply × Cell
    serve (some v) = (v, c)
    serve none = (value, record { cache = some (done, value); probes = suc c.probes })

-- A hit of the fast path is served; after a miss the write lock is taken.
unfoldable pub serve_or_lock : ℕ → ℕ → Reply → Cell → Option Reply → Reply × Cell
unfolding locked_check
serve_or_lock now done value c (some v) = (v, c)
serve_or_lock now done value c none = locked_check now done value c

-- A whole call without another one between its two locks.
unfoldable pub cached_value : ℕ → ℕ → ℕ → Reply → Cell → Reply × Cell
unfolding cached serve_or_lock
cached_value read_at now done value c = serve_or_lock now done value c (cached read_at c.cache)

pub data DbStatus : Type 0 where
  not_configured : DbStatus
  connected : DbStatus
  connection_failed : Text → DbStatus

unfoldable pub ping_reply : Result Text (Unit {0}) → Reply
ping_reply (ok u) = just_status (codes "ok")
ping_reply (err e) = just_status (codes "error")

unfoldable pub db_reply : DbStatus → Result Text (Unit {0}) → Reply
unfolding ping_reply
db_reply connected ping = ping_reply ping
db_reply not_configured ping = just_status (codes "disabled")
db_reply (connection_failed msg) ping = just_status (codes "error")

-- `redis` tells whether there is a client.
unfoldable pub redis_reply : Bool → Result Text (Unit {0}) → Reply
unfolding ping_reply
redis_reply true ping = ping_reply ping
redis_reply false ping = just_status (codes "disabled")

abbrev or_unknown : Option Text → Text
or_unknown none = codes "unknown"
or_unknown (some t) = t

unfoldable pub format_health_value : Reply → Reply
format_health_value v = record {
  status = some (or_unknown v.status);
  service = some (or_unknown v.service);
}

unfoldable pub sidecar_reply : Result SidecarError Reply → Reply
unfolding format_health_value
sidecar_reply (ok v) = format_health_value v
sidecar_reply (err e) = just_status (codes "unavailable")

unfoldable pub health_db_value : DbStatus → Result Text (Unit {0}) → ℕ → ℕ → ℕ → Cell → Reply × Cell
unfolding cached_value db_reply
health_db_value db ping read_at now done c = cached_value read_at now done (db_reply db ping) c

unfoldable pub health_redis_value : Bool → Result Text (Unit {0}) → ℕ → ℕ → ℕ → Cell → Reply × Cell
unfolding cached_value redis_reply
health_redis_value redis ping read_at now done c =
    cached_value read_at now done (redis_reply redis ping) c

unfoldable pub health_python_value : Result SidecarError Reply → ℕ → ℕ → ℕ → Cell → Reply × Cell
unfolding cached_value sidecar_reply
health_python_value quick read_at now done c = cached_value read_at now done (sidecar_reply quick) c

-- The status of the answer of `health_db`, `health_redis`, `health_storage` and `health_python`.
unfoldable pub health_status : Reply → ℕ
unfolding is_ok
health_status v = if is_ok v then 200 else 503

unfoldable pub health_db : DbStatus → Result Text (Unit {0}) → ℕ → ℕ → ℕ → Cell → (ℕ × Reply) × Cell
unfolding health_db_value health_status
health_db db ping read_at now done c =
    let r = health_db_value db ping read_at now done c in ((health_status r.0, r.0), r.1)

unfoldable pub health_redis : Bool → Result Text (Unit {0}) → ℕ → ℕ → ℕ → Cell → (ℕ × Reply) × Cell
unfolding health_redis_value health_status
health_redis redis ping read_at now done c =
    let r = health_redis_value redis ping read_at now done c in ((health_status r.0, r.0), r.1)

-- With a trace id the sidecar is asked, past the cache.
unfoldable pub health_python :
    Text
    → Result SidecarError Reply
    → Result SidecarError Reply
    → ℕ
    → ℕ
    → ℕ
    → Cell
    → (ℕ × Reply) × Cell
unfolding health_python_value sidecar_reply health_status
health_python trace_id traced quick read_at now done c =
    let r =
      if is_empty trace_id
      then health_python_value quick read_at now done c
      else (sidecar_reply traced, c) in
    ((health_status r.0, r.0), r.1)
