-- ===== src/Api/Health/Report.antt =====
-- `health` of backend/api/src/health.rs: the joint answer over the three cached checks, and the events
-- that it broadcasts. No value has a member `error`, so no event has a detail.
use fullstackhex.Base.{ℕ, Bool, true, false, Text, codes, List, [], ◌∷◌, Option, none, some, Result}
use fullstackhex.Domain.Flags.{FeatureFlags}
use fullstackhex.Sidecar.Errors.{SidecarError}
use fullstackhex.Api.Health.{
  Reply, just_status, Cell, DbStatus, health_db_value, health_redis_value, health_python_value,
}
use fullstackhex.Api.Live.Broadcast.{LiveEvent, health_update}

unfoldable pub health_auth_value : Bool → Reply
health_auth_value true = just_status (codes "ok")
health_auth_value false = just_status (codes "disabled")

unfoldable pub health_storage_value : Bool → Reply
health_storage_value true = just_status (codes "ok")
health_storage_value false = just_status (codes "disabled")

pub record Report : Type 0 where
  pub rust : Reply
  pub db : Reply
  pub redis : Reply
  pub storage : Reply
  pub python : Reply
  pub auth : Reply
  pub feature_flags : FeatureFlags

-- The cells of the three checks.
pub record Cells : Type 0 where
  pub db : Cell
  pub redis : Cell
  pub python : Cell

-- What the checks meet: the dependencies and what they answer, and the times of each check.
pub record Times : Type 0 where
  pub read_at : ℕ
  pub now : ℕ
  pub done : ℕ

pub record Dependencies : Type 0 where
  pub db : DbStatus
  pub db_ping : Result Text (Unit {0})
  pub db_times : Times
  pub has_redis : Bool
  pub redis_ping : Result Text (Unit {0})
  pub redis_times : Times
  pub python : Result SidecarError Reply
  pub python_times : Times
  pub has_storage : Bool
  pub has_auth : Bool
  pub flags : FeatureFlags

unfoldable pub health : Dependencies → Cells → Report × Cells
unfolding health_db_value health_redis_value health_python_value health_storage_value
    health_auth_value
health d c =
    let db =
      health_db_value d.db d.db_ping d.db_times.read_at d.db_times.now d.db_times.done c.db in
    let redis =
      health_redis_value d.has_redis d.redis_ping d.redis_times.read_at d.redis_times.now
        d.redis_times.done c.redis in
    let python =
      health_python_value d.python d.python_times.read_at d.python_times.now d.python_times.done
        c.python in
    (
      record {
        rust = record { status = some (codes "ok"); service = some (codes "api") };
        db = db.0;
        redis = redis.0;
        storage = health_storage_value d.has_storage;
        python = python.0;
        auth = health_auth_value d.has_auth;
        feature_flags = d.flags;
      },
      record { db = db.1; redis = redis.1; python = python.1 },
    )

-- `value["status"].as_str().unwrap_or("unknown")`
abbrev status_text : Reply → Text
status_text v = or_text v.status
  where
    or_text : Option Text → Text
    or_text none = codes "unknown"
    or_text (some t) = t

abbrev update_of : Text → Reply → LiveEvent
update_of service v = health_update service (status_text v) none

-- The events of an answer; each goes through `broadcast_event`.
unfoldable pub health_events : Report → List LiveEvent
health_events r =
    health_update (codes "rust") (codes "ok") none
    ∷ update_of (codes "db") r.db
    ∷ update_of (codes "redis") r.redis
    ∷ update_of (codes "storage") r.storage
    ∷ update_of (codes "python") r.python
    ∷ update_of (codes "auth") r.auth
    ∷ []
