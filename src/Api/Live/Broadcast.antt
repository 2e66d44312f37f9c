-- ===== src/Api/Live/Broadcast.antt =====
-- `broadcast_event` of backend/api/src/live.rs: what is handed to Redis to publish. The JSON of an
-- event is a parameter.
use fullstackhex.Base.{Bool, Text, codes, Option, none, some, ltb, if◌then◌else◌, Result, ok, err}
use fullstackhex.Api.Live.{Slots}

pub data LiveEvent : Type 0 where
  health_update : Text → Text → Option Text → LiveEvent
  auth_event : Text → Option Text → LiveEvent
  connection_status : Text → LiveEvent

abbrev live_events_channel : Text
live_events_channel = codes "live:events"

unfoldable pub has_active_ws_connections : Slots → Bool
has_active_ws_connections s = ltb 0 s.active

abbrev message : Result Text Text → Option (Text × Text)
message (ok json) = some (live_events_channel, json)
message (err e) = none

-- The channel and the payload, or nothing without a socket, without Redis or without a payload.
unfoldable pub broadcast_event :
    (LiveEvent → Result Text Text) → Bool → Slots → LiveEvent → Option (Text × Text)
unfolding has_active_ws_connections
broadcast_event to_json redis_enabled s event =
    if has_active_ws_connections s
    then (if redis_enabled then message (to_json event) else none)
    else none
