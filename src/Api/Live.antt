-- ===== src/Api/Live.antt =====
-- backend/api/src/live.rs: who may open a live socket, the slots that an open socket holds, and the
-- loop of one socket. Headers are those that `to_str` gives. The serialised event, the server's
-- subscription and the socket itself are parameters; logging and gauges are left out.
pub mod Capacity
pub mod Accept
pub mod Loop
pub mod Broadcast
pub mod Release
use fullstackhex.Base.{
  ℕ, suc, ◌+◌, ◌-◌, ◌/◌, Bool, true, false, Text, codes, text_eq, split, List, [], ◌∷◌, ◌++◌,
  Option, none, some, ltb, leb, if◌then◌else◌, Result, ok, err, fail_if, ok_or, map_err, to_option,
  ◌==◌,
}
use fullstackhex.Base.Exec.{Exec, pure, gets, lift, throw, ◌>>=◌, ◌>>◌}
use fullstackhex.Domain.Errors.{CacheError}
use fullstackhex.Cache.Client.{Session}
use fullstackhex.Cache.Session.{session_get}
use fullstackhex.Auth.Config.{AuthConfig}
use fullstackhex.Auth.Cookies.{find_prefix, some_non_empty}
use fullstackhex.Auth.App.{Platform, App, Claims, JwtError, cached}

-- `state.ws`: the free permits of the semaphore and the map `user_connections`, with the global
-- counter ACTIVE_WS_CONNECTIONS.
pub record Slots : Type 0 where
  pub free : ℕ
  pub users : Text → Option ℕ
  pub active : ℕ

abbrev pub count_of : Option ℕ → ℕ
count_of none = 0
count_of (some n) = n

-- `HashMap::insert` and `HashMap::remove`
abbrev pub put : Text → Option ℕ → (Text → Option ℕ) → Text → Option ℕ
put k v m u = if text_eq k u then v else m u

-- A refusal: its status and its body.
pub record Refusal : Type 0 where
  pub status : ℕ
  pub body : Text

abbrev refuse : ℕ → Text → Refusal
refuse status body = record { status = status; body = body }

abbrev em_dash : Text
em_dash = 226 ∷ 128 ∷ 148 ∷ []

abbrev too_many : Refusal
too_many = refuse 429 (codes "{\"error\":\"Too many connections from this user\"}")

-- The user's slot; a refusal gives the permit back when it is dropped.
abbrev take_slot : ℕ → Option Text → Slots → Result Refusal (Unit {0}) × Slots
take_slot per_user_max none s = (ok tt, s)
take_slot per_user_max (some u) s =
    if leb per_user_max (count_of (s.users u))
    then (err too_many, record s { free = s.free + 1 })
    else (ok tt, record s { users = put u (some (count_of (s.users u) + 1)) s.users })

-- `try_acquire_owned`, then the user's count under the lock.
unfoldable pub admit : ℕ → Option Text → Slots → Result Refusal (Unit {0}) × Slots
admit per_user_max user s =
    if s.free == 0
    then (
      err (
          refuse 503 (
            codes "{\"error\":\"Server at capacity "
            ++ (em_dash ++ codes " too many WebSocket connections\"}"))),
      s,
    )
    else take_slot per_user_max user (record s { free = s.free - 1 })

-- `WsGuard::drop` and `WsUserGuard::drop`; the permit is dropped with the arguments.
abbrev pub drop_count : Option ℕ → Option ℕ
drop_count none = none
drop_count (some n) = if n - 1 == 0 then none else some (n - 1)

abbrev drop_user : Option Text → (Text → Option ℕ) → Text → Option ℕ
drop_user none m = m
drop_user (some u) m = put u (drop_count (m u)) m

-- `handle_socket` begins: the counter and the guards.
unfoldable pub start_socket : Slots → Slots
start_socket s = record s { active = s.active + 1 }

-- `handle_socket` returns or panics: the guards and the permit are dropped.
unfoldable pub end_socket : Option Text → Slots → Slots
end_socket user s = record {
  free = s.free + 1;
  users = drop_user user s.users;
  active = s.active - 1;
}

-- A permitted upgrade whose callback never runs: only the permit is dropped.
unfoldable pub abandon_upgrade : Slots → Slots
abandon_upgrade s = record s { free = s.free + 1 }

pub record WsHeaders : Type 0 where
  pub origin : Option Text
  pub cookie : Option Text

-- The parts of `AppState` that the handler reads.
pub record LiveConfig : Type 0 where
  pub allowed_origin : Option Text
  pub auth : Option AuthConfig
  pub redis_enabled : Bool
  pub prefix : Text
  pub per_user_max : ℕ

unfoldable pub check_origin : Option Text → Option Text → Result Refusal (Unit {0})
check_origin none origin = ok tt
check_origin (some allowed) none = err (refuse 403 (codes "{\"error\":\"Origin not allowed\"}"))
check_origin (some allowed) (some o) =
    if text_eq o allowed
    then ok tt
    else err (refuse 403 (codes "{\"error\":\"Origin not allowed\"}"))

module _ (p : Platform) where
  pub record Live : Type 0 where
    pub app : App p
    pub slots : Slots

  abbrev pub LiveM : Type 0 → Type 0
  LiveM A = Exec Live Refusal A

module _ (p : Platform) (c : LiveConfig) where
  abbrev pub owner :
      Live p → Result CacheError Session × App p → Result Refusal (Option Text) × Live p
  owner s (ok session, a) = (ok (some session.user_id), record s { app = a })
  owner s (err e, a) = (ok none, record s { app = a })

  abbrev pub look_up : Option Text → LiveM p (Option Text)
  look_up none s = (ok none, s)
  look_up (some id) s =
      if c.redis_enabled
      then owner s (cached p (session_get p.redis c.prefix p.session_codec id) s.app)
      else (ok none, s)

  abbrev pub session_cookie : Option Text → Option Text
  session_cookie none = none
  session_cookie (some cookies) =
      some_non_empty (find_prefix (codes "session=") (split b';' cookies))

  unfoldable pub cookie_authenticated : WsHeaders → LiveM p (Option Text)
  cookie_authenticated headers = look_up (session_cookie headers.cookie)

  abbrev pub subject : Result JwtError Claims → Result Refusal (Option Text)
  subject (ok claims) = ok (some claims.sub)
  subject (err e) = err (refuse 401 (codes "{\"error\":\"Invalid token\"}"))

  abbrev pub required : Option Text → LiveM p (Option Text)
  required none = throw (refuse 401 (codes "{\"error\":\"Authentication required\"}"))
  required (some u) = pure (some u)

  abbrev pub credentials : AuthConfig → WsHeaders → Option Text → LiveM p (Option Text)
  credentials a headers none s = cookie_authenticated headers s
  credentials a headers (some token) s =
      (subject (p.read_claims a.jwt_secret a.jwt_issuer (s.app.cache.now_ms / 1000) token), s)

  -- The user of the request; none only when authentication is not configured.
  unfoldable pub ws_user : Option AuthConfig → WsHeaders → Option Text → LiveM p (Option Text)
  unfolding cookie_authenticated
  ws_user none headers token = pure none
  ws_user (some a) headers token = do user ← credentials a headers token; required user

  abbrev pub admitted :
      Live p → Result Refusal (Unit {0}) × Slots → Result Refusal (Unit {0}) × Live p
  admitted s (r, t) = (r, record s { slots = t })

  abbrev pub redis_required : Bool → Result Refusal (Unit {0})
  redis_required true = ok tt
  redis_required false = err (
      refuse 404 (
        codes "{\"error\":\"WebSocket not available "
        ++ (em_dash ++ codes " Redis is disabled\"}")))

  unfoldable pub take_permit : Option Text → LiveM p (Option Text)
  unfolding admit
  take_permit user = do
    lift (redis_required c.redis_enabled)
    (λ s. admitted s (admit c.per_user_max user s.slots))
    pure user

  unfoldable pub validate_ws_connection : WsHeaders → Option Text → LiveM p (Option Text)
  unfolding check_origin ws_user take_permit
  validate_ws_connection headers token = do
    lift (check_origin c.allowed_origin headers.origin)
    user ← ws_user c.auth headers token
    take_permit user
