-- ===== src/Api/Live/Loop.antt =====
-- `handle_socket` of backend/api/src/live.rs. What `select!` finds ready, round by round, is a list
-- of events; the loop ends by itself only at one of them.
use fullstackhex.Base.{
  ◌≡◌, Bool, true, false, Text, List, [], ◌∷◌, ◌++◌, Option, none, some, Result, ok, err, refl, ap,
  append-nil,
}
use fullstackhex.Domain.Errors.{CacheError}
use fullstackhex.Api.Live.{Slots, start_socket, end_socket}

-- The outcome of sending a payload within 100 ms.
pub data Sent : Type 0 where
  delivered failed backpressure : Sent

-- The messages of a WebSocket.
pub data Frame : Type 0 where
  ping pong binary text close : Frame

-- One round of `select!`: the shutdown signal, the subscriber within the idle timeout, or the
-- socket.
pub data Event : Type 0 where
  shutdown lagged closed idle : Event
  received : Text → Sent → Event
  incoming : Frame → Event
  protocol_error ended : Event

-- What a round does: go on, or leave the loop, having closed the socket or not.
pub data Round : Type 0 where
  go_on : Round
  leave : Bool → Round

unfoldable pub round : Event → Round
round shutdown = leave true
round (received payload delivered) = go_on
round (received payload failed) = leave false
round (received payload backpressure) = go_on
round lagged = go_on
round closed = leave false
round idle = leave true
round (incoming close) = leave false
round (incoming ping) = go_on
round (incoming pong) = go_on
round (incoming binary) = go_on
round (incoming text) = go_on
round protocol_error = leave false
round ended = leave false

-- The payloads that a round puts on the socket.
abbrev pub payload_of : Event → List Text
payload_of (received payload delivered) = payload ∷ []
payload_of _ = []

-- What was forwarded, and whether the loop was left, having closed the socket or not.
pub record Trace : Type 0 where
  pub forwarded : List Text
  pub left : Option Bool

abbrev after : Event → Round → Trace → Trace
after e go_on t = record { forwarded = payload_of e ++ t.forwarded; left = t.left }
after e (leave closing) t = record { forwarded = []; left = some closing }

unfoldable pub event_loop : List Event → Trace
unfolding round
event_loop [] = record { forwarded = []; left = none }
event_loop (e ∷ es) = after e (round e) (event_loop es)

-- The whole of a socket's life: the guards are dropped on every way out.
abbrev pub release : Option Text → Slots → Trace → Trace × Slots
release user s t = elim t.left [ none ↦ (t, s) | some closing ↦ (t, end_socket user s) ]

unfoldable pub handle_socket :
    Result CacheError (Unit {0}) → List Event → Option Text → Slots → Trace × Slots
unfolding event_loop start_socket end_socket
handle_socket (err e) events user s =
    release user (start_socket s) (record { forwarded = []; left = some true })
handle_socket (ok subscribed) events user s = release user (start_socket s) (event_loop events)

-- What makes the server leave a socket, and whether it closes the socket first.
pub data Ends : Event → Bool → Type 0 where
  server_stops : Ends shutdown true
  too_idle : Ends idle true
  channel_gone : Ends closed false
  not_sent : (payload : Text) → Ends (received payload failed) false
  client_closes : Ends (incoming close) false
  garbled : Ends protocol_error false
  socket_gone : Ends ended false

-- A run of other events, and the payloads that it puts on the socket, in order.
pub data Forwards : List Event → List Text → Type 0 where
  nothing : Forwards [] []
  forwarding :
      {es : List Event} {ps : List Text} (payload : Text)
      → Forwards es ps
      → Forwards (received payload delivered ∷ es) (payload ∷ ps)
  dropping :
      {es : List Event} {ps : List Text} (payload : Text)
      → Forwards es ps
      → Forwards (received payload backpressure ∷ es) ps
  lagging : {es : List Event} {ps : List Text} → Forwards es ps → Forwards (lagged ∷ es) ps
  pinged : {es : List Event} {ps : List Text} → Forwards es ps → Forwards (incoming ping ∷ es) ps
  ponged : {es : List Event} {ps : List Text} → Forwards es ps → Forwards (incoming pong ∷ es) ps
  no_binary :
      {es : List Event} {ps : List Text} → Forwards es ps → Forwards (incoming binary ∷ es) ps
  no_text : {es : List Event} {ps : List Text} → Forwards es ps → Forwards (incoming text ∷ es) ps

loop-Ends :
    (e : Event) (closing : Bool) (later : List Event)
    → Ends e closing
    → event_loop (e ∷ later) ≡ record { forwarded = []; left = some closing }
unfolding event_loop
loop-Ends _ _ later server_stops = refl
loop-Ends _ _ later too_idle = refl
loop-Ends _ _ later channel_gone = refl
loop-Ends _ _ later (not_sent payload) = refl
loop-Ends _ _ later client_closes = refl
loop-Ends _ _ later garbled = refl
loop-Ends _ _ later socket_gone = refl

abbrev prepend : List Text → Trace → Trace
prepend ps t = record { forwarded = ps ++ t.forwarded; left = t.left }

loop-Forwards :
    (before : List Event) (ps : List Text) (later : List Event)
    → Forwards before ps
    → event_loop (before ++ later) ≡ prepend ps (event_loop later)
unfolding event_loop
loop-Forwards _ _ later nothing = refl
loop-Forwards _ _ later (forwarding payload f) =
    ap (prepend (payload ∷ [])) (loop-Forwards _ _ later f)
loop-Forwards _ _ later (dropping payload f) = loop-Forwards _ _ later f
loop-Forwards _ _ later (lagging f) = loop-Forwards _ _ later f
loop-Forwards _ _ later (pinged f) = loop-Forwards _ _ later f
loop-Forwards _ _ later (ponged f) = loop-Forwards _ _ later f
loop-Forwards _ _ later (no_binary f) = loop-Forwards _ _ later f
loop-Forwards _ _ later (no_text f) = loop-Forwards _ _ later f

-- A subscribed socket is served up to the first event that ends it: the shutdown of the server or
-- the idle timeout, which close the socket, or a failed send, a closed channel, a close frame, a
-- protocol error or the end of the socket, which do not. Before it every payload delivered within
-- its time is forwarded, in order, and whatever else arrives is passed over; then the socket is left,
-- and its slots are given back, whatever would have come later.
pub handle_socket_stops :
    (before : List Event) (ps : List Text) (e : Event) (closing : Bool) (later : List Event)
    (user : Option Text) (s : Slots)
    → Forwards before ps
    → Ends e closing
    → handle_socket (ok tt) (before ++ e ∷ later) user s
      ≡ (record { forwarded = ps; left = some closing }, end_socket user (start_socket s))
unfolding handle_socket
handle_socket_stops before ps e closing later user s f h =
    rw (loop-Forwards before ps (e ∷ later) f, loop-Ends e closing later h, append-nil ps) refl
