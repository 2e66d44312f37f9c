-- ===== src/Cache/PubSub.antt =====
-- backend/cache/src/pubsub.rs: one subscriber task shared by every subscription of a process. The
-- steps of the task and the two halves of `subscribe`, before and after its `await`, change the shared
-- state one at a time. An inbox is what the broadcast channel has sent to one receiver since it was
-- made; that the channel drops what a receiver is too slow for is left to the reader of the inbox.
pub mod Stream
pub mod Stopped
use fullstackhex.Base.{
  Text, codes, List, [], ◌∷◌, ◌++◌, map, Option, none, some, Result, ok, err, map_err, ◌≡◌,
}
use fullstackhex.Domain.Errors.{CacheError, command_failed, connection_failed}
use fullstackhex.Cache.Client.{make_key}

pub record PubSubMessage : Type 0 where
  pub channel : Text
  pub payload : Text

-- What `message_rx.recv()` yields: a message with its text, if it converts, and its lossy text, if
-- there is one; or the error that ends the stream.
pub data Received : Type 0 where
  message : Text → Option Text → Option Text → Received
  broken : Text → Received

pub data Task : Type 0 where
  starting running stopped : Task

pub record Inbox : Type 0 where
  pub asked : Text
  -- The newest message first.
  pub got : List PubSubMessage

-- `SharedSubscriber`, the state of its task, and what the channel has sent, the newest first.
pub record SharedSubscriber : Type 0 where
  pub channel : Text
  pub task : Task
  pub ready : Option (Result Text (Unit {0}))
  pub sent : List PubSubMessage
  pub inboxes : List Inbox

abbrev pub fresh : Text → SharedSubscriber
fresh full_channel = record {
  channel = full_channel;
  task = starting;
  ready = none;
  sent = [];
  inboxes = [];
}

-- The first half of `subscribe`: the state is made by the first call only.
unfoldable pub get_or_init : Text → Text → Option SharedSubscriber → SharedSubscriber
get_or_init prefix channel none = fresh (make_key prefix (codes "pubsub") channel)
get_or_init prefix channel (some h) = h

-- `ready_tx.send`, after which the task goes on or ends. An error is sent as the text of
-- `CacheError::CommandFailed`.
unfoldable pub connect :
    Result Text (Unit {0}) → Result Text (Unit {0}) → SharedSubscriber → SharedSubscriber
connect (err e) subscribed h = record h {
  task = stopped;
  ready = some (err (codes "redis command failed: " ++ e));
}
connect (ok u) (err e) h = record h {
  task = stopped;
  ready = some (err (codes "redis command failed: " ++ e));
}
connect (ok u) (ok v) h = record h { task = running; ready = some (ok tt) }

-- The text of a message: as it converts, or else its lossy text.
unfoldable pub payload_of : Option Text → Option Text → Option Text
payload_of (some t) lossy = some t
payload_of none lossy = lossy

unfoldable pub send : PubSubMessage → SharedSubscriber → SharedSubscriber
send m h = record h {
  sent = m ∷ h.sent;
  inboxes = map (λ b. record { asked = b.asked; got = m ∷ b.got }) h.inboxes;
}

unfoldable pub pass : Text → Option Text → SharedSubscriber → SharedSubscriber
unfolding send
pass channel none h = h
pass channel (some payload) h = send (record { channel = channel; payload = payload }) h

-- One round of the loop. After an error the task quits, and sends its result once more.
unfoldable pub receive : Received → SharedSubscriber → SharedSubscriber
unfolding payload_of send pass
receive (broken e) h = record h { task = stopped; ready = some (ok tt) }
receive (message channel text lossy) h = pass channel (payload_of text lossy) h

-- The loop over what the stream yields.
unfoldable pub run_stream : List Received → SharedSubscriber → SharedSubscriber
unfolding receive
run_stream [] h = h
run_stream (broken e ∷ es) h = receive (broken e) h
run_stream (message c t l ∷ es) h = run_stream es (receive (message c t l) h)

-- The second half of `subscribe`, when `ready` is set or its sender is gone. `io_error` is how the
-- client library prints an error of kind IO.
unfoldable pub answer :
    (Text → Text)
    → Text
    → SharedSubscriber
    → Option (Result Text (Unit {0}))
    → Result CacheError (Unit {0}) × SharedSubscriber
answer io_error channel h (some (ok u)) =
    (ok tt, record h { inboxes = record { asked = channel; got = [] } ∷ h.inboxes })
answer io_error channel h (some (err e)) = (err (command_failed (io_error e)), h)
answer io_error channel h none =
    (err (connection_failed (codes "pubsub subscriber did not start")), h)

unfoldable pub await_ready :
    (Text → Text) → Text → SharedSubscriber → Result CacheError (Unit {0}) × SharedSubscriber
unfolding answer
await_ready io_error channel h = answer io_error channel h h.ready

-- `publish`, over the command of the client library.
unfoldable pub publish :
    (Text → Text → Result Text (Unit {0})) → Text → Text → Text → Result CacheError (Unit {0})
publish command prefix channel text =
    map_err command_failed (command (make_key prefix (codes "pubsub") channel) text)

-- The steps of a process whose subscriber was made, in any order.
module _ (io_error : Text → Text) (prefix : Text) where
  pub data Step (h : SharedSubscriber) : SharedSubscriber → Type 0 where
    call : (channel : Text) → Step h (get_or_init prefix channel (some h))
    connects :
        (init subscribed : Result Text (Unit {0}))
        → h.task ≡ starting
        → Step h (connect init subscribed h)
    receives : (e : Received) → h.task ≡ running → Step h (receive e h)
    returns : (channel : Text) → Step h (await_ready io_error channel h).1

  pub data Steps (h : SharedSubscriber) : SharedSubscriber → Type 0 where
    stay : Steps h h
    later : {i j : SharedSubscriber} → Steps h i → Step i j → Steps h j
