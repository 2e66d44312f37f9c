-- ===== src/Tests/Services.antt =====
-- The theorems on publishing and subscribing, on deleting by a pattern, and on the OAuth providers.

use fullstackhex.Base.{
  ℕ, ◌≡◌, ◌+◌, refl, true, Bool, false, Text, codes, text_eq, List, [], ◌∷◌, ◌++◌, length, Option,
  none, some, Result, ok, err, if◌then◌else◌, pos,
}
use fullstackhex.Cache.Memory.{memory}
use fullstackhex.Cache.Client.{make_key}
use fullstackhex.Cache.PubSub.{
  PubSubMessage, Received, message, broken, Inbox, SharedSubscriber, fresh, get_or_init, connect,
  receive, await_ready, Step, call, connects, receives, returns, Steps, stay, later, starting,
  running, stopped, run_stream, send,
}
use fullstackhex.Cache.PubSub.Stream.{one_stream, stream_delivered, sent_of, with_all}
use fullstackhex.Cache.PubSub.Stopped.{stopped_for_good}
use fullstackhex.Cache.Deletion.{cache_invalidate_pattern, cache_invalidate_pattern_exact}
use fullstackhex.Auth.OauthState.{git_hub}
use fullstackhex.Auth.Provider.{
  Web, OAuthService, OAuthUserInfo, ConfiguredClient, GitHubUser, exchange_code, get_client,
}
use fullstackhex.Auth.Provider.Laws.{exchange_code_sound, Vouched}
use fullstackhex.Tests.World.{world}
use fullstackhex.Tests.Handlers.{prefix}

abbrev io_error : Text → Text
io_error t = t

-- A subscriber for "a" that is connected, with a receiver that asked for "b", and one message.
abbrev first : SharedSubscriber
first = fresh (make_key prefix (codes "pubsub") (codes "a"))

abbrev hello : PubSubMessage
hello = record { channel = codes "fsh:pubsub:a"; payload = codes "hi" }

abbrev inbox : Inbox
inbox = record { asked = codes "b"; got = hello ∷ [] }

abbrev listening : SharedSubscriber
listening = record {
  channel = make_key prefix (codes "pubsub") (codes "a");
  task = running;
  ready = some (ok tt);
  sent = hello ∷ [];
  inboxes = inbox ∷ [];
}

abbrev connected : SharedSubscriber
connected = connect (ok tt) (ok tt) (get_or_init prefix (codes "a") none)

abbrev subscribed : SharedSubscriber
subscribed = (await_ready io_error (codes "b") connected).1

one_stream_example :
    (new : List PubSubMessage) × (more : List Inbox) × (listening.channel
      ≡ make_key prefix (codes "pubsub") (codes "a"))
    × (listening.sent ≡ new ++ connected.sent)
    × (listening.inboxes
        ≡ more ++ (record { asked = codes "b"; got = new } ∷ with_all new connected.inboxes))
unfolding get_or_init connect await_ready receive fullstackhex.Cache.PubSub.answer
    fullstackhex.Cache.PubSub.pass send fullstackhex.Cache.PubSub.payload_of
one_stream_example =
    one_stream io_error prefix (codes "a") (codes "b") connected subscribed listening
      (later stay (connects (ok tt) (ok tt) refl)) refl
      (later stay (receives (message (codes "fsh:pubsub:a") (some (codes "hi")) none) refl))

stream_delivered_example :
    (run_stream
      (message (codes "c") none (some (codes "x")) ∷ broken (codes "gone") ∷ [])
      listening).inboxes
    ≡ with_all
        (sent_of (message (codes "c") none (some (codes "x")) ∷ broken (codes "gone") ∷ []))
        listening.inboxes
stream_delivered_example =
    stream_delivered (message (codes "c") none (some (codes "x")) ∷ broken (codes "gone") ∷ [])
      listening

abbrev over : SharedSubscriber
over = record listening { task = stopped }

stopped_for_good_example :
    (over.sent ≡ over.sent)
    × ((await_ready io_error (codes "z") over).0 ≡ (await_ready io_error (codes "z") over).0)
unfolding get_or_init
stopped_for_good_example =
    stopped_for_good io_error prefix over over (codes "z") refl (later stay (call (codes "y")))

-- SCAN finds two pages of keys, and one that is empty.
abbrev scan : Text → List (Result Text (List Text))
scan t = ok (codes "k1" ∷ []) ∷ ok [] ∷ ok (codes "k2" ∷ codes "k3" ∷ []) ∷ []

cache_invalidate_pattern_exact_example :
    ((cache_invalidate_pattern memory scan prefix (codes "n") (codes "k*") world).0 ≡ ok 3)
    × (memory.lookup
          (cache_invalidate_pattern memory scan prefix (codes "n") (codes "k*") world).1.db
          (codes "k2")
        ≡ none)
cache_invalidate_pattern_exact_example =
    cache_invalidate_pattern_exact memory scan prefix (codes "n") (codes "k*")
      ((codes "k1" ∷ []) ∷ [] ∷ (codes "k2" ∷ codes "k3" ∷ []) ∷ []) world (codes "k2") refl refl

-- A GitHub user whose profile names no address.
abbrev profile : GitHubUser
profile = record { id = pos 7; login = codes "octo"; email = none; name = none }

abbrev web : Web
web = record {
  authorize_url = λ c r s t. r;
  redirect_url = λ t. ok t;
  exchange_code = λ c t. ok (codes "at");
  get = λ url hs. ok (record { status = 200; body = url });
  show_status = λ n. [];
  read_google_user = λ t. err [];
  read_github_user = λ t. ok profile;
  read_github_emails = λ t. ok (
      record { email = codes "x@y"; primary = false }
      ∷ record { email = codes "o@c"; primary = true }
      ∷ []);
}

abbrev service : OAuthService
service = record {
  google_client = none;
  github_client = some (record {
    client_id = codes "i";
    client_secret = codes "s";
    auth_uri = codes "a";
    token_uri = codes "t";
  });
}

abbrev octo : OAuthUserInfo
octo = record {
  provider = git_hub;
  provider_id = codes "7";
  email = codes "o@c";
  name = some (codes "octo");
}

exchange_code_sound_example :
    (client : ConfiguredClient) × (token : Text) × (get_client service git_hub ≡ ok client)
    × (web.exchange_code client (codes "code") ≡ ok token)
    × (octo.provider ≡ git_hub)
    × Vouched web git_hub token octo.email
unfolding exchange_code get_client fullstackhex.Base.decimal
exchange_code_sound_example = exchange_code_sound web service git_hub (codes "code") octo refl
