-- ===== src/Tests/Sockets.antt =====
-- The theorems on the live socket and the notes, for small states.
use fullstackhex.Base.{
  arith, ℕ, suc, ◌+◌, ◌<◌, ◌≤◌, ◌≡◌, ◌↔◌, refl, true, false, Text, codes, length, map, List, [],
  ◌∷◌, none, some, ok, pos, zero, All, ap,
}
use fullstackhex.Api.Live.{
  Slots, admit, put, Live, LiveConfig, WsHeaders, validate_ws_connection, start_socket, end_socket,
}
use fullstackhex.Api.Live.Capacity.{
  System, running, permit, start, Reach, initial, later, held, leaked, sockets,
}
use fullstackhex.Api.Live.Capacity.Reached.{live_slots_bounded, live_admission_exact}
use fullstackhex.Api.Live.Loop.{
  Event, received, delivered, lagged, ended, handle_socket, forwarding, lagging, nothing,
  socket_gone,
}
use fullstackhex.Api.Live.Loop.{handle_socket_stops}
use fullstackhex.Api.Live.Accept.{live_accept_sound, Known}
use fullstackhex.Api.Rows.{Row, newest_first}
use fullstackhex.Api.Cursor.{Libraries}
use fullstackhex.Api.Notes.{Notes, summary}
use fullstackhex.Api.Notes.Cursor.{Lawful}
use fullstackhex.Api.Notes.Paging.{follow, follow_complete, healthy}
use fullstackhex.Tests.World.{platform, config, app}

abbrev bob : Text
bob = codes "bob"

abbrev one_open : System
one_open = record {
  slots = record { free = 1; users = put bob (some 1) (λ u. none); active = 1 };
  conns = running (some bob) ∷ [];
  lost = [];
}

one_open-Reach : Reach 2 1 one_open
unfolding admit start_socket
one_open-Reach = later (later initial (permit (some bob) refl)) (start [] (some bob) [] refl)

live_slots_bounded_example :
    ((v : Text) → held v one_open.conns ≤ 1)
    × (length one_open.conns ≤ 2)
    × (one_open.slots.active ≡ sockets one_open.conns)
live_slots_bounded_example = live_slots_bounded one_open one_open-Reach

live_admission_exact_example :
    ((t : Slots) × (admit 1 (some bob) one_open.slots ≡ (ok tt, t)))
    ↔ ((length one_open.conns < 2) × (held bob one_open.conns + leaked bob one_open.lost < 1))
live_admission_exact_example = live_admission_exact one_open bob one_open-Reach

abbrev fresh_slots : Slots
fresh_slots = record { free = 1; users = λ u. none; active = 0 }

abbrev taken : Slots
taken = record { free = 0; users = put bob (some 1) (λ u. none); active = 0 }

abbrev events : List Event
events = received (codes "hi") delivered ∷ ended ∷ []

handle_socket_stops_example :
    handle_socket
      (ok tt)
      (received (codes "hi") delivered ∷ lagged ∷ ended ∷ events)
      (some bob)
      fresh_slots
    ≡ (
      record { forwarded = codes "hi" ∷ []; left = some false },
      end_socket (some bob) (start_socket fresh_slots),
    )
handle_socket_stops_example =
    handle_socket_stops (received (codes "hi") delivered ∷ lagged ∷ []) (codes "hi" ∷ []) ended
      false events (some bob) fresh_slots (forwarding (codes "hi") (lagging nothing)) socket_gone

abbrev live_config : LiveConfig
live_config = record {
  allowed_origin = some (codes "https://a.b");
  auth = some config;
  redis_enabled = true;
  prefix = codes "fsh";
  per_user_max = 1;
}

abbrev ws_headers : WsHeaders
ws_headers = record { origin = some (codes "https://a.b"); cookie = none }

abbrev live : Live platform
live = record { app = app; slots = fresh_slots }

abbrev live_after : Live platform
live_after = record {
  app = app;
  slots = record { free = 0; users = put (codes "alice") (some 1) (λ u. none); active = 0 };
}

live_accept_sound_example :
    ((v : Text) × (some (codes "alice") ≡ some v)
      × Known platform live_config config ws_headers (some (codes "t")) v live)
    × ((o : Text) → live_config.allowed_origin ≡ some o → ws_headers.origin ≡ some o)
    × (live_config.redis_enabled ≡ true)
    × (admit 1 (some (codes "alice")) live.slots ≡ (ok tt, live_after.slots))
unfolding validate_ws_connection
live_accept_sound_example =
    live_accept_sound platform live_config config ws_headers (some (codes "t")) live live_after
      (some (codes "alice")) refl refl

-- An id prints as that many letters, and cursors are their own text.
abbrev ticks : ℕ → Text
ticks zero = []
ticks (suc n) = b'a' ∷ ticks n

length-ticks : (n : ℕ) → length (ticks n) ≡ n
length-ticks zero = refl
length-ticks (suc n) = ap suc (length-ticks n)

ticks_ascii : (n : ℕ) → All (λ c. c < 128) (ticks n)
ticks_ascii zero = tt
ticks_ascii (suc n) = (omega arith, ticks_ascii n)

abbrev pub libraries : Libraries
libraries = record {
  b64_encode = λ t. t;
  b64_decode = λ t. some t;
  is_utf8 = λ t. true;
  is_uuid = λ t. true;
  cast_uuid = λ t. some (length t);
  show_uuid = ticks;
  is_time = λ t. true;
}

libraries-Lawful : Lawful libraries
libraries-Lawful = record {
  decode-encode = λ t. refl;
  ascii_utf8 = λ t h. refl;
  uuid_ascii = ticks_ascii;
  uuid_valid = λ i. refl;
  cast-show = λ i. ap some (length-ticks i);
}

abbrev row : ℕ → ℕ → ℕ → Row
row i u at = record {
  id = i;
  user = u;
  title = codes "t";
  body = codes "b";
  created_at = at;
  updated_at = at;
}

abbrev table : List Row
table = row 1 2 10 ∷ row 2 3 30 ∷ row 3 2 20 ∷ row 4 2 20 ∷ []

follow_complete_example :
    follow libraries 4 (codes "aa") (pos 1) none (healthy table 50 suc)
    ≡ some (map (summary libraries (codes "aa")) (row 4 2 20 ∷ row 3 2 20 ∷ row 1 2 10 ∷ []))
unfolding newest_first
follow_complete_example =
    follow_complete libraries table 50 suc (codes "aa") 2 (pos 1) refl libraries-Lawful
      ((omega arith, refl), ((omega arith, refl), ((omega arith, refl), ((omega arith, refl), tt))))
      (
        ((λ h. omega (arith, h)), ((λ h. omega (arith, h)), ((λ h. omega (arith, h)), tt))),
        (
          ((λ h. omega (arith, h)), ((λ h. omega (arith, h)), tt)),
          (((λ h. omega (arith, h)), tt), (tt, tt)),
        ),
      )
      4 (omega arith)

abbrev pub notes : Notes
notes = healthy table 50 suc
