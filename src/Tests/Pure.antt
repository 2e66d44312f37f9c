-- ===== src/Tests/Pure.antt =====
-- The theorems on functions without state.
use fullstackhex.Auth.Cookies.{parse_cookie_value, some_non_empty}
use fullstackhex.Auth.Cookies.Laws.{parse_cookie_value-render, render, find_cookie}
use fullstackhex.Base.{
  arith, ◌⊎◌, ℕ, zero, suc, ◌<◌, ◌≡◌, refl, true, false, Text, codes, List, [], ◌∷◌, ◌++◌, Option,
  none, some, ltb, contains, split, if◌then◌else◌, ok, text_eq,
}
use fullstackhex.Domain.Flags.{Env}
use fullstackhex.Auth.ClientIp.{client_ip, forwarded_ip, IpAddr, v6, HeaderMap}
use fullstackhex.Auth.ClientIp.Peers.{client_ip_exact, LocalPeer}
use fullstackhex.Auth.OauthState.{StoredOAuthState}
use fullstackhex.Auth.Config.{AuthConfig}
use fullstackhex.Sidecar.Retry.{Client, Attempt, answered, elapsed, do_request_inner}
use fullstackhex.Sidecar.Retry.Laws.{do_request-first_final, delays, Transient, no_time, good}
use fullstackhex.Storage.Keys.{validate_storage_key, user_key}
use fullstackhex.Storage.Keys.Confined.{validate_storage_key-confined, follow}
use fullstackhex.Tests.World.{
  config, from_json, to_json, field_of, read_option-write, read-write, write_option,
}

json_fields :
    (provider : Text) (session : Option Text)
    → (field : Text → Option Text) × (from_json (to_json provider session) ≡ some field)
      × (field (codes "provider") ≡ some provider)
      × (field (codes "session_id") ≡ session)
json_fields provider session = (
  field_of provider session,
  rw (read-write provider (write_option session), read_option-write session) refl,
  refl,
  refl,
)

abbrev on : Env
on name = some (codes "TRUE")

abbrev token : Text
token = 7 ∷ 9 ∷ []

abbrev forged : HeaderMap
forged = record { x_forwarded_for = some (codes "1.2.3.4"); x_real_ip = none }

abbrev plain : HeaderMap
plain = record { x_forwarded_for = none; x_real_ip = none }

-- An address of fc00::/7.
abbrev peer : IpAddr
peer = v6 0xfd12 0 0 0 0 0 0 1

client_ip_exact_example :
    ((true ≡ true)
      × LocalPeer peer
      × (forwarded_ip forged ≡ some (client_ip (λ ip. codes "peer") true forged (some peer))))
    ⊎ ((client_ip (λ ip. codes "peer") true forged (some peer) ≡ codes "peer")
        × ((true ≡ false) ⊎ ((¬ LocalPeer peer) ⊎ (forwarded_ip forged ≡ none))))
client_ip_exact_example = client_ip_exact (λ ip. codes "peer") true forged peer (omega arith)

abbrev bound : StoredOAuthState
bound = record { provider = codes "google"; session_id = some (codes "s1") }

abbrev production : Env
production name = if text_eq name (codes "JWT_SECRET") then some (codes "s3cret") else none

abbrev started : Option AuthConfig → AuthConfig
started none = config
started (some c) = c

abbrev line_end : Text
line_end = 13 ∷ 10 ∷ []

abbrev client : Client
client = record { socket_path = codes "/tmp/py.sock"; timeout_ms = 5000; available = true }

abbrev second_time : ℕ → Attempt
second_time i = if ltb i 1 then elapsed else answered 200 (codes "pong")

first_time : (i : ℕ) → i < 1 → Transient (second_time i)
first_time zero h = no_time
first_time (suc i) h = absurd (omega (arith, h))

do_request-first_final_example :
    do_request_inner (λ t. t) client second_time 3
    ≡ record { result = ok (codes "pong"); sleeps = delays 1; attempts = 2 }
do_request-first_final_example =
    do_request-first_final (λ t. t) client second_time refl 3 1 (ok (codes "pong")) (omega arith)
      first_time (good 200 (codes "pong") (omega arith))

abbrev down : Client
down = record { socket_path = codes "/tmp/py.sock"; timeout_ms = 5000; available = false }

validate_storage_key-confined_example :
    (ys : List Text) × (follow [] (split 47 (user_key (codes "alice") (codes "a/./b")))
      ≡ ys ++ codes "alice" ∷ codes "users" ∷ [])
unfolding validate_storage_key contains split
validate_storage_key-confined_example =
    validate_storage_key-confined (λ t. some t) (codes "alice") (codes "a/./b") (codes "a/./b") refl
      refl refl refl refl refl

parse_cookie_value-render_example :
    parse_cookie_value (render (codes "a", codes "1") ((codes "b", codes "2") ∷ [])) (codes "b")
    ≡ some_non_empty
        (find_cookie (codes "b") ((codes "a", codes "1") ∷ (codes "b", codes "2") ∷ []))
parse_cookie_value-render_example =
    parse_cookie_value-render (codes "b") ((λ e. omega arith, refl, λ e. omega arith), tt)
      (codes "a", codes "1") ((codes "b", codes "2") ∷ [])
      (((λ e. omega arith, refl, λ e. omega arith), tt), ((λ e. omega arith, refl), tt))
      ((((λ e. omega arith, refl, λ e. omega arith), tt), ((λ e. omega arith, refl), tt)), tt)
