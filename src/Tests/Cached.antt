-- ===== src/Tests/Cached.antt =====
-- The theorems on Redis, in the in-memory server.
use fullstackhex.Base.{
  arith, ℕ, ◌-◌, ◌≤◌, ◌≡◌, refl, Text, codes, List, [], ◌∷◌, some, ltb, ok, err, inl,
}
use fullstackhex.Base.Exec.{◌>>=◌, ◌>>◌}
use fullstackhex.Domain.Errors.{session_not_found, backoff_blocked}
use fullstackhex.Cache.Redis.{str, members}
use fullstackhex.Cache.Memory.{memory, empty, update}
use fullstackhex.Cache.Client.{World, make_key}
use fullstackhex.Cache.Session.{
  session_create, session_get, session_destroy_all_for_user, find_cached,
}
use fullstackhex.Cache.Session.Lifecycle.{session_create-get, session_key, user_key}
use fullstackhex.Cache.Session.Purge.{session_destroy_all_for_user-get}
use fullstackhex.Cache.RateLimit.{window_ms}
use fullstackhex.Cache.RateLimit.Counts.{after, within}
use fullstackhex.Cache.RateLimit.Invariant.{Check, check, grants, leave, is_granted}
use fullstackhex.Cache.RateLimit.Window.{window_capped, granted_exactly}
use fullstackhex.Cache.Backoff.{backoff_script, backoff_params}
use fullstackhex.Cache.Backoff.Escalation.{check-failures, failures, verdict}
use fullstackhex.Tests.World.{world, session, session_codec}

abbrev prefix : Text
prefix = codes "fsh"

abbrev key : Text
key = codes "k"

-- Three checks of a window of one second that grants two.
abbrev at : ℕ → Text → Check memory key 1 2
at now member = record { before = λ d. d; now = now; member = member }

abbrev checks : List (Check memory key 1 2)
checks = at 5000 (codes "a") ∷ at 5100 (codes "b") ∷ []

window_capped_example : within 5200 (window_ms 1) (grants memory key 1 2 checks empty []) ≤ 2
window_capped_example =
    window_capped memory key 1 2 (omega arith) empty refl checks
      (
        omega arith,
        omega arith,
        omega arith,
        refl,
        λ d. inl refl,
        (omega arith, omega arith, omega arith, refl, λ d. inl refl, tt),
      )
      5200

granted_exactly_example :
    is_granted (check memory key 1 2 (at 5200 (codes "c")) (leave memory key 1 2 checks empty)).0
    ≡ ltb (after (5200 - window_ms 1) (grants memory key 1 2 checks empty [])) 2
granted_exactly_example =
    granted_exactly memory key 1 2 (omega arith) empty refl checks (at 5200 (codes "c")) (
      omega arith,
      omega arith,
      omega arith,
      refl,
      λ d. inl refl,
      (
        omega arith,
        omega arith,
        omega arith,
        refl,
        λ d. inl refl,
        (omega arith, omega arith, omega arith, refl, λ d. inl refl, tt),
      ),
    )

check-failures_example :
    verdict memory key (backoff_script memory key (memory.wait 30 (failures memory key 5 empty))).0
    ≡ some (err (backoff_blocked 270 5 (backoff_params 5).1))
check-failures_example = check-failures memory key 4 30 empty refl

session_create-get_example :
    ((do
      id ← session_create memory prefix session_codec session 900
      session_get memory prefix session_codec id)
      world).0
    ≡ ok session
unfolding find_cached
session_create-get_example =
    session_create-get memory prefix session_codec session 900 world (omega arith) refl refl refl

abbrev stored : World memory
stored = record world {
  db =
      update (session_key memory prefix session_codec key)
        (some (record { value = str (session_codec.encode session); ttl = some 9 })) empty;
  sessions = (key, 2000000, session) ∷ [];
}

abbrev signed_in : World memory
signed_in = record stored {
  db =
      update (user_key memory prefix session_codec (codes "alice"))
        (some (record { value = members (key ∷ []); ttl = some 9 })) stored.db;
}

session_destroy_all_for_user-get_example :
    ((do
      session_destroy_all_for_user memory prefix session_codec (codes "alice")
      session_get memory prefix session_codec key)
      signed_in).0
    ≡ err session_not_found
unfolding make_key
session_destroy_all_for_user-get_example =
    session_destroy_all_for_user-get memory prefix session_codec (codes "alice") key key [] (some 9)
      signed_in refl refl refl (λ h. refl, tt)
