-- ===== src/Auth/Blacklist.antt =====
-- BLACKLIST_CACHE of backend/auth/src/middleware.rs: the blacklisted tokens that a process knows.
use fullstackhex.Base.{
  ℕ, Bool, true, false, Text, List, [], ◌∷◌, Option, none, some, text_eq, ltb, length,
  if◌then◌else◌,
}

-- BLACKLIST_CACHE, a cell that may not be initialised, with the time at which an entry goes stale.
abbrev pub Blacklist : Type 0
Blacklist = Option (List (Text × ℕ))

abbrev pub max_blacklist_cache_entries : ℕ
max_blacklist_cache_entries = 100000

find_jti : Text → List (Text × ℕ) → Option ℕ
find_jti jti [] = none
find_jti jti ((k, expiry) ∷ m) = if text_eq k jti then some expiry else find_jti jti m

remove_jti : Text → List (Text × ℕ) → List (Text × ℕ)
remove_jti jti [] = []
remove_jti jti ((k, expiry) ∷ m) =
    let rest = remove_jti jti m in if text_eq k jti then rest else (k, expiry) ∷ rest

abbrev fresh_jti : Text → ℕ → List (Text × ℕ) → Option ℕ → Bool × Blacklist
fresh_jti jti now m none = (false, some m)
fresh_jti jti now m (some expiry) =
    if ltb now expiry then (true, some m) else (false, some (remove_jti jti m))

-- Whether the JTI is present and unexpired, and the cache left behind.
unfoldable pub blacklisted_in_process : Text → ℕ → Blacklist → Bool × Blacklist
unfolding find_jti remove_jti
blacklisted_in_process jti now none = (false, none)
blacklisted_in_process jti now (some m) = fresh_jti jti now m (find_jti jti m)

unfoldable pub cache_blacklisted : Text → ℕ → Blacklist → Blacklist
unfolding remove_jti
cache_blacklisted jti expiry none = none
cache_blacklisted jti expiry (some m) =
    if ltb (length m) max_blacklist_cache_entries
    then some ((jti, expiry) ∷ remove_jti jti m)
    else some m
