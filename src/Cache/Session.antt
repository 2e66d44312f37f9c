-- ===== src/Cache/Session.antt =====
-- backend/cache/src/session.rs: sessions in Redis, and the in-process cache in front of them. Cache
-- times are in milliseconds of the process clock; the mutex is never poisoned.
pub mod Lifecycle
pub mod Purge
pub mod Reads
use fullstackhex.Base.{
  ℕ, suc, ◌+◌, ◌<◌, ◌≡◌, ◌≢◌, refl, Bool, true, false, not, Text, codes, List, [], ◌∷◌, ◌++◌,
  Option, none, some, text_eq, ltb, leb, if◌then◌else◌, length, filter, Result, ok, err, map,
}
use fullstackhex.Base.Exec.{Exec, pure, lift, gets, throw, ◌>>=◌, ◌>>◌}
use fullstackhex.Domain.Errors.{CacheError, session_not_found}
use fullstackhex.Cache.Redis.{Redis, Reply, Entry, wrong_type, members, str, counter, zset}
use fullstackhex.Cache.Client.{World, Session, CacheM, call, make_key, string_of, execute, settle}
use fullstackhex.Cache.Deletion.{del_reply}
use fullstackhex.Cache.Store.{Codec, bad_json, get_reply}

abbrev pub Cached : Type 0
Cached = List (Text × ℕ × Session)

abbrev pub max_session_cache_entries : ℕ
max_session_cache_entries = 100000

abbrev pub session_cache_ttl_ms : ℕ
session_cache_ttl_ms = 300000

-- `HashMap::get`, `remove` and `insert`.
unfoldable pub find_cached : Text → Cached → Option (ℕ × Session)
find_cached id [] = none
find_cached id ((k, expiry, s) ∷ m) = if text_eq k id then some (expiry, s) else find_cached id m

unfoldable pub remove_cached : Text → Cached → Cached
remove_cached id [] = []
remove_cached id ((k, expiry, s) ∷ m) =
    let rest = remove_cached id m in if text_eq k id then rest else (k, expiry, s) ∷ rest

abbrev pub live_session : Text → ℕ → Cached → Option (ℕ × Session) → Option Session × Cached
live_session id now m none = (none, m)
live_session id now m (some (expiry, s)) =
    if ltb now expiry then (some s, m) else (none, remove_cached id m)

-- The session and the cache left behind: a stale entry is removed.
unfoldable pub session_cache_get : Text → ℕ → Cached → Option Session × Cached
unfolding find_cached remove_cached
session_cache_get id now m = live_session id now m (find_cached id m)

-- `if map.len() >= MAX_SESSION_CACHE_ENTRIES { map.clear(); }`
abbrev pub make_room : Cached → Cached
make_room m = if leb max_session_cache_entries (length m) then [] else m

unfoldable pub session_cache_put : Text → Session → ℕ → Cached → Cached
unfolding remove_cached
session_cache_put id s now m = (id, now + session_cache_ttl_ms, s) ∷ remove_cached id (make_room m)

-- `map.retain(|_, (_, session)| session.user_id != user_id)`
unfoldable pub retain_others : Text → Cached → Cached
retain_others user_id = filter (λ e. not (text_eq (e.2).user_id user_id))

module _ (R : Redis) (prefix : Text) (json : Codec Session) where
  open R use {Db, lookup, set_ex, del, expire, sadd, srem}

  set_sessions : Cached → World R → World R
  set_sessions m w = record w { sessions = m }

  cached_session : Text → CacheM R (Option Session)
  cached_session id w =
      let (found, m) = session_cache_get id w.now_ms w.sessions in (ok found, set_sessions m w)

  put_session : Text → Session → CacheM R (Unit {0})
  put_session id s w = (ok tt, set_sessions (session_cache_put id s w.now_ms w.sessions) w)

  drop_session : Text → CacheM R (Unit {0})
  drop_session id w = (ok tt, set_sessions (remove_cached id w.sessions) w)

  drop_user : Text → CacheM R (Unit {0})
  drop_user user_id w = (ok tt, set_sessions (retain_others user_id w.sessions) w)

  -- After a miss in the cache: what GET replied.
  use_stored : Text → Option Text → CacheM R Session
  unfolding put_session
  use_stored id none = throw session_not_found
  use_stored id (some text) = elim (json.decode text) [
    | none ↦ throw bad_json
    | some s ↦ (do put_session id s; pure s)
  ]

  fetch_session : Text → Option Session → CacheM R Session
  unfolding use_stored
  fetch_session id (some s) = pure s
  fetch_session id none = do
    result ← call R (get_reply R prefix (make_key prefix (codes "session") id))
    use_stored id result

  unfoldable pub session_get : Text → CacheM R Session
  unfolding cached_session fetch_session set_sessions session_cache_get
  session_get id = do found ← cached_session id; fetch_session id found

  next_id : CacheM R Text
  next_id w = (ok (w.random 0), record w { random = λ n. w.random (suc n) })

  -- SET, SADD and EXPIRE in one script; SADD is refused for a key that holds no set.
  abbrev pub is_set : Option Entry → Reply (Unit {0})
  is_set none = ok tt
  is_set (some e) = elim e.value [
    | members ms ↦ ok tt
    | str v ↦ err wrong_type
    | counter n ↦ err wrong_type
    | zset es ↦ err wrong_type
  ]

  abbrev pub joined : Text → Text → Text → ℕ → Db → Reply (Unit {0}) → Reply Text × Db
  joined key user_key id ttl d (ok _) = (ok id, expire user_key ttl (sadd user_key id d))
  joined key user_key id ttl d (err e) = (err e, d)

  unfoldable pub create_script : Text → Text → Text → Text → ℕ → Db → Reply Text × Db
  create_script key user_key text id ttl d =
      let d1 = set_ex key text ttl d in joined key user_key id ttl d1 (is_set (lookup d1 user_key))

  unfoldable pub session_create : Session → ℕ → CacheM R Text
  unfolding next_id create_script
  session_create s ttl = do
    id ← next_id
    call R (
        create_script (make_key prefix (codes "session") id)
          (make_key prefix (codes "user_sessions") s.user_id) (json.encode s) id ttl)

  -- The owner in the stored JSON; text that does not parse is passed over.
  abbrev pub owner_of : Option Text → Option Text
  owner_of none = none
  owner_of (some text) = elim (json.decode text) [ none ↦ none | some s ↦ some s.user_id ]

  abbrev pub leave_set : Text → Option Text → Db → Db
  leave_set id none d = d
  leave_set id (some user_id) d = srem (make_key prefix (codes "user_sessions") user_id) id d

  abbrev pub destroyed : Text → Text → Db → Reply (Option Text) → Reply (Unit {0}) × Db
  destroyed key id d (ok text) = (ok tt, del key (leave_set id (owner_of text) d))
  destroyed key id d (err e) = (err e, d)

  unfoldable pub destroy_script : Text → Text → Db → Reply (Unit {0}) × Db
  destroy_script key id d = destroyed key id d (string_of (lookup d key))

  unfoldable pub session_destroy : Text → CacheM R (Unit {0})
  unfolding destroy_script drop_session set_sessions
  session_destroy id = do
    call R (destroy_script (make_key prefix (codes "session") id) id)
    drop_session id

  unfoldable pub session_refresh : Text → ℕ → CacheM R (Unit {0})
  session_refresh id ttl =
      call R (λ d. (ok tt, expire (make_key prefix (codes "session") id) ttl d))

  -- RENAME, refused for a missing key.
  abbrev pub renamed : Text → Text → Db → Option Entry → Reply (Unit {0}) × Db
  renamed from to d none = (err (codes "ERR no such key"), d)
  renamed from to d (some e) = (ok tt, R.rename from to d)

  abbrev pub members_of : Option Entry → Reply (List Text)
  members_of none = ok []
  members_of (some e) = elim e.value [
    | members ms ↦ ok ms
    | str v ↦ err wrong_type
    | counter n ↦ err wrong_type
    | zset es ↦ err wrong_type
  ]

  -- A call whose failure is passed over, with a value in place of its result.
  abbrev pub or_default :
      {A : Type 0} → A → Result CacheError A × World R → Result CacheError A × World R
  or_default a (ok b, w) = (ok b, w)
  or_default a (err e, w) = (ok a, w)

  abbrev pub best_effort : {A : Type 0} → A → CacheM R A → CacheM R A
  best_effort a m w = or_default a (m w)

  abbrev pub temp_key_of : Text → Text
  temp_key_of user_key = user_key ++ codes ":destroying"

  -- After a RENAME that succeeded.
  destroy_members : Text → Text → CacheM R (Unit {0})
  unfolding drop_user set_sessions
  destroy_members user_id temp_key = do
    ids ← best_effort [] (call R (λ d. (members_of (lookup d temp_key), d)))
    best_effort tt (call R (λ d. (ok tt, del temp_key d)))
    best_effort tt (call R (del_reply R (map (make_key prefix (codes "session")) ids)))
    drop_user user_id

  if_renamed :
      Text → Text → Result CacheError (Unit {0}) × World R → Result CacheError (Unit {0}) × World R
  if_renamed user_id temp_key (ok _, w) = destroy_members user_id temp_key w
  if_renamed user_id temp_key (err e, w) = (ok tt, w)

  unfoldable pub session_destroy_all_for_user : Text → CacheM R (Unit {0})
  unfolding destroy_members if_renamed
  session_destroy_all_for_user user_id w =
      let user_key = make_key prefix (codes "user_sessions") user_id in
      let temp_key = temp_key_of user_key in
      if_renamed user_id temp_key (call R (λ d. renamed user_key temp_key d (lookup d user_key)) w)
