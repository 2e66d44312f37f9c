-- ===== src/Cache/Store.antt =====
-- backend/cache/src/cache.rs: cached values with a time to live. JSON is a parameter: a codec for
-- each type of value, whose text is never empty.
pub mod Laws
use fullstackhex.Base.{
  ℕ, ◌<◌, ◌≡◌, ◌≢◌, refl, Bool, true, false, Text, codes, [], Option, none, some, is_empty,
  if◌then◌else◌, Result, ok, err,
}
use fullstackhex.Base.Exec.{Exec, pure, lift, ◌>>=◌, ◌>>◌}
use fullstackhex.Domain.Errors.{CacheError, serialization_failed}
use fullstackhex.Cache.Redis.{Redis, Reply, Entry, wrong_type}
use fullstackhex.Cache.Client.{World, CacheM, call, make_key, string_of, execute, settle}

-- `Serialize` and `DeserializeOwned` for a type, as JSON.
pub record Codec (A : Type 0) : Type 0 where
  pub encode : A → Text
  pub decode : Text → Option A
  pub decode-encode : (a : A) → decode (encode a) ≡ some a
  pub encode-ne-nil : (a : A) → encode a ≢ []

abbrev pub bad_json : CacheError
bad_json = serialization_failed (codes "invalid JSON")

module _ (R : Redis) (prefix : Text) where
  open R use {Db, lookup, set_ex, del}

  abbrev pub get_reply : Text → Db → Reply (Option Text) × Db
  get_reply key d = (string_of (lookup d key), d)

  -- GETDEL is refused for a value that is no string.
  abbrev pub getdel_result : Text → Db → Reply (Option Text) → Reply (Option Text) × Db
  getdel_result key d (ok v) = (ok v, del key d)
  getdel_result key d (err e) = (err e, d)

  abbrev pub getdel_reply : Text → Db → Reply (Option Text) × Db
  getdel_reply key d = getdel_result key d (string_of (lookup d key))

  -- The Lua script of `refresh_token_rotate`; a missing key gives the empty string.
  abbrev pub rotate_result : Text → Db → Reply (Option Text) → Reply Text × Db
  rotate_result key d (ok (some v)) = (ok v, del key d)
  rotate_result key d (ok none) = (ok [], d)
  rotate_result key d (err e) = (err e, d)

  abbrev pub rotate_script : Text → Db → Reply Text × Db
  rotate_script key d = rotate_result key d (string_of (lookup d key))

  module _ {A : Type 0} (codec : Codec A) where
    abbrev pub decoded : Option A → Result CacheError (Option A)
    decoded none = err bad_json
    decoded (some a) = ok (some a)

    abbrev pub parsed : Option Text → Result CacheError (Option A)
    parsed none = ok none
    parsed (some json) = decoded (codec.decode json)

    unfoldable pub cache_get : Text → Text → CacheM R (Option A)
    cache_get namespace key = do
      result ← call R (get_reply (make_key prefix namespace key))
      lift (parsed result)

    unfoldable pub cache_set : Text → Text → A → ℕ → CacheM R (Unit {0})
    cache_set namespace key value ttl_secs =
        call R
          (λ d. (ok tt, set_ex (make_key prefix namespace key) (codec.encode value) ttl_secs d))

    unfoldable pub cache_get_delete : Text → Text → CacheM R (Option A)
    cache_get_delete namespace key = do
      result ← call R (getdel_reply (make_key prefix namespace key))
      lift (parsed result)

  unfoldable pub cache_delete : Text → Text → CacheM R (Unit {0})
  cache_delete namespace key = call R (λ d. (ok tt, del (make_key prefix namespace key) d))

  unfoldable pub refresh_token_rotate : Codec Text → Text → CacheM R (Option Text)
  refresh_token_rotate codec token = do
    result ← call R (rotate_script (make_key prefix (codes "refresh") token))
    if is_empty result then pure none else lift (parsed codec (some result))
