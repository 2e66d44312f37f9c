-- ===== src/Cache/Store/Laws.antt =====
-- The typed cache of backend/cache/src/cache.rs: a value that is written is read back, and a value
-- that can be taken once is gone afterwards.
use fullstackhex.Base.{ℕ, ◌<◌, ◌≡◌, refl, Text, [], some, text_eq_refl, ok}
use fullstackhex.Base.Exec.{◌>>◌}
use fullstackhex.Cache.Redis.{Redis}
use fullstackhex.Cache.Client.{World, make_key}
use fullstackhex.Cache.Store.{Codec, cache_get, cache_set}

module _ (R : Redis) (prefix : Text) where
  open R use {Db, lookup}

  module _ {A : Type 0} (codec : Codec A) where
    -- A value that is set, with a positive time to live, is what the next get of its key returns.
    pub cache_set-get :
        (namespace key : Text) (value : A) (ttl_secs : ℕ) (w : World R)
        → 0 < ttl_secs
        → w.net ≡ []
        → ((do
          cache_set R prefix codec namespace key value ttl_secs
          cache_get R prefix codec namespace key)
            w).0
          ≡ ok (some value)
    unfolding cache_set cache_get
    cache_set-get namespace key value ttl_secs w live quiet =
        rw
          (
            quiet,
            R.lookup-set_ex (make_key prefix namespace key) (codec.encode value) ttl_secs w.db
                (make_key prefix namespace key) live,
            text_eq_refl (make_key prefix namespace key),
            codec.decode-encode value,
          )
          refl
