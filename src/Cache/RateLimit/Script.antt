-- ===== src/Cache/RateLimit/Script.antt =====
-- What the Lua script of `rate_limit_check` replies and leaves in the set, by the server's laws.
use fullstackhex.Base.{
  ℕ, ◌-◌, ◌<◌, ◌≤◌, ◌≡◌, refl, true, Text, List, [], ◌∷◌, Option, length, filter, ltb, ok,
  text_eq_refl, lt→ltb, le→ltb,
}
use fullstackhex.Cache.Redis.{Redis, zset_of, zset_entry, zinsert, without, expiring}
use fullstackhex.Cache.RateLimit.{limit_script, refusal}

zset_of-zset_entry : (ttl : Option ℕ) (es : List (ℕ × Text)) → zset_of (zset_entry ttl es) ≡ ok es
zset_of-zset_entry ttl [] = refl
zset_of-zset_entry ttl (e ∷ es) = refl

expiring-zset :
    (ttl : Option ℕ) (secs : ℕ) (es : List (ℕ × Text))
    → zset_of (expiring secs (zset_entry ttl es)) ≡ ok es
expiring-zset ttl secs [] = refl
expiring-zset ttl secs (e ∷ es) = refl

abbrev pub in_window : ℕ → List (ℕ × Text) → List (ℕ × Text)
in_window window_start = filter (λ e. ltb window_start e.0)

module _ (R : Redis) (key : Text) (window_start now max : ℕ) (member : Text) (ttl : ℕ) (d : R.Db)
    (es : List (ℕ × Text)) (holds : zset_of (R.lookup d key) ≡ ok es) where
  pub trimmed :
      zset_of (R.lookup (R.zrem_up_to key window_start d) key) ≡ ok (in_window window_start es)
  trimmed =
      rw (R.lookup-zrem_up_to key window_start d key es holds, text_eq_refl key)
        (zset_of-zset_entry _ (in_window window_start es))

  -- Below the limit the script grants, records the request at its time and reports what is left.
  pub limit_script-grants :
      length (in_window window_start es) < max
      → ((limit_script R key window_start now max member ttl d).0
          ≡ ok (record {
            granted = true;
            left = max - length (in_window window_start es) - 1;
            reset = 0;
          }))
        × ((limit_script R key window_start now max member ttl d).1
            ≡ R.expire key ttl (R.zadd key now member (R.zrem_up_to key window_start d)))
  unfolding limit_script
  limit_script-grants room = rw (holds, trimmed, lt→ltb _ _ room) (refl, refl)

  -- At the limit it refuses, and has only dropped what left the window.
  pub limit_script-refuses :
      max ≤ length (in_window window_start es)
      → limit_script R key window_start now max member ttl d
        ≡ (refusal ttl (in_window window_start es), R.zrem_up_to key window_start d)
  unfolding limit_script
  limit_script-refuses full = rw (holds, trimmed, le→ltb _ _ full)

  -- What the set holds after a grant.
  pub limit_script-records :
      0 < ttl
      → zset_of (
          R.lookup (R.expire key ttl (R.zadd key now member (R.zrem_up_to key window_start d))) key)
        ≡ ok (zinsert now member (without member (in_window window_start es)))
  limit_script-records live =
      rw
        (
          R.lookup-expire key ttl (R.zadd key now member (R.zrem_up_to key window_start d)) key
              live,
          text_eq_refl key,
          R.lookup-zadd key now member (R.zrem_up_to key window_start d) key
              (in_window window_start es) trimmed,
          text_eq_refl key,
        )
        (expiring-zset _ ttl (zinsert now member (without member (in_window window_start es))))
