-- ===== src/Cache/RateLimit.antt =====
-- `rate_limit_check` and `rate_limit_count` of backend/cache/src/rate_limit.rs. Times are in
-- milliseconds, a `u64` wraps at 2^64, and the Lua script runs in one step of the server.
pub mod Script
pub mod Counts
pub mod Invariant
pub mod Window
use fullstackhex.Base.{
  ℕ, zero, suc, ◌+◌, ◌-◌, ◌*◌, ◌%◌, ◌^◌, Bool, true, false, Text, codes, List, [], ◌∷◌, ◌++◌,
  length, filter, ltb, if◌then◌else◌, Result, ok, err,
}
use fullstackhex.Base.Exec.{Exec, pure, gets, ◌>>=◌, ◌>>◌}
use fullstackhex.Cache.Redis.{Redis, Reply, zset_of, Entry}
use fullstackhex.Cache.Client.{World, CacheM, call, make_key, execute, settle}

pub record RateLimitResult : Type 0 where
  pub allowed : Bool
  pub remaining : ℕ
  pub reset_at : ℕ

abbrev pub u64 : ℕ
u64 = 2 ^ 64

abbrev pub window_ms : ℕ → ℕ
window_ms secs = (secs * 1000) % u64

-- `now_ms - window.as_millis() as u64`
abbrev pub window_start : ℕ → ℕ → ℕ
window_start now_ms secs = (now_ms + u64 - window_ms secs) % u64

abbrev pub ttl_secs : ℕ → ℕ
ttl_secs secs = (secs + 60) % u64

-- The three integers that the script returns.
pub record Verdict : Type 0 where
  pub granted : Bool
  pub left : ℕ
  pub reset : ℕ

abbrev pub script_error : Text
script_error = codes "attempt to perform arithmetic on a nil value"

-- The reply of the branch that refuses: `tonumber(reset[2])` is nil for an empty set.
unfoldable pub refusal : ℕ → List (ℕ × Text) → Reply Verdict
refusal ttl [] = err script_error
refusal ttl (e ∷ es) = ok (record { granted = false; left = 0; reset = e.0 + ttl * 1000 })

module _ (R : Redis) where
  open R use {Db, lookup, zrem_up_to, zadd, expire}

  -- The branch after ZCARD.
  decide_limit : Text → ℕ → ℕ → Text → ℕ → List (ℕ × Text) → Db → Reply Verdict × Db
  decide_limit key now_ms max member ttl es d =
      if ltb (length es) max
      then (
        ok (record { granted = true; left = max - length es - 1; reset = 0 }),
        expire key ttl (zadd key now_ms member d),
      )
      else (refusal ttl es, d)

  on_zset :
      Reply (List (ℕ × Text)) → (List (ℕ × Text) → Reply Verdict × Db) → Db → Reply Verdict × Db
  on_zset (err e) k d = (err e, d)
  on_zset (ok es) k d = k es

  unfoldable pub limit_script : Text → ℕ → ℕ → ℕ → Text → ℕ → Db → Reply Verdict × Db
  unfolding decide_limit on_zset
  limit_script key start now_ms max member ttl d =
      let d1 = zrem_up_to key start d in
      on_zset (zset_of (lookup d key))
        (λ _.
          on_zset (zset_of (lookup d1 key)) (λ es. decide_limit key now_ms max member ttl es d1) d1)
        d

  next_random : CacheM R Text
  next_random w = (ok (w.random 0), record w { random = λ n. w.random (suc n) })

  -- The script at the arguments of one check: the key, the clock, the member and the settings.
  unfoldable pub eval_limit : Text → ℕ → ℕ → ℕ → Text → Db → Reply Verdict × Db
  eval_limit full_key window_secs max_requests now_ms member =
      limit_script full_key (window_start now_ms window_secs) now_ms max_requests member
        (ttl_secs window_secs)

  unfoldable pub rate_limit_check : Text → Text → ℕ → ℕ → CacheM R RateLimitResult
  unfolding eval_limit next_random
  rate_limit_check prefix key window_secs max_requests = do
    now_ms ← gets (λ w. w.now_ms)
    member ← next_random
    result ← call R (
        eval_limit (make_key prefix (codes "ratelimit") key) window_secs max_requests now_ms member)
    pure (record { allowed = result.granted; remaining = result.left; reset_at = result.reset })

  abbrev trim_reply : Text → ℕ → Db → Reply (Unit {0}) × Db
  trim_reply key max d = elim (zset_of (lookup d key)) [
    | ok es ↦ (ok tt, zrem_up_to key max d)
    | err e ↦ (err e, d)
  ]

  abbrev card_reply : Text → Db → Reply ℕ × Db
  card_reply key d = elim (zset_of (lookup d key)) [
    | ok es ↦ (ok (length es), d)
    | err e ↦ (err e, d)
  ]

  -- The two commands are separate calls.
  unfoldable pub rate_limit_count : Text → Text → ℕ → CacheM R ℕ
  rate_limit_count prefix key window_secs = do
    let full_key = make_key prefix (codes "ratelimit") key
    now_ms ← gets (λ w. w.now_ms)
    call R (trim_reply full_key (window_start now_ms window_secs))
    call R (card_reply full_key)
