-- ===== src/Cache/Backoff/Escalation.antt =====
-- How the cooldown of backend/cache/src/rate_limit.rs grows with the failures.
use fullstackhex.Base.{
  ℕ, zero, suc, ◌-◌, ◌<◌, ◌≤◌, ◌≡◌, Text, Option, none, some, ltb, if◌then◌else◌, Result, ok, err,
  arith, text_eq_refl, ap,
}
use fullstackhex.Domain.Errors.{CacheError, backoff_blocked}
use fullstackhex.Cache.Redis.{Redis, Reply, Entry, counter}
use fullstackhex.Cache.Backoff.{
  count_of, backoff_params, backoff_script, judge_backoff, record_failure,
}

-- The seconds of cooldown that the counter really gets.
abbrev pub cooldown : ℕ → ℕ
cooldown n = if ltb n 5 then 60 else if ltb n 10 then 300 else 1800

abbrev pub counted : ℕ → ℕ → Entry
counted n ttl = record { value = counter n; ttl = some ttl }

abbrev pub counted_after : ℕ → Option Entry
counted_after zero = none
counted_after (suc n) = some (counted (suc n) (cooldown (suc n)))

-- The answer of the check, with its label, after failures whose counter has a time to live.
abbrev pub expected : ℕ → ℕ → Result CacheError (Unit {0})
expected n ttl = if ltb n 5 then ok tt else err (backoff_blocked ttl n (backoff_params n).1)

module _ (R : Redis) (key : Text) where
  open R use {Db, lookup, wait}

  -- Failures one after the other, each within the cooldown of the one before.
  pub failures : ℕ → Db → Db
  failures zero d = d
  failures (suc n) d = (record_failure R key (failures n d)).1

  record_failure-more :
      (n : ℕ) (d : Db)
      → count_of (lookup d key) ≡ ok (some n)
      → (record_failure R key d).1 ≡ R.expire key (cooldown (suc n)) (R.incr key d)
  unfolding record_failure
  record_failure-more n d h = rw h (ap (λ t. R.expire key t (R.incr key d)) (ground arith))

  record_failure-first :
      (d : Db)
      → lookup d key ≡ none
      → (record_failure R key d).1 ≡ R.expire key (cooldown 1) (R.incr key d)
  unfolding record_failure
  record_failure-first d h = rw h

  failure-counts :
      (n : ℕ) (d : Db)
      → lookup d key ≡ counted_after n
      → lookup (record_failure R key d).1 key ≡ counted_after (suc n)
  failure-counts zero d h = rw (
    record_failure-first d h,
    R.lookup-expire key 60 (R.incr key d) key (omega arith),
    text_eq_refl key,
    R.lookup-incr key d key,
    text_eq_refl key,
    h,
  )
  failure-counts (suc n) d h = rw (
    record_failure-more (suc n) d (rw h),
    R.lookup-expire key (cooldown (suc (suc n))) (R.incr key d) key (ground arith),
    text_eq_refl key,
    R.lookup-incr key d key,
    text_eq_refl key,
    h,
  )

  pub failures-count :
      (n : ℕ) (d : Db) → lookup d key ≡ none → lookup (failures n d) key ≡ counted_after n
  unfolding failures
  failures-count zero d h = h
  failures-count (suc n) d h = failure-counts n (failures n d) (failures-count n d h)

  -- The decision of the check on the reply of its script.
  abbrev pub verdict : Reply (Option (ℕ × ℕ)) → Option (Result CacheError (Unit {0}))
  verdict (ok r) = some (judge_backoff R r)
  verdict (err e) = none

  -- After n failures, one at least, and any number of seconds: the check passes if the failures are
  -- fewer than five or the cooldown is over, and else it blocks for the rest of the cooldown,
  -- which is 60 s for up to 4 failures, 300 s for 5 to 9, and 1800 s from 10 on.
  pub check-failures :
      (n secs : ℕ) (d : Db)
      → lookup d key ≡ none
      → verdict (backoff_script R key (wait secs (failures (suc n) d))).0
        ≡ some (
            if ltb secs (cooldown (suc n))
            then expected (suc n) (cooldown (suc n) - secs)
            else ok tt)
  unfolding backoff_script judge_backoff
  check-failures n secs d h =
      rw (R.lookup-wait secs (failures (suc n) d) key, failures-count (suc n) d h) (ground arith)

  -- A counter whose cooldown ran out is forgotten: the next failure is counted as the first.
  pub cooldown_forgets :
      (n secs : ℕ) (d : Db)
      → lookup d key ≡ none
      → cooldown (suc n) ≤ secs
      → lookup (record_failure R key (wait secs (failures (suc n) d))).1 key ≡ counted_after 1
  cooldown_forgets n secs d h over =
      failure-counts zero (wait secs (failures (suc n) d)) (
        rw (R.lookup-wait secs (failures (suc n) d) key, failures-count (suc n) d h) (ground arith))

-- The label that a blocked client is shown names the seconds of `backoff_params`, and these are not
-- the seconds it waits: from 5 to 19 failures the counter lives longer than the label says.
pub label_understates : (n : ℕ) → 5 ≤ n → n < 20 → (backoff_params n).0 < cooldown n
unfolding backoff_params
label_understates n lo hi = ground arith
