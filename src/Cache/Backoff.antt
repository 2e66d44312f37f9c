-- ===== src/Cache/Backoff.antt =====
-- `backoff_check`, `backoff_increment` and `backoff_params` of backend/cache/src/rate_limit.rs.
pub mod Escalation
use fullstackhex.Base.{
  ℕ, zero, suc, ◌+◌, ◌-◌, ◌<◌, ◌≤◌, ◌≡◌, Bool, true, false, Text, codes, ◌++◌, ◌∷◌, Option, none,
  some, ltb, leb, ◌==◌, if◌then◌else◌, Result, ok, err,
}
use fullstackhex.Base.Exec.{Exec, pure, lift, ◌>>=◌, ◌>>◌}
use fullstackhex.Domain.Errors.{CacheError, backoff_blocked}
use fullstackhex.Cache.Redis.{Redis, Reply, Entry, wrong_type, counter, str, zset, members}
use fullstackhex.Cache.Client.{World, CacheM, call, make_key, execute, settle}

-- The seconds and the label for a number of failures.
unfoldable pub backoff_params : ℕ → ℕ × Text
backoff_params count =
    if leb 20 count
    then (1800, codes "30min")
    else if leb 10 count
    then (300, codes "5min")
    else if leb 5 count
    then (60, codes "60s")
    else (60, codes "tracking")

abbrev pub not_an_integer : Text
not_an_integer = codes "ERR value is not an integer or out of range"

-- The count that the key holds; none for a missing key.
abbrev pub count_of : Option Entry → Reply (Option ℕ)
count_of none = ok none
count_of (some e) = elim e.value [
  | counter n ↦ ok (some n)
  | str v ↦ err not_an_integer
  | zset es ↦ err wrong_type
  | members ms ↦ err wrong_type
]

abbrev pub ttl_of : Option Entry → Option ℕ
ttl_of none = none
ttl_of (some e) = e.ttl

module _ (R : Redis) where
  open R use {Db, lookup, del, incr, expire}

  -- The reply of GET and then of TTL: a counter without expiry is deleted; none is {-1, -1}.
  read_backoff : Text → Reply (Option ℕ) → Option ℕ → Db → Reply (Option (ℕ × ℕ)) × Db
  read_backoff key (err e) ttl d = (err e, d)
  read_backoff key (ok none) ttl d = (ok none, d)
  read_backoff key (ok (some count)) none d = (ok none, del key d)
  read_backoff key (ok (some count)) (some ttl) d = (ok (some (count, ttl)), d)

  unfoldable pub backoff_script : Text → Db → Reply (Option (ℕ × ℕ)) × Db
  unfolding read_backoff
  backoff_script key d = read_backoff key (count_of (lookup d key)) (ttl_of (lookup d key)) d

  -- What the two numbers mean for the caller.
  unfoldable pub judge_backoff : Option (ℕ × ℕ) → Result CacheError (Unit {0})
  judge_backoff none = ok tt
  judge_backoff (some (count, remaining_ttl)) =
      if ltb count 5
      then ok tt
      else if ltb 0 remaining_ttl
      then err (backoff_blocked remaining_ttl count (backoff_params count).1)
      else ok tt

  abbrev backoff_key : Text → Text → Text → Text
  backoff_key prefix ip endpoint = make_key prefix (codes "backoff") (ip ++ 58 ∷ endpoint)

  unfoldable pub backoff_check : Text → Text → Text → CacheM R (Unit {0})
  unfolding backoff_script judge_backoff
  backoff_check prefix ip endpoint = do
    result ← call R (backoff_script (backoff_key prefix ip endpoint))
    lift (judge_backoff result)

  -- The seconds that the script passes to EXPIRE for the count that INCR returned.
  unfoldable pub increment_ttl : ℕ → ℕ → ℕ → ℕ → ℕ → ℕ
  increment_ttl t1 t2 t3 t4 count =
      if count == 1 then t1 else if ltb count 5 then t2 else if ltb count 10 then t3 else t4

  count_after : Reply (Option ℕ) → Reply ℕ
  count_after (err e) = err e
  count_after (ok none) = ok 1
  count_after (ok (some n)) = ok (suc n)

  expire_counted : Text → ℕ → ℕ → ℕ → ℕ → Reply ℕ → Db → Reply ℕ × Db
  unfolding increment_ttl
  expire_counted key t1 t2 t3 t4 (err e) d = (err e, d)
  expire_counted key t1 t2 t3 t4 (ok count) d =
      (ok count, expire key (increment_ttl t1 t2 t3 t4 count) (incr key d))

  unfoldable pub increment_script : Text → ℕ → ℕ → ℕ → ℕ → Db → Reply ℕ × Db
  unfolding count_after expire_counted
  increment_script key t1 t2 t3 t4 d =
      expire_counted key t1 t2 t3 t4 (count_after (count_of (lookup d key))) d

  -- The script at the thresholds that the source takes from `backoff_params`.
  unfoldable pub record_failure : Text → Db → Reply ℕ × Db
  unfolding increment_script backoff_params
  record_failure key d =
      increment_script key (backoff_params 1).0 (backoff_params 5).0 (backoff_params 10).0
        (backoff_params 20).0 d

  unfoldable pub backoff_increment : Text → Text → Text → CacheM R (Unit {0})
  unfolding record_failure
  backoff_increment prefix ip endpoint = do
    _ ← call R (record_failure (backoff_key prefix ip endpoint))
    pure tt
