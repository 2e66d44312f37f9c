-- ===== src/Cache/RateLimit/Window.antt =====
-- The sliding window of backend/cache/src/rate_limit.rs: over any run of checks on one key, no
-- window of time holds more grants than the limit, and below the limit every check is granted.
use fullstackhex.Base.{arith, ℕ, ◌-◌, ◌<◌, ◌≤◌, ◌≡◌, refl, Text, List, [], ◌∷◌, ◌++◌, none, ltb}
use fullstackhex.Cache.Redis.{Redis}
use fullstackhex.Cache.RateLimit.{window_ms, ttl_secs}
use fullstackhex.Cache.RateLimit.Counts.{after, within}
use fullstackhex.Cache.RateLimit.Invariant.{
  Check, check, grants, leave, Paced, Inv, is_granted, interference-Inv, is_granted-result,
  result-Inv,
}

module _ (R : Redis) (key : Text) (window_secs max : ℕ) (live : 0 < ttl_secs window_secs) where
  run-capped :
      (cs : List (Check R key window_secs max)) (d : R.Db) (gs : List ℕ) (used : List Text)
      (last : ℕ)
      → Inv R key window_secs max d gs used last last
      → Paced R key window_secs max used last cs
      → (end : ℕ) → within end (window_ms window_secs) (grants R key window_secs max cs d gs) ≤ max
  unfolding grants
  run-capped [] d gs used last v h end = v.capped end
  run-capped (c ∷ cs) d gs used last v (order, past_first, in_range, fresh, quiet, later) end =
      let v' = interference-Inv R key window_secs max v order (quiet d) in
      let v'' =
        result-Inv R key window_secs max live (c.before d) gs used last c.now c.member v' order
          past_first in_range fresh in
      run-capped cs _ _ (c.member ∷ used) c.now v'' later end

  run-exact :
      (cs : List (Check R key window_secs max)) (c : Check R key window_secs max) (d : R.Db)
      (gs : List ℕ) (used : List Text) (last : ℕ)
      → Inv R key window_secs max d gs used last last
      → Paced R key window_secs max used last (cs ++ c ∷ [])
      → is_granted (check R key window_secs max c (leave R key window_secs max cs d)).0
        ≡ ltb (after (c.now - window_ms window_secs) (grants R key window_secs max cs d gs)) max
  unfolding grants leave
  run-exact [] c d gs used last v (order, past_first, in_range, fresh, quiet, later) =
      is_granted-result R key window_secs max live (c.before d) gs used last c.now c.member
        (interference-Inv R key window_secs max v order (quiet d)) order past_first in_range fresh
  run-exact (b ∷ cs) c d gs used last v (order, past_first, in_range, fresh, quiet, later) =
      let v' = interference-Inv R key window_secs max v order (quiet d) in
      let v'' =
        result-Inv R key window_secs max live (b.before d) gs used last b.now b.member v' order
          past_first in_range fresh in
      run-exact cs c _ _ (b.member ∷ used) b.now v'' later

  module _ (d : R.Db) (empty : R.lookup d key ≡ none) where
    empty-Inv : Inv R key window_secs max d [] [] 0 0
    empty-Inv = record {
      es = [];
      holds = rw empty;
      known = tt;
      agree = λ lo h. refl;
      past = tt;
      capped = λ end. omega arith;
    }

    -- From a key that does not exist, over any paced run of checks, no window of the configured
    -- width, wherever it ends, holds more grants than the limit.
    pub window_capped :
        (cs : List (Check R key window_secs max))
        → Paced R key window_secs max [] 0 cs
        → (end : ℕ)
        → within end (window_ms window_secs) (grants R key window_secs max cs d []) ≤ max
    window_capped cs h end = run-capped cs d [] [] 0 empty-Inv h end

    -- The check after any paced run of checks is granted exactly if fewer grants than the limit lie
    -- in the window that ends at it: no request is refused early, and refused ones do not count.
    pub granted_exactly :
        (cs : List (Check R key window_secs max)) (c : Check R key window_secs max)
        → Paced R key window_secs max [] 0 (cs ++ c ∷ [])
        → is_granted (check R key window_secs max c (leave R key window_secs max cs d)).0
          ≡ ltb (after (c.now - window_ms window_secs) (grants R key window_secs max cs d [])) max
    granted_exactly cs c h = run-exact cs c d [] [] 0 empty-Inv h
