-- ===== src/Cache/RateLimit/Invariant.antt =====
-- A run of checks of backend/cache/src/rate_limit.rs on one key, and the invariant that ties the
-- sorted set to the grants so far.
use fullstackhex.Base.{
  ℕ, ◌+◌, ◌-◌, ◌<◌, ◌≤◌, ◌≡◌, refl, Bool, false, Text, List, [], ◌∷◌, none, length, ltb,
  if◌then◌else◌, ok, err, arith, All, ◌⊎◌, inl, inr, sym, Bool-cases,
}
use fullstackhex.Cache.Redis.{Redis, Reply, zset_of, zinsert, without, has_member}
use fullstackhex.Cache.RateLimit.{
  u64, window_ms, window_start, ttl_secs, eval_limit, Verdict, refusal,
}
use fullstackhex.Cache.RateLimit.Script.{
  in_window, limit_script-grants, limit_script-refuses, limit_script-records, trimmed,
}
use fullstackhex.Cache.RateLimit.Counts.{
  after, within, scores, after-in_window, length-in_window, after-zinsert, IsKnown, without_fresh,
  IsKnown-in_window, IsKnown-more, IsKnown-zinsert, within-le-after, after-past,
}

abbrev pub is_granted : Reply Verdict → Bool
is_granted (ok v) = v.granted
is_granted (err e) = false

refusal-denies : (ttl : ℕ) (es : List (ℕ × Text)) → is_granted (refusal ttl es) ≡ false
unfolding refusal
refusal-denies ttl [] = refl
refusal-denies ttl (e ∷ es) = refl

module _ (R : Redis) (key : Text) (window_secs max : ℕ) where
  -- One check: what other clients and expiry do before it, the clock and the drawn member.
  pub record Check : Type 0 where
    pub before : R.Db → R.Db
    pub now : ℕ
    pub member : Text

  abbrev pub check : Check → R.Db → Reply Verdict × R.Db
  check c d = eval_limit R key window_secs max c.now c.member (c.before d)

  abbrev pub record_grant : Reply Verdict → ℕ → List ℕ → List ℕ
  record_grant r now gs = if is_granted r then now ∷ gs else gs

  -- The times of the grants of a run of checks, latest first, after those already given.
  unfoldable pub grants : List Check → R.Db → List ℕ → List ℕ
  grants [] d gs = gs
  grants (c ∷ cs) d gs = grants cs (check c d).1 (record_grant (check c d).0 c.now gs)

  -- The server's state after a run of checks.
  unfoldable pub leave : List Check → R.Db → R.Db
  leave [] d = d
  leave (c ∷ cs) d = leave cs (check c d).1

  -- The checks come in the order of the clock, past the first window and within 64 bits; each draws
  -- a member not drawn before; between two checks nothing touches the key, or it expires, which
  -- takes at least the window.
  abbrev pub Paced : List Text → ℕ → List Check → Type 0
  Paced used last [] = Unit
  Paced used last (c ∷ cs) =
      (last ≤ c.now)
      × (window_ms window_secs ≤ c.now)
      × (c.now < u64)
      × (has_member c.member used ≡ false)
      × ((d : R.Db)
          → (R.lookup (c.before d) key ≡ R.lookup d key)
            ⊎ ((R.lookup (c.before d) key ≡ none) × (last + window_ms window_secs ≤ c.now)))
      × Paced (c.member ∷ used) c.now cs

  -- The set against the grants so far, for what is in the window at the time `from`.
  pub record Inv (d : R.Db) (gs : List ℕ) (used : List Text) (last from : ℕ) : Type 0 where
    pub es : List (ℕ × Text)
    pub holds : zset_of (R.lookup d key) ≡ ok es
    pub known : IsKnown used es
    pub agree : (lo : ℕ) → from ≤ lo + window_ms window_secs → after lo gs ≡ after lo (scores es)
    pub past : All (λ g. g ≤ last) gs
    pub capped : (end : ℕ) → within end (window_ms window_secs) gs ≤ max

  past_mono : (gs : List ℕ) (a b : ℕ) → a ≤ b → All (λ g. g ≤ a) gs → All (λ g. g ≤ b) gs
  past_mono [] a b le h = tt
  past_mono (g ∷ gs) a b le h = (omega arith, past_mono gs a b le h.1)

  -- Up to the next check, whose time is `now`.
  pub interference-Inv :
      {d d' : R.Db} {gs : List ℕ} {used : List Text} {last now : ℕ}
      → Inv d gs used last last
      → last ≤ now
      → (R.lookup d' key ≡ R.lookup d key)
        ⊎ ((R.lookup d' key ≡ none) × (last + window_ms window_secs ≤ now))
      → Inv d' gs used last now
  interference-Inv {gs} {last} {now} v le (inl same) = record {
    es = v.es;
    holds = rw same v.holds;
    known = v.known;
    agree = λ lo h. v.agree lo (omega arith);
    past = v.past;
    capped = v.capped;
  }
  interference-Inv {gs} {last} {now} v le (inr (gone, long)) = record {
    es = [];
    holds = rw gone;
    known = tt;
    agree = λ lo h. after-past lo gs (past_mono gs last lo (omega arith) v.past);
    past = v.past;
    capped = v.capped;
  }

  start_exact :
      (now : ℕ)
      → window_ms window_secs ≤ now
      → now < u64
      → window_start now window_secs ≡ now - window_ms window_secs
  start_exact now h k = omega arith

  module _ (live : 0 < ttl_secs window_secs) (d : R.Db) (gs : List ℕ) (used : List Text)
      (last now : ℕ) (member : Text) (v : Inv d gs used last now) (order : last ≤ now)
      (past_first : window_ms window_secs ≤ now) (in_range : now < u64)
      (fresh : has_member member used ≡ false) where
    kept : List (ℕ × Text)
    kept = in_window (window_start now window_secs) v.es

    abbrev result : Reply Verdict × R.Db
    result = eval_limit R key window_secs max now member d

    after-kept : (lo : ℕ) → now ≤ lo + window_ms window_secs → after lo (scores kept) ≡ after lo gs
    unfolding kept
    after-kept lo h =
        rw
          (after-in_window lo (window_start now window_secs) v.es
            (rw (start_exact now past_first in_range) (omega arith)))
          (sym (v.agree lo h))

    length-kept : length kept ≡ after (now - window_ms window_secs) gs
    unfolding kept
    length-kept =
        rw
          (
            length-in_window (window_start now window_secs) v.es,
            start_exact now past_first in_range,
          )
          (sym (v.agree (now - window_ms window_secs) (omega arith)))

    -- A grant leaves no window over the limit.
    capped-grant :
        length kept < max → (end : ℕ) → within end (window_ms window_secs) (now ∷ gs) ≤ max
    capped-grant room end = ground (
      arith,
      v.capped end,
      length-kept,
      within-le-after end (window_ms window_secs) (now - window_ms window_secs) gs,
    )

    unrecorded : without member kept ≡ kept
    unfolding kept
    unrecorded =
        without_fresh member used _
          (IsKnown-in_window used (window_start now window_secs) v.es v.known) fresh

    granted-Inv :
        length kept < max → Inv result.1 (record_grant result.0 now gs) (member ∷ used) now now
    unfolding kept eval_limit
    granted-Inv room =
        let start = window_start now window_secs in
        let ttl = ttl_secs window_secs in
        let g = limit_script-grants R key start now max member ttl d v.es v.holds room in
        rw (g.0, g.1)
          (record {
            es = zinsert now member (without member kept);
            holds = limit_script-records R key start now max member ttl d v.es v.holds live;
            known =
                rw unrecorded (
                  IsKnown-zinsert used now member kept (IsKnown-in_window used start v.es v.known));
            agree = λ lo h. rw (unrecorded, after-zinsert lo now member kept, after-kept lo h) refl;
            past = (omega arith, past_mono gs last now order v.past);
            capped = capped-grant room;
          })

    refused-Inv :
        max ≤ length kept → Inv result.1 (record_grant result.0 now gs) (member ∷ used) now now
    unfolding kept eval_limit
    refused-Inv full =
        let start = window_start now window_secs in
        let ttl = ttl_secs window_secs in
        rw
          (
            limit_script-refuses R key start now max member ttl d v.es v.holds full,
            refusal-denies ttl kept,
          )
          (record {
            es = kept;
            holds = trimmed R key start now max member ttl d v.es v.holds;
            known = IsKnown-more used member kept (IsKnown-in_window used start v.es v.known);
            agree = λ lo h. sym (after-kept lo h);
            past = past_mono gs last now order v.past;
            capped = v.capped;
          })

    pub is_granted-result : is_granted result.0 ≡ ltb (after (now - window_ms window_secs) gs) max
    unfolding kept eval_limit
    is_granted-result = elim (Bool-cases (ltb (length kept) max)) [
      | inl room ↦ rw (
        ← length-kept,
        room,
        (limit_script-grants R key (window_start now window_secs) now max member
            (ttl_secs window_secs) d v.es v.holds (ground arith)).0,
      )
      | inr full ↦ rw (
        ← length-kept,
        full,
        limit_script-refuses R key (window_start now window_secs) now max member
            (ttl_secs window_secs) d v.es v.holds (ground arith),
        refusal-denies (ttl_secs window_secs) kept,
      )
    ]

    pub result-Inv : Inv result.1 (record_grant result.0 now gs) (member ∷ used) now now
    result-Inv = elim (Bool-cases (ltb (length kept) max)) [
      | inl room ↦ granted-Inv (ground arith)
      | inr full ↦ refused-Inv (ground arith)
    ]
