-- ===== src/Api/Health/Spacing.antt =====
-- backend/api/src/health.rs: how soon a cached check is made again, in whatever order the fast paths and
-- the locked checks of concurrent calls come. A locked check holds the write lock while it probes, so a
-- completed one is one step; a handler that is dropped while it probes stores nothing. The answers to a
-- request with a trace id do not go through the cache.
use fullstackhex.Base.{
  arith, ℕ, suc, ◌+◌, ◌≤◌, ◌≡◌, refl, sym, subst, Bool-cases, true, false, inl, inr, Option, none,
  some, List, [], ◌∷◌, ◌==◌, if◌then◌else◌,
}
use fullstackhex.Api.Health.{Reply, Cell, cached, locked_check, health_cache_fresh, is_ok}

-- The cell of a dependency, the time of the last step, and what was stored, with the time, the newest
-- first.
pub record World : Type 0 where
  pub cell : Cell
  pub clock : ℕ
  pub stores : List (ℕ × Reply)

-- What a locked check that made a probe has stored.
abbrev pub noted : Cell → Cell → List (ℕ × Reply) → List (ℕ × Reply)
noted old new es = elim new.cache [
  | none ↦ es
  | some e ↦ if new.probes == old.probes then es else e ∷ es
]

pub data Step (w : World) : World → Type 0 where
  -- A fast path, or a probe whose handler is dropped.
  passes :
      (now : ℕ) → w.clock ≤ now → Step w (record { cell = w.cell; clock = now; stores = w.stores })
  check :
      (now done : ℕ) (value : Reply)
      → w.clock ≤ now
      → now ≤ done
      → Step w (record {
        cell = (locked_check now done value w.cell).1;
        clock = done;
        stores = noted w.cell (locked_check now done value w.cell).1 w.stores;
      })

abbrev pub init : ℕ → World
init start = record { cell = record { cache = none; probes = 0 }; clock = start; stores = [] }

pub data Reach (start : ℕ) : World → Type 0 where
  initial : Reach start (init start)
  later : {w v : World} → Reach start w → Step w v → Reach start v

-- A second for a healthy dependency, two for any other, in nanoseconds.
abbrev pub lifetime : Reply → ℕ
lifetime v = if is_ok v then 1000000000 else 2000000000

-- Each value is stored a whole lifetime of the one before it later, at least.
pub data Spaced : List (ℕ × Reply) → Type 0 where
  no_store : Spaced []
  one_store : (e : ℕ × Reply) → Spaced (e ∷ [])
  next_store :
      {es : List (ℕ × Reply)} (done at_ : ℕ) (value v : Reply)
      → at_ + lifetime v ≤ done
      → Spaced ((at_, v) ∷ es)
      → Spaced ((done, value) ∷ (at_, v) ∷ es)

Held : Option (ℕ × Reply) → List (ℕ × Reply) → ℕ → Type 0
Held none stores clock = stores ≡ []
Held (some (at_, v)) stores clock =
    (es : List (ℕ × Reply)) × (stores ≡ (at_, v) ∷ es) × Spaced ((at_, v) ∷ es) × (at_ ≤ clock)

Inv : World → Type 0
unfolding Held
Inv w = Held w.cell.cache w.stores w.clock

Held-later :
    (cache : Option (ℕ × Reply)) (stores : List (ℕ × Reply)) (clock now : ℕ)
    → clock ≤ now
    → Held cache stores clock
    → Held cache stores now
unfolding Held
Held-later none stores clock now le h = h
Held-later (some (at_, v)) stores clock now le (es, e, spaced, early) =
    (es, e, spaced, omega (arith, le, early))

-- A cached value that is not fresh was stored a whole lifetime ago.
stale : (now at_ : ℕ) (v : Reply) → health_cache_fresh now at_ v ≡ false → at_ + lifetime v ≤ now
unfolding health_cache_fresh
stale now at_ v h = elim (Bool-cases (is_ok v)) [
  | inl e ↦ rw e (ground (arith, rw e at h))
  | inr e ↦ rw e (ground (arith, rw e at h))
]

one_more : (n : ℕ) → (suc n == n) ≡ false
one_more n = ground arith

no_more : (n : ℕ) → (n == n) ≡ true
no_more n = ground arith

Inv-check :
    (now done : ℕ) (value : Reply) (cache : Option (ℕ × Reply)) (probes clock : ℕ)
    (stores : List (ℕ × Reply))
    → clock ≤ now
    → now ≤ done
    → Held cache stores clock
    → Inv (record {
      cell = (locked_check now done value (record { cache = cache; probes = probes })).1;
      clock = done;
      stores =
          noted
            (record { cache = cache; probes = probes })
            (locked_check now done value (record { cache = cache; probes = probes })).1
            stores;
    })
unfolding Inv Held locked_check cached
Inv-check now done value none probes clock stores le ld h =
    rw (one_more probes) ([], rw h refl, one_store (done, value), omega arith)
Inv-check now done value (some (at_, v)) probes clock stores le ld (es, e, spaced, early) =
    elim (Bool-cases (health_cache_fresh now at_ v)) [
      | inl f ↦ rw (f, no_more probes) (es, e, spaced, omega (arith, early, le, ld))
      | inr f ↦
          let old = stale now at_ v f in
          rw (f, one_more probes)
            (
              (at_, v) ∷ es,
              rw e refl,
              next_store done at_ value v (omega (arith, old, ld)) spaced,
              omega arith,
            )
    ]

Inv-Reach : {start : ℕ} {w : World} → Reach start w → Inv w
unfolding Inv Held
Inv-Reach initial = refl
Inv-Reach (later {w = w} r (passes now le)) =
    Held-later w.cell.cache w.stores w.clock now le (Inv-Reach r)
Inv-Reach (later {w = w} r (check now done value le ld)) =
    Inv-check now done value w.cell.cache w.cell.probes w.clock w.stores le ld (Inv-Reach r)

-- In every state that calls reach from an empty cache, in whatever order their fast paths, locked
-- checks and dropped probes come, each value was stored in the cache a whole second after the one
-- before it at least, and two seconds after one that was not healthy.
pub stores-Spaced : {start : ℕ} {w : World} → Reach start w → Spaced w.stores
unfolding Inv Held
stores-Spaced {start} {w} r = of_cache w.cell.cache (Inv-Reach r)
  where
    of_cache : (cache : Option (ℕ × Reply)) → Held cache w.stores w.clock → Spaced w.stores
    of_cache none h = subst Spaced (sym h) no_store
    of_cache (some (at_, v)) (es, e, spaced, early) = subst Spaced (sym e) spaced
