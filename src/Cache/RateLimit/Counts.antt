-- ===== src/Cache/RateLimit/Counts.antt =====
-- Counting the members of the sorted set of backend/cache/src/rate_limit.rs by their scores.
use fullstackhex.Base.{
  ℕ, ◌+◌, ◌≤◌, ◌≡◌, refl, true, false, ◌&&◌, Text, List, [], ◌∷◌, length, ltb, leb, if◌then◌else◌,
  text_eq_refl, text_eq_iff, arith, All,
}
use fullstackhex.Cache.Redis.{zinsert, without, has_member}
use fullstackhex.Cache.RateLimit.Script.{in_window}

-- How many times lie after a bound.
abbrev pub after : ℕ → List ℕ → ℕ
after lo [] = 0
after lo (g ∷ gs) = (if ltb lo g then 1 else 0) + after lo gs

-- How many times lie in the window of a width that ends at a time, that is in (end - width, end].
abbrev pub within : ℕ → ℕ → List ℕ → ℕ
within end width [] = 0
within end width (g ∷ gs) =
    (if leb g end && ltb end (g + width) then 1 else 0) + within end width gs

abbrev pub scores : List (ℕ × Text) → List ℕ
scores [] = []
scores ((s, m) ∷ es) = s ∷ scores es

pub after-in_window :
    (lo window_start : ℕ) (es : List (ℕ × Text))
    → window_start ≤ lo
    → after lo (scores (in_window window_start es)) ≡ after lo (scores es)
after-in_window lo window_start [] h = refl
after-in_window lo window_start ((s, m) ∷ es) h =
    ground (arith, after-in_window lo window_start es h)

pub length-in_window :
    (window_start : ℕ) (es : List (ℕ × Text))
    → length (in_window window_start es) ≡ after window_start (scores es)
length-in_window window_start [] = refl
length-in_window window_start ((s, m) ∷ es) = ground (arith, length-in_window window_start es)

pub after-zinsert :
    (lo s : ℕ) (m : Text) (es : List (ℕ × Text))
    → after lo (scores (zinsert s m es)) ≡ (if ltb lo s then 1 else 0) + after lo (scores es)
after-zinsert lo s m [] = refl
after-zinsert lo s m ((t, n) ∷ es) = ground (arith, after-zinsert lo s m es)

-- Every member of the set was drawn by an earlier check.
abbrev pub IsKnown : List Text → List (ℕ × Text) → Type 0
IsKnown used = All (λ e. has_member e.1 used ≡ true)

pub without_fresh :
    (m : Text) (used : List Text) (es : List (ℕ × Text))
    → IsKnown used es
    → has_member m used ≡ false
    → without m es ≡ es
without_fresh m used [] h fresh = refl
without_fresh m used ((s, n) ∷ es) h fresh =
    ground (arith, without_fresh m used es h.1 fresh, text_eq_iff m n)

pub IsKnown-in_window :
    (used : List Text) (window_start : ℕ) (es : List (ℕ × Text))
    → IsKnown used es
    → IsKnown used (in_window window_start es)
IsKnown-in_window used window_start [] h = tt
IsKnown-in_window used window_start ((s, n) ∷ es) h =
    ground (arith, IsKnown-in_window used window_start es h.1)

pub IsKnown-more :
    (used : List Text) (m : Text) (es : List (ℕ × Text)) → IsKnown used es → IsKnown (m ∷ used) es
IsKnown-more used m [] h = tt
IsKnown-more used m ((s, n) ∷ es) h = (ground (arith, h.0), IsKnown-more used m es h.1)

pub IsKnown-zinsert :
    (used : List Text) (s : ℕ) (m : Text) (es : List (ℕ × Text))
    → IsKnown used es
    → IsKnown (m ∷ used) (zinsert s m es)
IsKnown-zinsert used s m [] h = (ground (arith, text_eq_refl m), tt)
IsKnown-zinsert used s m ((t, n) ∷ es) h =
    ground (arith, IsKnown-zinsert used s m es h.1, text_eq_refl m, IsKnown-more used m es h.1)

pub within-le-after :
    (end width lo : ℕ) (gs : List ℕ) → lo + width ≤ end → within end width gs ≤ after lo gs
within-le-after end width lo [] h = omega arith
within-le-after end width lo (g ∷ gs) h = ground (arith, within-le-after end width lo gs h)

-- All grants up to `last` and none after.
pub after-past : (lo : ℕ) (gs : List ℕ) → All (λ g. g ≤ lo) gs → after lo gs ≡ 0
after-past lo [] h = refl
after-past lo (g ∷ gs) h = ground (arith, after-past lo gs h.1)
