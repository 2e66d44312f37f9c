-- ===== src/Storage/Trim.antt =====
-- `str::trim`, which backend/storage/src/client.rs takes header values through: every character with
-- the property White_Space is taken away, read as the bytes of its UTF-8.
use mathlib.Core.List.{reverse}
use fullstackhex.Base.{ℕ, Bool, ◌||◌, ◌&&◌, ◌==◌, leb, Text, [], ◌∷◌, is_space, if◌then◌else◌}

-- A white character of two bytes, and one of three.
abbrev two_white : ℕ → ℕ → Bool
two_white a b = a == 0xC2 && (b == 0x85 || b == 0xA0)

abbrev three_white : ℕ → ℕ → ℕ → Bool
three_white a b c =
    (a == 0xE1 && b == 0x9A && c == 0x80)
    || (a == 0xE2
        && b == 0x80
        && ((leb 0x80 c && leb c 0x8A) || (c == 0xA8 || (c == 0xA9 || c == 0xAF))))
    || (a == 0xE2 && b == 0x81 && c == 0x9F)
    || (a == 0xE3 && b == 0x80 && c == 0x80)

strip : (ℕ → ℕ → Bool) → (ℕ → ℕ → ℕ → Bool) → Text → Text
strip two three [] = []
strip two three (a ∷ []) = if is_space a then [] else a ∷ []
strip two three (a ∷ b ∷ []) =
    let rest = strip two three (b ∷ []) in
    if is_space a then rest else if two a b then [] else a ∷ b ∷ []
strip two three (a ∷ b ∷ c ∷ r) =
    let after_one = strip two three (b ∷ c ∷ r) in
    let after_two = strip two three (c ∷ r) in
    let after_three = strip two three r in
    if is_space a
    then after_one
    else if two a b
    then after_two
    else if three a b c
    then after_three
    else a ∷ b ∷ c ∷ r

unfoldable pub trim : Text → Text
unfolding strip
trim s = reverse (
    strip (λ b a. two_white a b) (λ c b a. three_white a b c)
      (reverse (strip two_white three_white s)))
