-- ===== src/Api/Blank.antt =====
-- The test of backend/api/src/notes.rs that a title is blank.
use fullstackhex.Base.{
  ℕ, Bool, false, ◌&&◌, ◌||◌, Text, List, [], ◌∷◌, Option, none, some, is_empty, is_space, leb,
  ◌==◌, if◌then◌else◌,
}

-- `str::trim` leaves nothing: every character has the property White_Space, read byte by byte with
-- the bytes of a character begun.
abbrev white : List ℕ → ℕ → Option (List ℕ)
white [] c =
    if is_space c
    then some []
    else if c == 0xC2 || (c == 0xE1 || (c == 0xE2 || c == 0xE3))
    then some (c ∷ [])
    else none
white (a ∷ []) c =
    if a == 0xC2
    then (if c == 0x85 || c == 0xA0 then some [] else none)
    else if (a == 0xE1 && c == 0x9A)
        || (a == 0xE2 && (c == 0x80 || c == 0x81))
        || (a == 0xE3 && c == 0x80)
    then some (a ∷ c ∷ [])
    else none
white (a ∷ b ∷ _) c =
    if a == 0xE2 && b == 0x80
    then (if (leb 0x80 c && leb c 0x8A) || (c == 0xA8 || (c == 0xA9 || c == 0xAF))
        then some []
        else none)
    else if (a == 0xE2 && c == 0x9F) || (a == 0xE3 && c == 0x80) || (a == 0xE1 && c == 0x80)
    then some []
    else none

blank_from : List ℕ → Text → Bool
blank_from begun [] = is_empty begun
blank_from begun (c ∷ cs) = elim (white begun c) [ none ↦ false | some next ↦ blank_from next cs ]

unfoldable pub is_blank : Text → Bool
unfolding blank_from
is_blank = blank_from []
