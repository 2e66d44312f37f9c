-- ===== src/Base/Numbers.antt =====
-- Integers with a sign, and the reading of decimal numbers by `str::parse`.
use Prim.Native.Nat.{ℕ, zero, suc, ◌+◌, ◌-◌, ◌*◌, ◌/◌, ◌%◌, ◌^◌, ◌≤◌, ◌<◌}
use mathlib.Core.Path.{◌≡◌, refl, ◌∙◌, ap}
use mathlib.Core.Bool.{true, false, ◌&&◌}
use mathlib.Core.Option.{Option, none, some}
use mathlib.Core.List.{[], ◌∷◌}
use native.Mathlib.Omega.{arith}
use mathlib.Core.Logic.{inl, inr, ◌≢◌}
use fullstackhex.Base.Tests.{if◌then◌else◌, ◌==◌, ltb, leb, Bool-cases, lt→ltb}
use fullstackhex.Base.Lists.{All}
use fullstackhex.Base.Bytes.{Text, decimal, decimal_from}

pub data ℤ : Type 0 where
  pos negsuc : ℕ → ℤ

-- The value of decimal digits, from the value so far.
unfoldable pub digits : ℕ → Text → Option ℕ
digits n [] = some n
digits n (c ∷ cs) = if leb 48 c && leb c 57 then digits (n * 10 + (c - 48)) cs else none

abbrev below : ℕ → Option ℕ → Option ℕ
below limit none = none
below limit (some n) = if ltb n limit then some n else none

-- The digits of a number below a limit, at least one.
abbrev pub unsigned : ℕ → Text → Option ℕ
unsigned limit [] = none
unsigned limit (c ∷ cs) = below limit (digits 0 (c ∷ cs))

-- `str::parse` for an unsigned type of `bits` bits: a sign "+" is allowed.
unfoldable pub parse_unsigned : ℕ → Text → Option ℕ
unfolding digits
parse_unsigned bits [] = none
parse_unsigned bits (c ∷ cs) =
    if c == 43 then unsigned (2 ^ bits) cs else unsigned (2 ^ bits) (c ∷ cs)

abbrev negated : Option ℕ → Option ℤ
negated none = none
negated (some zero) = some (pos zero)
negated (some (suc n)) = some (negsuc n)

abbrev as_pos : Option ℕ → Option ℤ
as_pos none = none
as_pos (some n) = some (pos n)

-- `str::parse::<i64>`
unfoldable pub parse_i64 : Text → Option ℤ
unfolding digits
parse_i64 [] = none
parse_i64 (c ∷ cs) =
    if c == 45
    then negated (unsigned (2 ^ 63 + 1) cs)
    else if c == 43
    then as_pos (unsigned (2 ^ 63) cs)
    else as_pos (unsigned (2 ^ 63) (c ∷ cs))

abbrev pub IsDigit : ℕ → Type 0
IsDigit c = (48 ≤ c) × (c ≤ 57)

-- What is printed has digits only.
decimal_from-IsDigit : (f n : ℕ) (acc : Text) → All IsDigit acc → All IsDigit (decimal_from f n acc)
unfolding decimal_from
decimal_from-IsDigit zero n acc h = h
decimal_from-IsDigit (suc f) n acc h = elim (Bool-cases (n / 10 == 0)) [
  | inl e ↦ rw e ((omega arith, omega arith), h)
  | inr e ↦
      rw e (decimal_from-IsDigit f (n / 10) ((48 + n % 10) ∷ acc) ((omega arith, omega arith), h))
]

pub decimal-IsDigit : (n : ℕ) → All IsDigit (decimal n)
unfolding decimal
decimal-IsDigit n = decimal_from-IsDigit (suc n) n [] tt

digit_test : (c : ℕ) → IsDigit c → (leb 48 c && leb c 57) ≡ true
digit_test c (h, k) = ground arith

digits-cons : (n d : ℕ) (cs : Text) → d < 10 → digits n ((48 + d) ∷ cs) ≡ digits (n * 10 + d) cs
unfolding digits
digits-cons n d cs h =
    rw (digit_test (48 + d) (omega arith, omega arith))
      (ap (λ x. digits (n * 10 + x) cs) (omega arith))

-- Reading goes through what was printed to what follows.
digits-decimal_from :
    (f n : ℕ) (acc : Text) → n < f → digits 0 (decimal_from f n acc) ≡ digits n acc
unfolding decimal_from
digits-decimal_from zero n acc h = absurd (omega (arith, h))
digits-decimal_from (suc f) n acc h = elim (Bool-cases (n / 10 == 0)) [
  | inl e ↦ rw e (digits-cons 0 (n % 10) acc (omega arith) ∙ ap (λ x. digits x acc) (ground arith))
  | inr e ↦ rw e (
      digits-decimal_from f (n / 10) ((48 + n % 10) ∷ acc) (ground arith)
      ∙ digits-cons (n / 10) (n % 10) acc (omega arith)
      ∙ ap (λ x. digits x acc) (omega arith))
]

pub digits-decimal : (n : ℕ) → digits 0 (decimal n) ≡ some n
unfolding decimal digits
digits-decimal n = digits-decimal_from (suc n) n [] (omega arith)

unsigned-some :
    (limit n : ℕ) (c : ℕ) (cs : Text)
    → digits 0 (c ∷ cs) ≡ some n
    → n < limit
    → unsigned limit (c ∷ cs) ≡ some n
unsigned-some limit n c cs h lt = rw (h, lt→ltb n limit lt) refl

-- A digit is no sign.
not_sign : (c s : ℕ) → IsDigit c → s < 48 → (c == s) ≡ false
not_sign c s d h = ground arith

i64-digits :
    (n : ℕ) (t : Text)
    → digits 0 t ≡ some n
    → (t ≢ [])
    → All IsDigit t
    → n < 2 ^ 63
    → parse_i64 t ≡ some (pos n)
unfolding parse_i64
i64-digits n [] h ne d lt = absurd (ne refl)
i64-digits n (c ∷ cs) h ne (d, ds) lt =
    rw (not_sign c 45 d (omega arith), not_sign c 43 d (omega arith), h, lt→ltb n (2 ^ 63) lt) refl

decimal_from-ne : (f n c : ℕ) (acc : Text) → decimal_from f n (c ∷ acc) ≢ []
unfolding decimal_from
decimal_from-ne zero n c acc h = cc h
decimal_from-ne (suc f) n c acc h = elim (Bool-cases (n / 10 == 0)) [
  | inl e ↦ cc (rw e at h)
  | inr e ↦ decimal_from-ne f (n / 10) (48 + n % 10) (c ∷ acc) (rw e at h)
]

pub decimal-ne : (n : ℕ) → decimal n ≢ []
unfolding decimal decimal_from
decimal-ne n h = elim (Bool-cases (n / 10 == 0)) [
  | inl e ↦ cc (rw e at h)
  | inr e ↦ decimal_from-ne n (n / 10) (48 + n % 10) [] (rw e at h)
]

-- A number that is printed and read again.
pub parse_i64-decimal : (n : ℕ) → n < 2 ^ 63 → parse_i64 (decimal n) ≡ some (pos n)
parse_i64-decimal n lt =
    i64-digits n (decimal n) (digits-decimal n) (decimal-ne n) (decimal-IsDigit n) lt

unsigned-digits :
    (bits n : ℕ) (t : Text)
    → digits 0 t ≡ some n
    → t ≢ []
    → All IsDigit t
    → n < 2 ^ bits
    → parse_unsigned bits t ≡ some n
unfolding parse_unsigned
unsigned-digits bits n [] h ne d lt = absurd (ne refl)
unsigned-digits bits n (c ∷ cs) h ne (d, ds) lt =
    rw (not_sign c 43 d (omega arith), h, lt→ltb n (2 ^ bits) lt) refl

pub parse_unsigned-decimal : (bits n : ℕ) → n < 2 ^ bits → parse_unsigned bits (decimal n) ≡ some n
parse_unsigned-decimal bits n lt =
    unsigned-digits bits n (decimal n) (digits-decimal n) (decimal-ne n) (decimal-IsDigit n) lt
