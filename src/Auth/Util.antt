-- ===== src/Auth/Util.antt =====
-- backend/auth/src/util.rs (constant_time_eq) and backend/auth/src/csrf.rs (validate_csrf_token).
use Prim.Native.Nat.{bit_or, bit_xor}
use fullstackhex.Base.{
  inl, inr, Bool-cases, ℕ, zero, suc, ◌≡◌, ◌≢◌, ◌↔◌, ◌<◌, refl, Bool, true, false, ◌&&◌, Text, [],
  ◌∷◌, length, ltb, ◌==◌, eq_iff, if◌then◌else◌, All, arith, is_empty, ap,
}

-- `.zip(..).fold(0u8, |acc, (x, y)| acc | (x ^ y))`, from the accumulator on.
difference : ℕ → Text → Text → ℕ
difference acc (x ∷ xs) (y ∷ ys) = difference (bit_or acc (bit_xor x y)) xs ys
difference acc [] ys = acc
difference acc (x ∷ xs) [] = acc

unfoldable pub constant_time_eq : Text → Text → Bool
unfolding difference
constant_time_eq a b = if length a == length b then difference 0 a b == 0 else false

-- Strings are compared by their bytes.
unfoldable pub constant_time_str_eq : Text → Text → Bool
unfolding constant_time_eq
constant_time_str_eq a b = constant_time_eq a b

unfoldable pub validate_csrf_token : Text → Text → Bool
unfolding constant_time_str_eq
validate_csrf_token cookie_token header_token =
    if is_empty cookie_token
    then false
    else if is_empty header_token
    then false
    else constant_time_str_eq cookie_token header_token

-- Every element is a byte.
abbrev pub IsBytes : Text → Type 0
IsBytes = All (λ x. x < 256)

-- A test that passes for each number under a bound, tried one after the other.
passes : (ℕ → Bool) → ℕ → Bool
passes test zero = true
passes test (suc k) = if test k then passes test k else false

passes_at : (test : ℕ → Bool) (bound k : ℕ) → k < bound → passes test bound ≡ true → test k ≡ true
unfolding passes
passes_at test zero k under all = absurd (omega arith)
passes_at test (suc b) k under all = ground (arith, passes_at test b k)

abbrev same : Bool → Bool → Bool
same true b = b
same false true = false
same false false = true

abbrev xor_row : ℕ → ℕ → Bool
xor_row x y = ltb (bit_xor x y) 256 && same (bit_xor x y == 0) (x == y)

abbrev or_row : ℕ → ℕ → Bool
or_row x y = ltb (bit_or x y) 256 && same (bit_or x y == 0) (x == 0 && y == 0)

-- A test on two bytes, tried on all of them.
abbrev on_bytes : (ℕ → ℕ → Bool) → Bool
on_bytes test = passes (λ x. passes (test x) 256) 256

on_bytes_at :
    (test : ℕ → ℕ → Bool) (x y : ℕ) → x < 256 → y < 256 → on_bytes test ≡ true → test x y ≡ true
on_bytes_at test x y hx hy all =
    passes_at (test x) 256 y hy (passes_at (λ a. passes (test a) 256) 256 x hx all)

xor_rows : on_bytes xor_row ≡ true
unfolding passes
xor_rows = refl

or_rows : on_bytes or_row ≡ true
unfolding passes
or_rows = refl

xor_byte : (x y : ℕ) → x < 256 → y < 256 → xor_row x y ≡ true
xor_byte x y hx hy = on_bytes_at xor_row x y hx hy xor_rows

or_byte : (x y : ℕ) → x < 256 → y < 256 → or_row x y ≡ true
or_byte x y hx hy = on_bytes_at or_row x y hx hy or_rows

xor_lt : (x y : ℕ) → x < 256 → y < 256 → bit_xor x y < 256
xor_lt x y hx hy = ground (arith, xor_byte x y)

or_lt : (x y : ℕ) → x < 256 → y < 256 → bit_or x y < 256
or_lt x y hx hy = ground (arith, or_byte x y)

difference-zero :
    (acc : ℕ) (a b : Text)
    → acc < 256
    → IsBytes a
    → IsBytes b
    → length a ≡ length b
    → (difference acc a b ≡ 0) ↔ ((acc ≡ 0) × (a ≡ b))
unfolding difference
difference-zero acc [] [] h ha hb len = (λ e. (e, refl), λ e. e.0)
difference-zero acc [] (y ∷ ys) h ha hb len = absurd (omega arith)
difference-zero acc (x ∷ xs) [] h ha hb len = absurd (omega arith)
difference-zero acc (x ∷ xs) (y ∷ ys) h ha hb len =
    let lt = or_lt acc (bit_xor x y) h (xor_lt x y ha.0 hb.0) in
    let ih = difference-zero (bit_or acc (bit_xor x y)) xs ys lt ha.1 hb.1 (omega arith) in
    (
      λ e. ground (arith, ih.0 e, or_byte acc (bit_xor x y) h (xor_lt x y ha.0 hb.0), xor_byte x y),
      λ e. ih.1 (
        ground (arith, or_byte acc (bit_xor x y) h (xor_lt x y ha.0 hb.0), xor_byte x y),
        ground arith,
      ),
    )

-- The fold over the xors of the bytes decides equality of byte strings.
pub constant_time_eq_iff :
    (a b : Text) → IsBytes a → IsBytes b → (constant_time_eq a b ≡ true) ↔ (a ≡ b)
unfolding constant_time_eq
constant_time_eq_iff a b ha hb = elim (Bool-cases (length a == length b)) [
  | inl e ↦
      let d = difference-zero 0 a b (omega arith) ha hb ((eq_iff _ _).0 e) in
      rw e (λ h. (d.0 ((eq_iff _ _).0 h)).1, λ h. (eq_iff _ _).1 (d.1 (refl, h)))
  | inr e ↦ rw e (λ h. cc, λ h. cc (e, (eq_iff (length a) (length b)).1 (ap length h)))
]

-- A CSRF token is accepted exactly if the cookie's value and the header's are the same non-empty
-- byte string; a missing value, which the middleware reads as empty, is never accepted.
pub validate_csrf_token_iff :
    (cookie header : Text)
    → IsBytes cookie
    → IsBytes header
    → (validate_csrf_token cookie header ≡ true) ↔ ((cookie ≢ []) × (cookie ≡ header))
unfolding validate_csrf_token
validate_csrf_token_iff [] header hc hh = (λ h. cc, λ h. absurd (h.0 refl))
validate_csrf_token_iff (x ∷ xs) [] hc hh = (λ h. cc, λ h. cc h.1)
validate_csrf_token_iff (x ∷ xs) (y ∷ ys) hc hh =
    let e = constant_time_eq_iff (x ∷ xs) (y ∷ ys) hc hh in (λ h. (λ n. cc n, e.0 h), λ h. e.1 h.1)
