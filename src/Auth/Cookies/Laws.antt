-- ===== src/Auth/Cookies/Laws.antt =====
-- What a browser sends back in a `Cookie` header is what backend/auth/src/cookies.rs reads.
use mathlib.Core.List.{reverse, reverse-reverse}
use fullstackhex.Base.{
  All-append, All-reverse, ◌≡◌, ◌≢◌, false, Text, codes, List, [], ◌∷◌, ◌++◌, Option, none, some,
  split, trim, trim_start, is_space, strip_prefix, if◌then◌else◌, arith, refl, All, eq_iff, text_eq,
  ap,
}
use fullstackhex.Auth.Cookies.{find_prefix, some_non_empty, parse_cookie_value}

-- A byte that may stand in a cookie's name or value: no separator and no space.
abbrev pub IsPlain : Text → Type 0
IsPlain = All (λ c. (c ≢ 59) × (is_space c ≡ false))

-- A name: plain, and without "=".
abbrev pub IsName : Text → Type 0
IsName = All (λ c. (c ≢ 59) × (is_space c ≡ false) × (c ≢ 61))

abbrev pub Cookie : Type 0
Cookie = Text × Text

abbrev pub IsCookie : Cookie → Type 0
IsCookie (n, v) = IsName n × IsPlain v

abbrev pair_text : Cookie → Text
pair_text (n, v) = n ++ 61 ∷ v

-- The `Cookie` header for cookies: the pairs, joined by "; ".
abbrev pub render : Cookie → List Cookie → Text
render c [] = pair_text c
render c (d ∷ ds) = pair_text c ++ 59 ∷ 32 ∷ render d ds

-- The value of the first cookie with a name.
abbrev pub find_cookie : Text → List Cookie → Option Text
find_cookie name [] = none
find_cookie name ((n, v) ∷ cs) = if text_eq name n then some v else find_cookie name cs

split_plain : (s rest : Text) → IsPlain s → split 59 (s ++ 59 ∷ rest) ≡ s ∷ split 59 rest
unfolding split
split_plain [] rest h = ground arith
split_plain (x ∷ xs) rest h = ground (arith, split_plain xs rest h.1, eq_iff x 59)

split_last : (s : Text) → IsPlain s → split 59 s ≡ s ∷ []
unfolding split
split_last [] h = refl
split_last (x ∷ xs) h = ground (arith, split_last xs h.1, eq_iff x 59)

IsName-IsPlain : (n : Text) → IsName n → IsPlain n
IsName-IsPlain [] h = tt
IsName-IsPlain (x ∷ xs) h = ((h.0.0, h.0.1), IsName-IsPlain xs h.1)

pair-IsPlain : (c : Cookie) → IsCookie c → IsPlain (pair_text c)
pair-IsPlain (n, v) h =
    All-append (λ c. (c ≢ 59) × (is_space c ≡ false)) n (61 ∷ v) (IsName-IsPlain n h.0)
      ((ground arith, refl), h.1)

trim_start_plain : (s : Text) → IsPlain s → trim_start s ≡ s
unfolding trim_start
trim_start_plain [] h = refl
trim_start_plain (x ∷ xs) h = ground arith

trim_plain : (s : Text) → IsPlain s → trim s ≡ s
unfolding trim
trim_plain s h = rw (
  trim_start_plain s h,
  trim_start_plain (reverse s) (All-reverse (λ c. (c ≢ 59) × (is_space c ≡ false)) s h),
  reverse-reverse,
)

trim_space : (s : Text) → IsPlain s → trim (32 ∷ s) ≡ s
unfolding trim trim_start
trim_space s h = trim_plain s h

strip_prefix-pair :
    (n m v : Text)
    → IsName n
    → IsName m
    → strip_prefix (n ++ codes "=") (m ++ 61 ∷ v) ≡ (if text_eq n m then some v else none)
unfolding strip_prefix
strip_prefix-pair [] [] v hn hm = refl
strip_prefix-pair [] (y ∷ ys) v hn hm = ground (arith, eq_iff 61 y)
strip_prefix-pair (x ∷ xs) [] v hn hm = ground (arith, eq_iff x 61)
strip_prefix-pair (x ∷ xs) (y ∷ ys) v hn hm = ground (arith, strip_prefix-pair xs ys v hn.1 hm.1)

-- The pieces after the first, with the space that follows a semicolon.
abbrev later : List Cookie → List Text
later [] = []
later (d ∷ ds) = (32 ∷ pair_text d) ∷ later ds

space-plain : (s : Text) → IsPlain s → split 59 (32 ∷ s) ≡ (32 ∷ s) ∷ []
unfolding split
space-plain s h = rw (split_last s h)

split-space :
    (s : Text) (p : Text) (ps : List Text) → split 59 s ≡ p ∷ ps → split 59 (32 ∷ s) ≡ (32 ∷ p) ∷ ps
unfolding split
split-space s p ps h = rw h

split-render :
    (c : Cookie) (cs : List Cookie)
    → IsCookie c
    → All IsCookie cs
    → split 59 (render c cs) ≡ pair_text c ∷ later cs
split-render c [] hc hs = split_last (pair_text c) (pair-IsPlain c hc)
split-render c (d ∷ ds) hc hs = rw (
  split_plain (pair_text c) (32 ∷ render d ds) (pair-IsPlain c hc),
  split-space (render d ds) (pair_text d) (later ds) (split-render d ds hs.0 hs.1),
)

module _ (name : Text) (is_name : IsName name) where
  find_prefix-later :
      (cs : List Cookie)
      → All IsCookie cs
      → find_prefix (name ++ codes "=") (later cs) ≡ find_cookie name cs
  unfolding find_prefix
  find_prefix-later [] h = refl
  find_prefix-later ((n, v) ∷ cs) h = ground (
    arith,
    trim_space (pair_text (n, v)) (pair-IsPlain (n, v) h.0),
    strip_prefix-pair name n v is_name h.0.0,
    find_prefix-later cs h.1,
  )

  -- A `Cookie` header that lists cookies joined by "; " is read back: the value found is that of the
  -- first cookie with the name, unless there is none or that value is empty, whatever the other
  -- cookies hold.
  pub parse_cookie_value-render :
      (c : Cookie) (cs : List Cookie)
      → IsCookie c
      → All IsCookie cs
      → parse_cookie_value (render c cs) name ≡ some_non_empty (find_cookie name (c ∷ cs))
  unfolding parse_cookie_value
  parse_cookie_value-render (n, v) cs hc hs = rw (split-render (n, v) cs hc hs) (
      ap some_non_empty (
        ground (
          arith,
          trim_plain (pair_text (n, v)) (pair-IsPlain (n, v) hc),
          strip_prefix-pair name n v is_name hc.0,
          find_prefix-later cs hs,
        )))
