-- ===== src/Sidecar/Exchange/Answer.antt =====
-- backend/py-sidecar/src/lib.rs: what is read of an answer.
use fullstackhex.Base.{
  arith, ℕ, ◌+◌, ◌<◌, ◌≤◌, ◌^◌, ◌≡◌, ◌≢◌, false, Text, codes, contains, decimal, decimal-IsDigit,
  decimal-ne, parse_unsigned, parse_unsigned-decimal, IsDigit, is_space, length, starts_with,
  le→ltb, ◌==◌, List, [], ◌∷◌, ◌++◌, append_assoc, All, Option, none, some, ok, Bool-cases, refl,
  ap, sym, ◌∙◌, inl, inr, is_empty, take-all,
}
use fullstackhex.Sidecar.Exchange.{
  cut_head, also, read_answer, answer_of, max_response_size, status_of, first_line, words_from,
  word_from, split_whitespace, second, or_502, crlf, judged,
}
use fullstackhex.Sidecar.Exchange.Request.{Clean, print, line_end, contains-append, digits-Clean}

abbrev onto : Text → Option (Text × Text) → Option (Text × Text)
onto [] o = o
onto (x ∷ xs) o = also x (onto xs o)

onto-some : (l head body : Text) → onto l (some (head, body)) ≡ some (l ++ head, body)
onto-some [] head body = refl
onto-some (x ∷ l) head body = ap (also x) (onto-some l head body)

not_return : (x : ℕ) → (x == 13) ≡ false → (13 == x) ≡ false
not_return x h = ground arith

-- A blank line does not begin at a byte other than a carriage return.
cut_head-skip : (x : ℕ) (t : Text) → (x == 13) ≡ false → cut_head (x ∷ t) ≡ also x (cut_head t)
unfolding cut_head starts_with
cut_head-skip x t h = rw (not_return x h) refl

cut_head-onto : (l t : Text) → contains 13 l ≡ false → cut_head (l ++ t) ≡ onto l (cut_head t)
unfolding contains
cut_head-onto [] t h = refl
cut_head-onto (x ∷ l) t h =
    cut_head-skip x (l ++ t) (ground arith) ∙ ap (also x) (cut_head-onto l t (ground arith))

-- A line's end that is not followed by another one.
cut_head-crlf :
    (x : ℕ) (t : Text)
    → (x == 13) ≡ false
    → cut_head (13 ∷ 10 ∷ x ∷ t) ≡ also 13 (also 10 (cut_head (x ∷ t)))
unfolding cut_head starts_with
cut_head-crlf x t h = rw (not_return x h) refl

abbrev pub IsHeader : Text → Type 0
IsHeader l = Clean l × (is_empty l ≡ false)

cut_head-blank :
    (body : Text) → cut_head (13 ∷ 10 ∷ 13 ∷ 10 ∷ body) ≡ some (13 ∷ 10 ∷ 13 ∷ 10 ∷ [], body)
unfolding cut_head starts_with
cut_head-blank body = refl

no_return : (x : ℕ) (m : Text) → contains 13 (x ∷ m) ≡ false → (x == 13) ≡ false
unfolding contains
no_return x m h = ground arith

digit_solid : (x : ℕ) → IsDigit x → is_space x ≡ false
digit_solid x h = ground (arith, h.0, h.1)

cut_head-print :
    (l : Text) (ls : List Text) (body : Text)
    → IsHeader l
    → All IsHeader ls
    → cut_head (print (l ∷ ls) (crlf ++ body)) ≡ some (print (l ∷ ls) crlf, body)
cut_head-print l [] body h hs =
    ap cut_head (append_assoc l crlf (crlf ++ body))
    ∙ cut_head-onto l (13 ∷ 10 ∷ 13 ∷ 10 ∷ body) h.0.1
    ∙ ap (onto l) (cut_head-blank body)
    ∙ onto-some l (13 ∷ 10 ∷ 13 ∷ 10 ∷ []) body
    ∙ ap (λ x. some (x, body)) (sym (append_assoc l crlf crlf))
cut_head-print l ([] ∷ ms) body h (k, hs) = absurd (cc k.1)
cut_head-print l ((x ∷ m) ∷ ms) body h (k, hs) =
    ap cut_head (append_assoc l crlf (print ((x ∷ m) ∷ ms) (crlf ++ body)))
    ∙ cut_head-onto l (13 ∷ 10 ∷ print ((x ∷ m) ∷ ms) (crlf ++ body)) h.0.1
    ∙ ap (onto l) (cut_head-crlf x (m ++ crlf ++ print ms (crlf ++ body)) (no_return x m k.0.1))
    ∙ ap (λ o. onto l (also 13 (also 10 o))) (cut_head-print (x ∷ m) ms body k hs)
    ∙ onto-some l (13 ∷ 10 ∷ print ((x ∷ m) ∷ ms) crlf) body
    ∙ ap (λ z. some (z, body)) (sym (append_assoc l crlf (print ((x ∷ m) ∷ ms) crlf)))

-- The status line: its first line, and the second word of it.
first_line-cut : (a t : Text) → contains 10 a ≡ false → first_line (a ++ 10 ∷ t) ≡ a
unfolding first_line contains
first_line-cut [] t h = refl
first_line-cut (x ∷ a) t h = elim (Bool-cases (x == 10)) [
  | inl e ↦ absurd (cc (rw e at h))
  | inr e ↦ rw (e, first_line-cut a t (ground (arith, h))) refl
]

-- A word of digits before a space.
words_from-digits :
    (a t : Text) → All IsDigit a → words_from (a ++ 32 ∷ t) ≡ (a, (words_from (32 ∷ t)).1)
unfolding words_from
words_from-digits [] t h = refl
words_from-digits (x ∷ a) t (h, hs) = rw (digit_solid x h, words_from-digits a t hs) refl

status_line : ℕ → Text → Text
status_line n reason = codes "HTTP/1.1 " ++ (decimal n ++ 32 ∷ reason)

word_from-ne : (a : Text) (ws : List Text) → a ≢ [] → word_from a ws ≡ a ∷ ws
word_from-ne [] ws h = absurd (h refl)
word_from-ne (x ∷ a) ws h = refl

-- What follows the version and a space.
split-http :
    (x : Text)
    → second (split_whitespace (codes "HTTP/1.1 " ++ x))
      ≡ second (codes "HTTP/1.1" ∷ word_from (words_from x).0 (words_from x).1)
unfolding split_whitespace words_from
split-http x = refl

split-second :
    (n : ℕ) (r : Text)
    → second (split_whitespace (codes "HTTP/1.1 " ++ (decimal n ++ 32 ∷ r)))
      ≡ parse_unsigned 16 (decimal n)
split-second n r =
    split-http (decimal n ++ 32 ∷ r)
    ∙ ap (λ p. second (codes "HTTP/1.1" ∷ word_from p.0 p.1))
        (words_from-digits (decimal n) r (decimal-IsDigit n))
    ∙ ap (λ ws. second (codes "HTTP/1.1" ∷ ws))
        (word_from-ne (decimal n) (words_from (32 ∷ r)).1 (decimal-ne n))

line-Clean :
    (n : ℕ) (reason : Text)
    → contains 10 reason ≡ false
    → contains 10 (status_line n reason ++ 13 ∷ []) ≡ false
unfolding status_line contains
line-Clean n reason h =
    contains-append 10 (status_line n reason) (13 ∷ [])
      (contains-append 10 (decimal n) (32 ∷ reason) (digits-Clean (decimal n) (decimal-IsDigit n)).0
        h)
      refl

status_of-line :
    (n : ℕ) (reason t : Text)
    → n < 2 ^ 16
    → contains 10 reason ≡ false
    → status_of (status_line n reason ++ crlf ++ t) ≡ n
unfolding status_of status_line
status_of-line n reason t small clean =
    ap (λ x. or_502 (second (split_whitespace (first_line x)))) (line_end (status_line n reason) t)
    ∙ ap (λ x. or_502 (second (split_whitespace x)))
        (first_line-cut (status_line n reason ++ 13 ∷ []) t (line-Clean n reason clean))
    ∙ ap (λ x. or_502 (second (split_whitespace (codes "HTTP/1.1 " ++ x))))
        (append_assoc (decimal n) (32 ∷ reason) (13 ∷ []))
    ∙ ap or_502 (split-second n (reason ++ 13 ∷ []) ∙ parse_unsigned-decimal 16 n small)

status_line-IsHeader : (n : ℕ) (reason : Text) → Clean reason → IsHeader (status_line n reason)
unfolding status_line contains
status_line-IsHeader n reason h =
    let d = digits-Clean (decimal n) (decimal-IsDigit n) in
    (
      (
        contains-append 10 (decimal n) (32 ∷ reason) d.0 h.0,
        contains-append 13 (decimal n) (32 ∷ reason) d.1 h.1,
      ),
      refl,
    )

module _ (utf8_error : Text → Option Text) where
  read_answer-small :
      (x : Text)
      → length x ≤ max_response_size
      → read_answer utf8_error x ≡ answer_of utf8_error (cut_head x)
  unfolding read_answer
  read_answer-small x h =
      rw
        (
          take-all (max_response_size + 1) x (omega (arith, h)),
          le→ltb max_response_size (length x) h,
        )
        refl

  answer_of-some :
      (head body : Text)
      → utf8_error head ≡ none
      → answer_of utf8_error (some (head, body)) ≡ ok (status_of head, body)
  answer_of-some head body h = ap (judged (status_of head) body) h

-- An answer as a peer prints it.
unfoldable pub print_answer : ℕ → Text → List Text → Text → Text
unfolding status_line
print_answer n reason headers body = print (status_line n reason ∷ headers) (crlf ++ body)

-- An answer is read as what was sent: for a status of 16 bits, a reason and header lines without
-- line breaks, no header line empty, a head that is UTF-8 and at most 1 MiB in all, the status and
-- the body come out as they were put in, whatever bytes the body has.
pub read_answer-print :
    (utf8_error : Text → Option Text) (n : ℕ) (reason : Text) (headers : List Text) (body : Text)
    → n < 2 ^ 16
    → Clean reason
    → All IsHeader headers
    → utf8_error (print_answer n reason headers []) ≡ none
    → length (print_answer n reason headers body) ≤ max_response_size
    → read_answer utf8_error (print_answer n reason headers body) ≡ ok (n, body)
unfolding print_answer
read_answer-print utf8_error n reason headers body small clean hs utf8 fits =
    read_answer-small utf8_error (print_answer n reason headers body) fits
    ∙ ap (answer_of utf8_error) (
        cut_head-print (status_line n reason) headers body (status_line-IsHeader n reason clean) hs)
    ∙ answer_of-some utf8_error (print_answer n reason headers []) body utf8
    ∙ ap (λ k. ok (k, body)) (status_of-line n reason (print headers crlf) small clean.0)
