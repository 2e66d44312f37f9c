-- ===== src/Sidecar/Exchange/Request.antt =====
-- backend/py-sidecar/src/lib.rs: the lines of the request that is written.
use fullstackhex.Base.{
  arith, ℕ, ◌≡◌, false, Text, codes, contains, split, decimal, decimal-IsDigit, IsDigit, List, [],
  ◌∷◌, ◌++◌, append_assoc, map, All, All-append, Option, none, some, Result, ok, err, refl, ap, sym,
  ◌∙◌, inl, inr, ◌==◌, Bool-cases, ◌>>◌,
}
use fullstackhex.Sidecar.Errors.{SidecarError}
use fullstackhex.Sidecar.Headers.{validate_header_value, validate_header_value_iff}
use fullstackhex.Sidecar.Exchange.{
  AuthHeaders, check_request, check_auth, check_trace, request_text, trace_text, auth_text, crlf,
}

-- No carriage return and no line feed.
abbrev pub Clean : Text → Type 0
Clean t = (contains 10 t ≡ false) × (contains 13 t ≡ false)

pub contains-append :
    (c : ℕ) (a b : Text) → contains c a ≡ false → contains c b ≡ false → contains c (a ++ b) ≡ false
unfolding contains
contains-append c [] b h k = k
contains-append c (x ∷ a) b h k = ground (arith, contains-append c a b (ground arith) k)

Clean-append : (a b : Text) → Clean a → Clean b → Clean (a ++ b)
Clean-append a b (h, k) (m, n) = (contains-append 10 a b h m, contains-append 13 a b k n)

pub digits-Clean : (t : Text) → All IsDigit t → Clean t
unfolding contains
digits-Clean [] h = (refl, refl)
digits-Clean (c ∷ t) (h, hs) =
    let (a, b) = digits-Clean t hs in (ground (arith, a, h.0), ground (arith, b, h.0))

-- A header, and the lines of the request.
abbrev header : Text → Text → Text
header name value = name ++ value

abbrev pub trace_lines : Option Text → List Text
trace_lines none = []
trace_lines (some id) = (codes "x-trace-id: " ++ id) ∷ []

abbrev pub auth_lines : Text → Option AuthHeaders → List Text
auth_lines nonce none = []
auth_lines nonce (some a) =
    (codes "X-User-Id: " ++ a.user_id)
    ∷ (codes "X-User-Email: " ++ a.email)
    ∷ (codes "X-User-Name: " ++ a.name)
    ∷ (codes "X-Timestamp: " ++ decimal a.timestamp)
    ∷ (codes "X-Nonce: " ++ nonce)
    ∷ (codes "X-Auth-Signature: " ++ a.signature)
    ∷ []

abbrev pub request_lines : Text → Option Text → Text → Option AuthHeaders → List Text
request_lines path trace_id nonce auth =
    (codes "GET " ++ (path ++ codes " HTTP/1.1"))
    ∷ codes "Host: localhost"
    ∷ codes "Connection: close"
    ∷ (trace_lines trace_id ++ auth_lines nonce auth)

abbrev pub print : List Text → Text → Text
print [] rest = rest
print (l ∷ ls) rest = l ++ crlf ++ print ls rest

print-append : (a b : List Text) (rest : Text) → print (a ++ b) rest ≡ print a (print b rest)
print-append [] b rest = refl
print-append (l ∷ a) b rest = ap (λ t. l ++ crlf ++ t) (print-append a b rest)

trace_text-print :
    (trace_id : Option Text) (rest : Text)
    → trace_text trace_id ++ rest ≡ print (trace_lines trace_id) rest
trace_text-print none rest = refl
trace_text-print (some id) rest = simp append_assoc refl

auth_text-print :
    (nonce : Text) (auth : Option AuthHeaders) (rest : Text)
    → auth_text nonce auth ++ rest ≡ print (auth_lines nonce auth) rest
auth_text-print nonce none rest = refl
auth_text-print nonce (some a) rest = simp append_assoc refl

request_text-print :
    (path : Text) (trace_id : Option Text) (nonce : Text) (auth : Option AuthHeaders)
    → request_text path trace_id nonce auth ≡ print (request_lines path trace_id nonce auth) crlf
unfolding request_text
request_text-print path trace_id nonce auth =
    rw
      (
        auth_text-print nonce auth crlf,
        trace_text-print trace_id (print (auth_lines nonce auth) crlf),
        print-append (trace_lines trace_id) (auth_lines nonce auth) crlf,
      )
      (simp append_assoc refl)

-- A line read off the front.
split-line : (a rest : Text) → contains 10 a ≡ false → split 10 (a ++ 10 ∷ rest) ≡ a ∷ split 10 rest
unfolding split contains
split-line [] rest h = refl
split-line (x ∷ a) rest h = elim (Bool-cases (x == 10)) [
  | inl e ↦ absurd (cc (rw e at h))
  | inr e ↦ rw (e, split-line a rest (ground (arith, h))) refl
]

pub line_end : (l rest : Text) → l ++ crlf ++ rest ≡ (l ++ 13 ∷ []) ++ 10 ∷ rest
line_end l rest = append_assoc l crlf rest ∙ sym (append_assoc l (13 ∷ []) (10 ∷ rest))

split-print :
    (ls : List Text) (rest : Text)
    → All Clean ls
    → split 10 (print ls rest) ≡ map (λ l. l ++ 13 ∷ []) ls ++ split 10 rest
unfolding contains
split-print [] rest h = refl
split-print (l ∷ ls) rest (h, hs) =
    ap (split 10) (line_end l (print ls rest))
    ∙ split-line (l ++ 13 ∷ []) (print ls rest) (contains-append 10 l (13 ∷ []) h.0 refl)
    ∙ ap (λ x. (l ++ 13 ∷ []) ∷ x) (split-print ls rest hs)

-- What the checks accept is clean.
accepted-Clean : (name value : Text) → validate_header_value name value ≡ ok tt → Clean value
accepted-Clean name value h = let (a, b, c) = (validate_header_value_iff name value).0 h in (b, a)

trace_lines-Clean :
    (trace_id : Option Text) → check_trace trace_id ≡ ok tt → All Clean (trace_lines trace_id)
unfolding contains
trace_lines-Clean none h = tt
trace_lines-Clean (some id) h =
    (Clean-append (codes "x-trace-id: ") id (refl, refl) (accepted-Clean _ id h), tt)

both_ok : (m k : Result SidecarError (Unit {0})) → (m >> k) ≡ ok tt → (m ≡ ok tt) × (k ≡ ok tt)
both_ok (ok u) k h = (refl, h)
both_ok (err e) k h = absurd (cc h)

auth_lines-Clean :
    (nonce : Text) (auth : Option AuthHeaders)
    → Clean nonce
    → check_auth auth ≡ ok tt
    → All Clean (auth_lines nonce auth)
unfolding contains
auth_lines-Clean nonce none n h = tt
auth_lines-Clean nonce (some a) n h =
    let (user, h1) = both_ok (validate_header_value (codes "X-User-Id") a.user_id) _ h in
    let (email, h2) = both_ok (validate_header_value (codes "X-User-Email") a.email) _ h1 in
    let (name, sign) = both_ok (validate_header_value (codes "X-User-Name") a.name) _ h2 in
    (
      accepted-Clean _ a.user_id user,
      (
        accepted-Clean _ a.email email,
        (
          accepted-Clean _ a.name name,
          (
            digits-Clean (decimal a.timestamp) (decimal-IsDigit a.timestamp),
            (n, (accepted-Clean _ a.signature sign, tt)),
          ),
        ),
      ),
    )

request_lines-Clean :
    (path : Text) (trace_id : Option Text) (nonce : Text) (auth : Option AuthHeaders)
    → Clean nonce
    → check_request path trace_id auth ≡ ok tt
    → All Clean (request_lines path trace_id nonce auth)
unfolding check_request contains
request_lines-Clean path trace_id nonce auth n h =
    let (p, h1) = both_ok (validate_header_value (codes "path") path) _ h in
    let (t, a) = both_ok (check_trace trace_id) (check_auth auth) h1 in
    (
      Clean-append path (codes " HTTP/1.1") (accepted-Clean _ path p) (refl, refl),
      (
        (refl, refl),
        (
          (refl, refl),
          All-append Clean (trace_lines trace_id) (auth_lines nonce auth)
              (trace_lines-Clean trace_id t) (auth_lines-Clean nonce auth n a),
        ),
      ),
    )

-- No value can add a line to a request that passes the checks: cut at its line feeds, the request is
-- the request line, the fixed headers, the trace header and the six user headers that were asked
-- for, each ended by a carriage return and with no other one inside, then the blank line, and
-- nothing after it. The nonce is taken to have no line break.
pub request_text-lines :
    (path : Text) (trace_id : Option Text) (nonce : Text) (auth : Option AuthHeaders)
    → Clean nonce
    → check_request path trace_id auth ≡ ok tt
    → (split 10 (request_text path trace_id nonce auth)
        ≡ map (λ l. l ++ 13 ∷ []) (request_lines path trace_id nonce auth) ++ (13 ∷ []) ∷ [] ∷ [])
      × All Clean (request_lines path trace_id nonce auth)
unfolding split
request_text-lines path trace_id nonce auth n h =
    let clean = request_lines-Clean path trace_id nonce auth n h in
    (
      ap (split 10) (request_text-print path trace_id nonce auth)
          ∙ split-print (request_lines path trace_id nonce auth) crlf clean,
      clean,
    )
