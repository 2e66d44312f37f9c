-- ===== src/Storage/Sign/Canonical.antt =====
-- backend/storage/src/client.rs: what the text that is signed says about the request.
use fullstackhex.Storage.Trim.{trim}
use fullstackhex.Base.{
  arith, ℕ, ◌≡◌, false, Text, codes, contains, List, [], ◌∷◌, ◌++◌, refl, ap, sym, ◌∙◌,
  append_assoc, All, length, subst,
}
use fullstackhex.Storage.Sign.{
  canonical_request, canonical_headers, signed_headers, signed_header_list,
}

-- The request as far as it is signed.
pub record SignInput : Type 0 where
  pub method : Text
  pub uri : Text
  pub query : Text
  pub host : Text
  pub payload_hash : Text
  pub amz_date : Text
  pub content_type : Text

-- The canonical request that `sign_request_inner` builds.
unfoldable pub canonical_of : SignInput → Text
unfolding canonical_request canonical_headers signed_headers signed_header_list
canonical_of r =
    let headers = signed_header_list r.host r.payload_hash r.amz_date r.content_type in
    canonical_request r.method r.uri r.query (canonical_headers headers) (signed_headers headers)
      r.payload_hash

abbrev OneLine : Text → Type 0
OneLine t = contains b'\n' t ≡ false

-- Its parts are lines: a URL has no line feed in it, nor has a header's value.
pub record Lines (r : SignInput) : Type 0 where
  pub method_line : OneLine r.method
  pub uri_line : OneLine r.uri
  pub query_line : OneLine r.query
  pub host_line : OneLine (trim r.host)
  pub payload_line : OneLine (trim r.payload_hash)
  pub date_line : OneLine (trim r.amz_date)
  pub type_line : OneLine (trim r.content_type)

-- The first line of a text and what follows it.
cut_line :
    (a b r s : Text) → OneLine a → OneLine b → a ++ b'\n' ∷ r ≡ b ++ b'\n' ∷ s → (a ≡ b) × (r ≡ s)
unfolding contains
cut_line [] [] r s h k e = (refl, cc e)
cut_line [] (y ∷ b) r s h k e = let q : b'\n' ≡ y = cc e in absurd (ground arith)
cut_line (x ∷ a) [] r s h k e = let q : x ≡ b'\n' = cc e in absurd (ground arith)
cut_line (x ∷ a) (y ∷ b) r s h k e =
    let q : x ≡ y = cc e in
    let (same, rest) = cut_line a b r s (ground arith) (ground arith) (cc e) in (cc (q, same), rest)

abbrev unlines : List Text → Text → Text
unlines [] rest = rest
unlines (l ∷ ls) rest = l ++ b'\n' ∷ unlines ls rest

unlines-injective :
    (a b : List Text) (r s : Text)
    → length a ≡ length b
    → All OneLine a
    → All OneLine b
    → unlines a r ≡ unlines b s
    → (a ≡ b) × (r ≡ s)
unlines-injective [] [] r s n h k e = (refl, e)
unlines-injective [] (y ∷ b) r s n h k e = absurd (omega (arith, n))
unlines-injective (x ∷ a) [] r s n h k e = absurd (omega (arith, n))
unlines-injective (x ∷ a) (y ∷ b) r s n (h, hs) (k, ks) e =
    let (p, q) = cut_line x y (unlines a r) (unlines b s) h k e in
    let (ps, rest) = unlines-injective a b r s (omega (arith, n)) hs ks q in (cc (p, ps), rest)

-- The lines before the payload hash.
abbrev lines_from : SignInput → Text → List Text
lines_from r names =
    (codes "host:" ++ trim r.host)
    ∷ (codes "x-amz-content-sha256:" ++ trim r.payload_hash)
    ∷ (codes "x-amz-date:" ++ trim r.amz_date)
    ∷ []
    ∷ names
    ∷ []

abbrev header_lines : SignInput → Text → List Text
header_lines r [] = lines_from r (codes "host;x-amz-content-sha256;x-amz-date")
header_lines r (c ∷ cs) =
    (codes "content-type:" ++ trim (c ∷ cs))
    ∷ lines_from r (codes "content-type;host;x-amz-content-sha256;x-amz-date")

abbrev all_lines : SignInput → Text → List Text
all_lines r type = r.method ∷ r.uri ∷ r.query ∷ header_lines r type

canonical_of-lines :
    (r : SignInput) (type : Text)
    → r.content_type ≡ type
    → canonical_of r ≡ unlines (all_lines r type) r.payload_hash
unfolding canonical_of canonical_request canonical_headers signed_headers signed_header_list
canonical_of-lines r [] h = rw h (simp append_assoc refl)
canonical_of-lines r (c ∷ cs) h = rw h (simp append_assoc refl)

lines_from-OneLine :
    (r : SignInput) → Lines r → (names : Text) → OneLine names → All OneLine (lines_from r names)
unfolding contains
lines_from-OneLine r l names h = (l.host_line, (l.payload_line, (l.date_line, (refl, (h, tt)))))

abbrev first_byte : Text → ℕ
first_byte [] = 0
first_byte (c ∷ cs) = c

all_lines-OneLine :
    (r : SignInput) (type : Text) → r.content_type ≡ type → Lines r → All OneLine (all_lines r type)
unfolding contains
all_lines-OneLine r [] h l = (
  l.method_line,
  (
    l.uri_line,
    (l.query_line, lines_from-OneLine r l (codes "host;x-amz-content-sha256;x-amz-date") refl),
  ),
)
all_lines-OneLine r (c ∷ cs) h l = (
  l.method_line,
  (
    l.uri_line,
    (
      l.query_line,
      (
        subst (λ t. OneLine (trim t)) h l.type_line,
        lines_from-OneLine r l (codes "content-type;host;x-amz-content-sha256;x-amz-date") refl,
      ),
    ),
  ),
)

-- The request line and the header lines, cut from one another.
start-injective :
    (r q : SignInput) (a b : List Text)
    → Lines r
    → Lines q
    → unlines (r.method ∷ r.uri ∷ r.query ∷ a) r.payload_hash
      ≡ unlines (q.method ∷ q.uri ∷ q.query ∷ b) q.payload_hash
    → (r.method ≡ q.method)
      × (r.uri ≡ q.uri)
      × (r.query ≡ q.query)
      × (unlines a r.payload_hash ≡ unlines b q.payload_hash)
start-injective r q a b l k e =
    let (m, e1) = cut_line r.method q.method _ _ l.method_line k.method_line e in
    let (u, e2) = cut_line r.uri q.uri _ _ l.uri_line k.uri_line e1 in
    let (v, e3) = cut_line r.query q.query _ _ l.query_line k.query_line e2 in (m, u, v, e3)

abbrev SameRequest : SignInput → SignInput → Type 0
SameRequest r q =
    (r.method ≡ q.method)
    × (r.uri ≡ q.uri)
    × (r.query ≡ q.query)
    × (trim r.host ≡ trim q.host)
    × (trim r.content_type ≡ trim q.content_type)
    × (r.payload_hash ≡ q.payload_hash)

binds_typed :
    (r q : SignInput) (t w : Text)
    → r.content_type ≡ t
    → q.content_type ≡ w
    → Lines r
    → Lines q
    → unlines (all_lines r t) r.payload_hash ≡ unlines (all_lines q w) q.payload_hash
    → SameRequest r q
binds_typed r q [] [] h k l m e =
    let (same, payload) =
      unlines-injective (all_lines r []) (all_lines q []) r.payload_hash q.payload_hash refl
        (all_lines-OneLine r [] h l) (all_lines-OneLine q [] k m) e in
    (cc same, cc same, cc same, cc same, ap trim (h ∙ sym k), payload)
binds_typed r q [] (c ∷ cs) h k l m e =
    let (a, b, d, f) = start-injective r q (header_lines r []) (header_lines q (c ∷ cs)) l m e in
    let g : b'h' ≡ b'c' = ap first_byte f in absurd (omega (arith, g))
binds_typed r q (c ∷ cs) [] h k l m e =
    let (a, b, d, f) = start-injective r q (header_lines r (c ∷ cs)) (header_lines q []) l m e in
    let g : b'c' ≡ b'h' = ap first_byte f in absurd (omega (arith, g))
binds_typed r q (c ∷ cs) (d ∷ ds) h k l m e =
    let (same, payload) =
      unlines-injective (all_lines r (c ∷ cs)) (all_lines q (d ∷ ds)) r.payload_hash q.payload_hash
        refl (all_lines-OneLine r (c ∷ cs) h l) (all_lines-OneLine q (d ∷ ds) k m) e in
    (cc same, cc same, cc same, cc same, ap trim h ∙ cc same ∙ sym (ap trim k), payload)

-- The text that a signature covers binds the request: two requests whose parts are lines and whose
-- canonical requests are the same have the same method, path, query and payload hash, and the same
-- host and content type up to surrounding white space, whether a content type is sent or not.
pub canonical_request_binds :
    (r q : SignInput)
    → Lines r
    → Lines q
    → canonical_of r ≡ canonical_of q
    → (r.method ≡ q.method)
      × (r.uri ≡ q.uri)
      × (r.query ≡ q.query)
      × (trim r.host ≡ trim q.host)
      × (trim r.content_type ≡ trim q.content_type)
      × (r.payload_hash ≡ q.payload_hash)
canonical_request_binds r q l m e =
    binds_typed r q r.content_type q.content_type refl refl l m (
      sym (canonical_of-lines r r.content_type refl) ∙ e ∙ canonical_of-lines q q.content_type refl)
