-- ===== src/Storage/Sign.antt =====
-- The signing of backend/storage/src/client.rs: AWS Signature Version 4 for requests and for
-- presigned URLs. URL parsing, SHA-256, HMAC and the formatted time are parameters.
pub mod Canonical
use fullstackhex.Storage.Trim.{trim}
use fullstackhex.Base.{
  ℕ, zero, suc, ◌+◌, ◌/◌, ◌%◌, Bool, true, false, ◌||◌, ◌&&◌, Text, codes, decimal, to_lower,
  is_empty, take, map, List, [], ◌∷◌, ◌++◌, Option, none, some, ltb, ◌==◌, if◌then◌else◌, Result,
  ok, err, map_err, ◌>>=◌,
}
use fullstackhex.Domain.Errors.{ApiError, internal_error}
use fullstackhex.Storage.Config.{StorageConfig}

-- `url::Url`: its text and the parts that are read of it.
pub record Url : Type 0 where
  pub text : Text
  pub host : Option Text
  pub path : Text
  pub query : Option Text

pub record Crypto : Type 0 where
  pub parse_url : Text → Result Text Url
  -- `Url::join`, and `query_pairs_mut().append_pair` for a list of pairs.
  pub join_url : Url → Text → Result Text Url
  pub append_pairs : Url → List (Text × Text) → Url
  pub sha256 : Text → Text
  pub hmac : Text → Text → Result Text Text
  -- A status as `StatusCode` prints it, and the escaping of a text for XML.
  pub show_status : ℕ → Text
  pub escape_xml : Text → Text

pub record SignedRequest : Type 0 where
  pub host : Text
  pub amz_date : Text
  pub payload_hash : Text
  pub authorization : Text

-- `{:02x}` of each byte
abbrev hex_digit : ℕ → ℕ
hex_digit n = if ltb n 10 then 48 + n else 87 + n

unfoldable pub hex : Text → Text
hex [] = []
hex (b ∷ bs) = hex_digit (b / 16) ∷ hex_digit (b % 16) ∷ hex bs

abbrev pub or_text : Option Text → Text → Text
or_text none d = d
or_text (some t) d = t

-- `.join(sep)`
unfoldable pub join : Text → List Text → Text
join sep [] = []
join sep (t ∷ []) = t
join sep (t ∷ u ∷ ts) = t ++ (sep ++ join sep (u ∷ ts))

-- `a <= b` of `str`.
text_le : Text → Text → Bool
text_le [] b = true
text_le (x ∷ xs) [] = false
text_le (x ∷ xs) (y ∷ ys) = ltb x y || (x == y && text_le xs ys)

abbrev Header : Type 0
Header = Text × Text

insert_header : Header → List Header → List Header
unfolding text_le
insert_header h [] = h ∷ []
insert_header h (k ∷ ks) =
    let rest = insert_header h ks in if text_le h.0 k.0 then h ∷ k ∷ ks else k ∷ rest

-- `sort_by` on the names.
unfoldable pub sort_headers : List Header → List Header
unfolding insert_header
sort_headers [] = []
sort_headers (h ∷ hs) = insert_header h (sort_headers hs)

abbrev lower : Text → Text
lower t = map to_lower t

abbrev content_type_header : Text → List Header
content_type_header content_type =
    if is_empty content_type then [] else (codes "content-type", content_type) ∷ []

-- The headers that are signed.
unfoldable pub signed_header_list : Text → Text → Text → Text → List Header
unfolding sort_headers
signed_header_list host payload_hash amz_date content_type = sort_headers (
    (codes "host", host)
    ∷ (codes "x-amz-content-sha256", payload_hash)
    ∷ (codes "x-amz-date", amz_date)
    ∷ content_type_header content_type)

unfoldable pub canonical_headers : List Header → Text
unfolding join
canonical_headers headers =
    join (codes "\n") (map (λ h. lower h.0 ++ b':' ∷ trim h.1) headers) ++ codes "\n"

unfoldable pub signed_headers : List Header → Text
unfolding join
signed_headers headers = join (codes ";") (map (λ h. lower h.0) headers)

unfoldable pub canonical_request : Text → Text → Text → Text → Text → Text → Text
canonical_request method uri query headers names payload_hash =
    method
    ++ b'\n'
      ∷ (uri ++ b'\n' ∷ (query ++ b'\n' ∷ (headers ++ b'\n' ∷ (names ++ b'\n' ∷ payload_hash))))

abbrev algorithm : Text
algorithm = codes "AWS4-HMAC-SHA256"

-- `&amz_date[..8]` in the scope.
unfoldable pub credential_scope : StorageConfig → Text → Text
credential_scope c amz_date = take 8 amz_date ++ b'/' ∷ (c.region ++ codes "/s3/aws4_request")

module _ (lib : Crypto) where
  abbrev sha256_hex : Text → Text
  sha256_hex data_ = hex (lib.sha256 data_)

  unfoldable pub hmac_sha256 : Text → Text → Result ApiError Text
  hmac_sha256 key text =
      map_err (λ e. internal_error (codes "HMAC key error: " ++ e)) (lib.hmac key text)

  unfoldable pub string_to_sign : Text → Text → Text → Text
  unfolding hex
  string_to_sign amz_date scope request =
      algorithm ++ b'\n' ∷ (amz_date ++ b'\n' ∷ (scope ++ b'\n' ∷ sha256_hex request))

  -- The key chain and the signature of a text.
  unfoldable pub signature : StorageConfig → Text → Text → Result ApiError Text
  unfolding hmac_sha256 hex
  signature c amz_date text = do
    k_date ← hmac_sha256 (codes "AWS4" ++ c.secret_key) (take 8 amz_date)
    k_region ← hmac_sha256 k_date c.region
    k_service ← hmac_sha256 k_region (codes "s3")
    k_signing ← hmac_sha256 k_service (codes "aws4_request")
    signed ← hmac_sha256 k_signing text
    ok (hex signed)

  abbrev pub invalid_url : {A : Type 0} → Result Text A → Result ApiError A
  invalid_url r = map_err (λ e. internal_error (codes "Invalid URL: " ++ e)) r

  unfoldable pub sign_request_inner :
      StorageConfig → Text → Text → Text → Text → Text → Result ApiError SignedRequest
  unfolding signed_header_list canonical_headers signed_headers canonical_request credential_scope
      string_to_sign signature
  sign_request_inner c amz_date method url content_type payload_hash = do
    parsed ← invalid_url (lib.parse_url url)
    let host = or_text parsed.host (codes "localhost")
    let headers = signed_header_list host payload_hash amz_date content_type
    let request =
        canonical_request method parsed.path (or_text parsed.query []) (canonical_headers headers)
          (signed_headers headers) payload_hash
    let scope = credential_scope c amz_date
    mac ← signature c amz_date (string_to_sign amz_date scope request)
    ok (record {
      host = host;
      amz_date = amz_date;
      payload_hash = payload_hash;
      authorization =
          algorithm
          ++ (codes " Credential="
              ++ (c.access_key
                  ++ b'/'
                    ∷ (scope
                        ++ (codes ", SignedHeaders="
                            ++ (signed_headers headers ++ (codes ", Signature=" ++ mac))))));
    })

  abbrev pub unsigned_payload : Text
  unsigned_payload = codes "UNSIGNED-PAYLOAD"

  unfoldable pub sign_request_unsigned :
      StorageConfig → Text → Text → Text → Text → Result ApiError SignedRequest
  unfolding sign_request_inner
  sign_request_unsigned c amz_date method url content_type =
      sign_request_inner c amz_date method url content_type unsigned_payload

  unfoldable pub sign_request :
      StorageConfig → Text → Text → Text → Text → Text → Result ApiError SignedRequest
  unfolding sign_request_inner hex
  sign_request c amz_date method url content_type body =
      sign_request_inner c amz_date method url content_type (sha256_hex body)

  -- A safe object URL from the endpoint, the bucket and the key.
  abbrev object_path : Text → Text → Text
  object_path bucket key = b'/' ∷ (bucket ++ b'/' ∷ key)

  unfoldable pub build_object_url : Text → Text → Text → Result ApiError Url
  build_object_url endpoint bucket key = do
    base ← invalid_url (lib.parse_url endpoint)
    invalid_url (lib.join_url base (object_path bucket key))

  -- `replace('/', "%2F")`
  replace_slash : Text → Text
  replace_slash [] = []
  replace_slash (c ∷ cs) =
      let rest = replace_slash cs in if c == b'/' then codes "%2F" ++ rest else c ∷ rest

  -- The query parameters, in their sorted order.
  unfoldable pub presign_query : StorageConfig → Text → ℕ → Text
  unfolding replace_slash credential_scope join
  presign_query c amz_date expires = join (codes "&") (
      (codes "X-Amz-Algorithm=" ++ algorithm)
      ∷ (codes "X-Amz-Credential="
          ++ replace_slash (c.access_key ++ b'/' ∷ credential_scope c amz_date))
      ∷ (codes "X-Amz-Date=" ++ amz_date)
      ∷ (codes "X-Amz-Expires=" ++ decimal expires)
      ∷ codes "X-Amz-SignedHeaders=host"
      ∷ [])

  unfoldable pub presigned_url : StorageConfig → Text → Text → Text → ℕ → Result ApiError Text
  unfolding build_object_url presign_query canonical_request string_to_sign signature
      credential_scope
  presigned_url c amz_date key method expires = do
    url ← build_object_url c.public_endpoint c.bucket key
    let host = or_text url.host (codes "localhost")
    let query = presign_query c amz_date expires
    let request =
        canonical_request method url.path query (codes "host:" ++ (lower host ++ codes "\n"))
          (codes "host") unsigned_payload
    mac ← signature c amz_date (string_to_sign amz_date (credential_scope c amz_date) request)
    ok (url.text ++ b'?' ∷ (query ++ (codes "&X-Amz-Signature=" ++ mac)))
