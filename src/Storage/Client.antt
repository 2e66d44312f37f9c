-- ===== src/Storage/Client.antt =====
-- The object operations of backend/storage/src/client.rs, with the bucket operations of
-- backend/storage/src/lib.rs. What is sent is recorded; the server's answers to come are a list.
-- A body that the source streams is the text that it comes to.
use fullstackhex.Base.{
  ℕ, zero, suc, ◌*◌, Bool, true, false, not, ◌&&◌, Text, codes, decimal, length, List, [], ◌∷◌,
  ◌++◌, Option, none, some, ltb, leb, ◌==◌, if◌then◌else◌, Result, ok, err, fail_if, map_err,
  starts_with, drop, parse_unsigned, cons_head,
}
use fullstackhex.Base.Exec.{Exec, pure, lift, ◌>>=◌, ◌>>◌}
use fullstackhex.Domain.Errors.{
  ApiError, internal_error, service_unavailable, not_found, validation_error,
}
use fullstackhex.Storage.Config.{StorageConfig}
use fullstackhex.Storage.Sign.{
  Crypto, Url, SignedRequest, build_object_url, sign_request, sign_request_unsigned,
}

pub record HttpRequest : Type 0 where
  pub method : Text
  pub url : Text
  pub signed : SignedRequest
  pub content_type : Option Text
  pub body : Text

-- Headers are those that `to_str` gives; reading the body may fail.
pub record HttpResponse : Type 0 where
  pub status : ℕ
  pub content_type : Option Text
  pub content_length : Option Text
  pub etag : Option Text
  pub body : Result Text Text

-- The requests sent, latest first; the answers to come, an error where the list ends; the clock as
-- `%Y%m%dT%H%M%SZ` prints it.
pub record Wire : Type 0 where
  pub sent : List HttpRequest
  pub answers : List (Result Text HttpResponse)
  pub amz_date : Text

abbrev pub WireM : Type 0 → Type 0
WireM A = Exec Wire ApiError A

abbrev unreachable : {A : Type 0} → Text → Result Text A → Result ApiError A
unreachable context r = map_err (λ e. service_unavailable (context ++ e)) r

-- `.send().await.map_err(|e| ServiceUnavailable(format!("{context}{e}")))`
abbrev pub send : Text → HttpRequest → WireM HttpResponse
send context request s = elim s.answers [
  | [] ↦ (unreachable context (err (codes "no answer")), record s { sent = request ∷ s.sent })
  | a ∷ rest ↦ (unreachable context a, record s { sent = request ∷ s.sent; answers = rest })
]

abbrev pub is_success : HttpResponse → Bool
is_success r = leb 200 r.status && ltb r.status 300

-- `resp.text().await.unwrap_or_default()`
abbrev pub text_or_default : Result Text Text → Text
text_or_default (ok t) = t
text_or_default (err e) = []

abbrev pub read_body : Result Text Text → Result ApiError Text
read_body r = map_err (λ e. internal_error (codes "Failed to read response: " ++ e)) r

abbrev pub max_download_size : ℕ
max_download_size = 100 * 1024 * 1024

abbrev pub max_streaming_size : ℕ
max_streaming_size = 500 * 1024 * 1024

-- The pieces between the occurrences of a text; a match found leaves the rest of it to skip.
split_from : Text → ℕ → Text → List Text
split_from pattern_ k [] = [] ∷ []
split_from pattern_ (suc k) (x ∷ xs) = split_from pattern_ k xs
split_from pattern_ zero (x ∷ xs) = elim (starts_with pattern_ (x ∷ xs)) [
  | true ↦ [] ∷ split_from pattern_ (length (drop 1 pattern_)) xs
  | false ↦ cons_head x (split_from pattern_ zero xs)
]

-- `s.split(pattern)` for a text that is not empty.
unfoldable pub split_text : Text → Text → List Text
unfolding split_from
split_text pattern_ s = split_from pattern_ zero s

abbrev pub head_of : List Text → Text
head_of [] = []
head_of (t ∷ ts) = t

-- The keys of a listing: what follows each "<Key>" up to the next "</Key>".
unfoldable pub list_keys : Text → List Text
unfolding split_text
list_keys body = key_list (drop 1 (split_text (codes "<Key>") body))
  where
    key_list : List Text → List Text
    key_list [] = []
    key_list (cap ∷ caps) = head_of (split_text (codes "</Key>") cap) ∷ key_list caps

module _ (lib : Crypto) (c : StorageConfig) where
  abbrev pub http_status : HttpResponse → Text
  http_status r = codes "HTTP " ++ lib.show_status r.status

  abbrev pub object_url : Text → WireM Url
  object_url key = lift (build_object_url lib c.endpoint c.bucket key)

  -- `sign_request` and `sign_request_unsigned` at the time of the call.
  abbrev pub signed : Text → Text → Text → Text → WireM SignedRequest
  signed method url content_type body s =
      (sign_request lib c s.amz_date method url content_type body, s)

  abbrev pub signed_unsigned : Text → Text → Text → WireM SignedRequest
  signed_unsigned method url content_type s =
      (sign_request_unsigned lib c s.amz_date method url content_type, s)

  abbrev pub request : Text → Text → SignedRequest → Option Text → Text → HttpRequest
  request method url s content_type body = record {
    method = method;
    url = url;
    signed = s;
    content_type = content_type;
    body = body;
  }

  unfoldable pub upload : Text → Text → Text → WireM (Unit {0})
  upload key body content_type = do
    url ← object_url key
    s ← signed (codes "PUT") url.text content_type body
    resp ←
        send (codes "Upload failed: ") (request (codes "PUT") url.text s (some content_type) body)
    lift (
        fail_if (not (is_success resp))
          (service_unavailable (codes "Upload failed: " ++ http_status resp)))

  unfoldable pub upload_streaming : Text → Text → Text → WireM (Unit {0})
  upload_streaming key content_type body = do
    url ← object_url key
    s ← signed_unsigned (codes "PUT") url.text content_type
    resp ←
        send (codes "Upload failed: ") (request (codes "PUT") url.text s (some content_type) body)
    lift (
        fail_if (not (is_success resp)) (
          service_unavailable (
            codes "Upload failed: "
            ++ (http_status resp ++ (codes ": " ++ text_or_default resp.body)))))

  abbrev pub missing : Text → ApiError
  missing key = not_found (codes "Object not found: " ++ key)

  unfoldable pub download : Text → WireM Text
  download key = do
    url ← object_url key
    s ← signed (codes "GET") url.text [] []
    resp ← send (codes "Download failed: ") (request (codes "GET") url.text s none [])
    lift (fail_if (not (is_success resp)) (missing key))
    bytes ← lift (read_body resp.body)
    lift (
        fail_if (ltb max_download_size (length bytes))
          (internal_error (codes "Download exceeds maximum size (100 MB)")))
    pure bytes

  abbrev pub announced : Option Text → Option ℕ
  announced none = none
  announced (some v) = parse_unsigned 64 v

  abbrev pub check_length : Text → Option ℕ → Result ApiError (Unit {0})
  check_length key none = ok tt
  check_length key (some len) = fail_if (ltb max_streaming_size len) (
      validation_error (
        codes "Object too large for streaming download: "
        ++ (key ++ (codes " (" ++ (decimal len ++ codes " bytes, max 500MB)")))))

  unfoldable pub download_streaming : Text → WireM HttpResponse
  download_streaming key = do
    url ← object_url key
    s ← signed_unsigned (codes "GET") url.text []
    resp ← send (codes "Download failed: ") (request (codes "GET") url.text s none [])
    lift (fail_if (not (is_success resp)) (missing key))
    lift (check_length key (announced resp.content_length))
    pure resp

  unfoldable pub delete : Text → WireM (Unit {0})
  delete key = do
    url ← object_url key
    s ← signed (codes "DELETE") url.text [] []
    resp ← send (codes "Delete failed: ") (request (codes "DELETE") url.text s none [])
    lift (
        fail_if (not (is_success resp) && not (resp.status == 204))
          (service_unavailable (codes "Delete failed: " ++ http_status resp)))

  -- The status of the answer is not looked at.
  unfoldable pub list : Text → WireM (List Text)
  unfolding list_keys
  list prefix = do
    base ← object_url []
    let url = lib.append_pairs base ((codes "list-type", codes "2") ∷ (codes "prefix", prefix) ∷ [])
    s ← signed (codes "GET") url.text [] []
    resp ← send (codes "List failed: ") (request (codes "GET") url.text s none [])
    body ← lift (read_body resp.body)
    pure (list_keys body)

  -- `{endpoint}/{bucket}` of the bucket operations.
  abbrev bucket_url : Text
  bucket_url = c.endpoint ++ b'/' ∷ c.bucket

  unfoldable pub bucket_exists : WireM Bool
  bucket_exists = do
    s ← signed (codes "HEAD") bucket_url [] []
    resp ← send (codes "Storage unreachable: ") (request (codes "HEAD") bucket_url s none [])
    pure (is_success resp)

  create_bucket : WireM (Unit {0})
  create_bucket = do
    s ← signed (codes "PUT") bucket_url [] []
    resp ← send (codes "Failed to create bucket: ") (request (codes "PUT") bucket_url s none [])
    lift (
        fail_if (not (is_success resp))
          (service_unavailable (codes "Failed to create bucket: " ++ http_status resp)))

  unless_exists : Bool → WireM (Unit {0})
  unfolding create_bucket
  unless_exists true = pure tt
  unless_exists false = create_bucket

  unfoldable pub ensure_bucket : WireM (Unit {0})
  unfolding bucket_exists unless_exists
  ensure_bucket = if c.auto_create_bucket then (bucket_exists >>= λ e. unless_exists e) else pure tt
