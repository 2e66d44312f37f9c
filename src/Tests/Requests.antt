-- ===== src/Tests/Requests.antt =====
-- The theorems on the requests to the object store and to the sidecar, for small requests.
use fullstackhex.Storage.Trim.{trim}
use fullstackhex.Sidecar.Headers.{validate_header_value}
use fullstackhex.Base.{
  arith, ◌≡◌, ◌⊎◌, refl, true, Text, codes, contains, split, map, All, [], ◌∷◌, ◌++◌, none, some,
  ok, to_option, decimal,
}
use fullstackhex.Storage.Keys.{validate_storage_key, user_key}
use fullstackhex.Storage.Config.{StorageConfig}
use fullstackhex.Storage.Sign.{Crypto, Url, presigned_url, or_text}
use fullstackhex.Storage.Sign.Canonical.{SignInput, Lines, canonical_of, canonical_request_binds}
use fullstackhex.Storage.Client.{Wire}
use fullstackhex.Storage.Routes.{PresignRequest, PresignResponse, upload, download, delete, presign}
use fullstackhex.Storage.Routes.Confinement.{Confined, object_routes-Confined, presign_sound}
use fullstackhex.Sidecar.Exchange.{AuthHeaders, check_request, request_text, read_answer}
use fullstackhex.Sidecar.Exchange.Request.{Clean, request_lines, request_text-lines}
use fullstackhex.Sidecar.Exchange.Answer.{print_answer, read_answer-print}

-- A URL is its text, and its path too; the digests are their inputs.
abbrev url_of : Text → Url
url_of t = record { text = t; host = some (codes "s3"); path = t; query = none }

abbrev crypto : Crypto
crypto = record {
  parse_url = λ t. ok (url_of t);
  join_url = λ u t. ok (url_of (u.text ++ t));
  append_pairs = λ u ps. u;
  sha256 = λ t. t;
  hmac = λ k t. ok t;
  show_status = λ n. [];
  escape_xml = λ t. t;
}

abbrev storage : StorageConfig
storage = record {
  endpoint = codes "http://s3";
  public_endpoint = codes "http://s3";
  access_key = codes "ak";
  secret_key = codes "sk";
  bucket = codes "b";
  region = codes "r";
  auto_create_bucket = true;
}

abbrev wire : Wire
wire = record { sent = []; answers = []; amz_date = codes "20260101T000000Z" }

object_routes-Confined_example :
    Confined crypto storage
      (λ t. some t)
      (codes "alice")
      (codes "k")
      wire
      (upload crypto storage (λ t. []) (λ t. some t) (codes "alice") (codes "k") (codes "x") wire).1
    × Confined crypto storage
        (λ t. some t)
        (codes "alice")
        (codes "k")
        wire
        (download crypto storage (λ t. []) (λ t. some t) (codes "alice") (codes "k") wire).1
    × Confined crypto storage
        (λ t. some t)
        (codes "alice")
        (codes "k")
        wire
        (delete crypto storage (λ t. []) (λ t. some t) (codes "alice") (codes "k") wire).1
object_routes-Confined_example =
    object_routes-Confined crypto storage (λ t. []) (λ t. some t) (codes "alice") (codes "k")
      (codes "x") wire

abbrev wanted : PresignRequest
wanted = record { key = codes "k"; method = some (codes "put"); expiry_secs = some 60 }

abbrev url_made : Text
url_made =
    or_text
      (to_option (
        presigned_url crypto storage wire.amz_date (user_key (codes "alice") (codes "k"))
          (codes "PUT") 60))
      []

abbrev presigned : PresignResponse
presigned = record { url = url_made; method = codes "PUT"; expires_in = 60 }

presign_sound_example :
    ((presigned.method ≡ codes "GET") ⊎ (presigned.method ≡ codes "PUT"))
    × (validate_storage_key (λ t. some t) (codes "k") ≡ ok tt)
    × (presigned_url crypto storage wire.amz_date
          (user_key (codes "alice") (codes "k"))
          (codes "PUT")
          60
        ≡ ok presigned.url)
    × (wire ≡ wire)
unfolding presign validate_storage_key contains split presigned_url
presign_sound_example =
    presign_sound crypto storage (λ t. []) (λ t. some t) (codes "alice") wanted wire wire presigned
      refl

abbrev input : SignInput
input = record {
  method = codes "GET";
  uri = codes "/b/k";
  query = [];
  host = codes "s3";
  payload_hash = codes "UNSIGNED-PAYLOAD";
  amz_date = codes "20260101T000000Z";
  content_type = codes "text/plain";
}

abbrev spaced : SignInput
spaced = record input { host = codes " s3" }

input-Lines : Lines input
unfolding contains trim
input-Lines = record {
  method_line = refl;
  uri_line = refl;
  query_line = refl;
  host_line = refl;
  payload_line = refl;
  date_line = refl;
  type_line = refl;
}

spaced-Lines : Lines spaced
unfolding contains trim
spaced-Lines = record {
  method_line = refl;
  uri_line = refl;
  query_line = refl;
  host_line = refl;
  payload_line = refl;
  date_line = refl;
  type_line = refl;
}

canonical_request_binds_example :
    (input.method ≡ spaced.method)
    × (input.uri ≡ spaced.uri)
    × (input.query ≡ spaced.query)
    × (trim input.host ≡ trim spaced.host)
    × (trim input.content_type ≡ trim spaced.content_type)
    × (input.payload_hash ≡ spaced.payload_hash)
unfolding canonical_of trim
canonical_request_binds_example = canonical_request_binds input spaced input-Lines spaced-Lines refl

abbrev headers : AuthHeaders
headers = record {
  user_id = codes "7";
  email = codes "a@b";
  name = codes "Al";
  timestamp = 12;
  signature = codes "ff";
}

request_text-lines_example :
    (split 10 (request_text (codes "/health") (some (codes "id")) (codes "n") (some headers))
      ≡ map
          (λ l. l ++ 13 ∷ [])
          (request_lines (codes "/health") (some (codes "id")) (codes "n") (some headers))
        ++ (13 ∷ []) ∷ [] ∷ [])
    × All Clean (request_lines (codes "/health") (some (codes "id")) (codes "n") (some headers))
unfolding check_request contains validate_header_value
request_text-lines_example =
    request_text-lines (codes "/health") (some (codes "id")) (codes "n") (some headers) (refl, refl)
      refl

read_answer-print_example :
    read_answer (λ t. none) (print_answer 200 (codes "OK") (codes "A: b" ∷ []) (codes "\r\n\r\nhi"))
    ≡ ok (200, codes "\r\n\r\nhi")
unfolding print_answer contains decimal
read_answer-print_example =
    read_answer-print (λ t. none) 200 (codes "OK") (codes "A: b" ∷ []) (codes "\r\n\r\nhi")
      (omega arith) (refl, refl) (((refl, refl), refl), tt) refl (omega arith)
