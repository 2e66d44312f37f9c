-- ===== src/Storage/Routes.antt =====
-- The handlers of backend/storage/src/routes.rs. The extracted user, path, query and body are
-- arguments; of an answer the status and what the handler puts into it are kept.
pub mod Confinement
use fullstackhex.Base.{
  ℕ, Bool, true, false, not, ◌||◌, Text, codes, text_eq, to_lower, map, leb, ◌&&◌, ◌-◌, List, [],
  ◌∷◌, ◌++◌, Option, none, some, if◌then◌else◌, Result, ok, err, fail_if,
}
use fullstackhex.Base.Exec.{pure, lift, ◌>>=◌, ◌>>◌}
use fullstackhex.Domain.Errors.{ApiError, validation_error}
use fullstackhex.Storage.Keys.{validate_storage_key, user_key}
use fullstackhex.Storage.Config.{StorageConfig}
use fullstackhex.Storage.Sign.{Crypto, presigned_url, or_text}
use fullstackhex.Storage.Client.{HttpResponse, Wire, WireM}
use fullstackhex.Storage.Client
use fullstackhex.Storage.Multipart.{MultipartUpload, PartInfo, XmlEvent}
use fullstackhex.Storage.Multipart

pub record PresignRequest : Type 0 where
  pub key : Text
  pub method : Option Text
  pub expiry_secs : Option ℕ

pub record PresignResponse : Type 0 where
  pub url : Text
  pub method : Text
  pub expires_in : ℕ

-- `char::to_ascii_uppercase`
abbrev to_upper : ℕ → ℕ
to_upper c = if leb 97 c && leb c 122 then c - 32 else c

abbrev pub or_else : Option ℕ → ℕ → ℕ
or_else none n = n
or_else (some m) n = m

unfoldable pub presign_method : Option Text → Text
presign_method none = codes "GET"
presign_method (some m) = map to_upper m

unfoldable pub check_method : Text → Result ApiError (Unit {0})
check_method method =
    fail_if (not (text_eq method (codes "GET")) && not (text_eq method (codes "PUT")))
      (validation_error (codes "method must be GET or PUT"))

module _ (lib : Crypto) (c : StorageConfig) (xml_events : Text → List XmlEvent)
    (decode : Text → Option Text) where
  abbrev pub validated : Text → WireM (Unit {0})
  validated key = lift (validate_storage_key decode key)

  unfoldable pub upload : Text → Text → Text → WireM ℕ
  upload user_id key body = do
    validated key
    Client.upload_streaming lib c (user_key user_id key) (codes "application/octet-stream") body
    pure 201

  -- The content type of the answer, with the object's response that is streamed on.
  unfoldable pub download : Text → Text → WireM (Text × HttpResponse)
  download user_id key = do
    validated key
    resp ← Client.download_streaming lib c (user_key user_id key)
    pure (or_text resp.content_type (codes "application/octet-stream"), resp)

  unfoldable pub delete : Text → Text → WireM ℕ
  delete user_id key = do validated key; Client.delete lib c (user_key user_id key); pure 204

  unfoldable pub list_prefix : Text → Option Text → Text
  list_prefix user_id none = codes "users/" ++ (user_id ++ codes "/")
  list_prefix user_id (some prefix) = user_key user_id prefix

  unfoldable pub list : Text → Option Text → WireM (List Text)
  unfolding list_prefix
  list user_id prefix = Client.list lib c (list_prefix user_id prefix)

  abbrev url_at : Text → Text → ℕ → WireM Text
  url_at key method expires s = (presigned_url lib c s.amz_date key method expires, s)

  unfoldable pub presign : Text → PresignRequest → WireM PresignResponse
  unfolding presign_method check_method
  presign user_id body = do
    let method = presign_method body.method
    lift (check_method method)
    let expiry_secs = or_else body.expiry_secs 3600
    validated body.key
    url ← url_at (user_key user_id body.key) method expiry_secs
    pure (record { url = url; method = method; expires_in = expiry_secs })

  unfoldable pub init_multipart : Text → Text → Option Text → WireM MultipartUpload
  init_multipart user_id key content_type = do
    validated key
    Multipart.create_multipart_upload lib c xml_events (user_key user_id key)
        (or_text content_type (codes "application/octet-stream"))

  -- The key of the routes below is not validated.
  unfoldable pub upload_part : Text → Text → Text → ℕ → Text → WireM PartInfo
  upload_part user_id key upload_id part_number body =
      Multipart.upload_part_streaming lib c xml_events (user_key user_id key) upload_id part_number
        body

  unfoldable pub complete_multipart : Text → Text → Text → List PartInfo → WireM (Unit {0})
  complete_multipart user_id key upload_id parts =
      Multipart.complete_multipart_upload lib c xml_events (user_key user_id key) upload_id parts

  unfoldable pub abort_multipart : Text → Text → Text → WireM (Unit {0})
  abort_multipart user_id key upload_id =
      Multipart.abort_multipart_upload lib c xml_events (user_key user_id key) upload_id
