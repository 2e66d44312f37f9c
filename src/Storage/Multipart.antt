-- ===== src/Storage/Multipart.antt =====
-- The multipart uploads of backend/storage/src/client.rs. The XML reader is a parameter: the events
-- of a document for a reader that takes the text of the elements `UploadId` and `Key`.
use fullstackhex.Base.{
  ℕ, Bool, true, not, Text, codes, decimal, text_eq, List, [], ◌∷◌, ◌++◌, Option, none, some, ◌==◌,
  if◌then◌else◌, Result, ok, err, fail_if, ok_or, map_err,
}
use fullstackhex.Base.Exec.{pure, lift, ◌>>=◌, ◌>>◌}
use fullstackhex.Domain.Errors.{ApiError, internal_error, service_unavailable}
use fullstackhex.Storage.Config.{StorageConfig}
use fullstackhex.Storage.Sign.{Crypto, Url}
use fullstackhex.Storage.Client.{
  HttpResponse, WireM, object_url, signed, signed_unsigned, request, send, is_success, http_status,
  text_or_default,
}

pub record MultipartUpload : Type 0 where
  pub upload_id : Text
  pub key : Text

pub record PartInfo : Type 0 where
  pub part_number : ℕ
  pub etag : Text

-- A start tag with what reading its text gives, a failure of the reader, or anything else.
pub data XmlEvent : Type 0 where
  start : Text → Result Text Text → XmlEvent
  failure : Text → XmlEvent
  other : XmlEvent

abbrev kept : Text → Result Text Text → Option Text → Result ApiError (Option Text)
kept name text before =
    if text_eq name (codes "UploadId")
    then map_err (λ e. internal_error (codes "Failed to read UploadId text: " ++ e))
        (elim text [ ok t ↦ ok (some t) | err e ↦ err e ])
    else ok before

abbrev and_read :
    Result ApiError (Option Text)
    → (Option Text → Result ApiError (Option Text))
    → Result ApiError (Option Text)
and_read (err e) f = err e
and_read (ok o) f = f o

-- The loop over the events: the last `UploadId` wins.
unfoldable pub read_upload_id : Text → List XmlEvent → Option Text → Result ApiError (Option Text)
read_upload_id body [] upload_id = ok upload_id
read_upload_id body (start name text ∷ events) upload_id =
    and_read (kept name text upload_id) (λ o. read_upload_id body events o)
read_upload_id body (failure e ∷ events) upload_id =
    err (internal_error (codes "XML parse error: " ++ (e ++ (codes " body=" ++ body))))
read_upload_id body (other ∷ events) upload_id = read_upload_id body events upload_id

-- `.trim_matches('"')`
abbrev drop_quotes : Text → Text
drop_quotes [] = []
drop_quotes (x ∷ xs) = let rest = drop_quotes xs in if x == b'"' then rest else x ∷ xs

abbrev back : Text → Text → Text
back [] acc = acc
back (x ∷ xs) acc = back xs (x ∷ acc)

unfoldable pub trim_quotes : Text → Text
trim_quotes t = back (drop_quotes (back (drop_quotes t) [])) []

abbrev etag_of : Option Text → Text
etag_of none = []
etag_of (some v) = trim_quotes v

module _ (lib : Crypto) where
  unfoldable pub part_xml : PartInfo → Text
  part_xml p =
      codes "<Part><PartNumber>"
      ++ (decimal p.part_number
          ++ (codes "</PartNumber><ETag>\"" ++ (lib.escape_xml p.etag ++ codes "\"</ETag></Part>")))

  unfoldable pub parts_xml : List PartInfo → Text
  unfolding part_xml
  parts_xml [] = []
  parts_xml (p ∷ ps) = part_xml p ++ parts_xml ps

  unfoldable pub build_complete_multipart_xml : List PartInfo → Text
  unfolding parts_xml
  build_complete_multipart_xml parts =
      codes "<CompleteMultipartUpload xmlns=\"http://s3.amazonaws.com/doc/2006-03-01/\">"
      ++ (parts_xml parts ++ codes "</CompleteMultipartUpload>")

module _ (lib : Crypto) (c : StorageConfig) (xml_events : Text → List XmlEvent) where
  -- A failed status, with the answer's text.
  abbrev pub check_status : Text → Bool → HttpResponse → Result ApiError (Unit {0})
  check_status context fine resp = fail_if (not fine) (
      service_unavailable
        (context ++ (http_status lib c resp ++ (codes ": " ++ text_or_default resp.body))))

  abbrev pub given : Text → Option Text
  given content_type = elim content_type [ [] ↦ none | x ∷ xs ↦ some (x ∷ xs) ]

  unfoldable pub create_multipart_upload : Text → Text → WireM MultipartUpload
  unfolding read_upload_id
  create_multipart_upload key content_type = do
    base ← object_url lib c key
    let url = base.text ++ codes "?uploads"
    s ← signed_unsigned lib c (codes "POST") url content_type
    resp ←
        send (codes "Multipart init failed: ")
          (request lib c (codes "POST") url s (given content_type) [])
    lift (check_status (codes "Multipart init failed: ") (is_success resp) resp)
    body ←
        lift (map_err (λ e. internal_error (codes "Failed to read init response: " ++ e)) resp.body)
    found ← lift (read_upload_id body (xml_events body) none)
    upload_id ← lift (ok_or found (internal_error (codes "Missing UploadId in response: " ++ body)))
    pure (record { upload_id = upload_id; key = key })

  abbrev part_url : Url → ℕ → Text → Text
  part_url base part_number upload_id =
      base.text
      ++ (codes "?partNumber=" ++ (decimal part_number ++ (codes "&uploadId=" ++ upload_id)))

  abbrev upload_url : Url → Text → Text
  upload_url base upload_id = base.text ++ (codes "?uploadId=" ++ upload_id)

  unfoldable pub upload_part : Text → Text → ℕ → Text → WireM PartInfo
  unfolding trim_quotes
  upload_part key upload_id part_number body = do
    base ← object_url lib c key
    let url = part_url base part_number upload_id
    s ← signed lib c (codes "PUT") url [] body
    resp ← send (codes "Part upload failed: ") (request lib c (codes "PUT") url s none body)
    lift (check_status (codes "Part upload failed: ") (is_success resp) resp)
    pure (record { part_number = part_number; etag = etag_of resp.etag })

  unfoldable pub upload_part_streaming : Text → Text → ℕ → Text → WireM PartInfo
  unfolding trim_quotes
  upload_part_streaming key upload_id part_number body = do
    base ← object_url lib c key
    let url = part_url base part_number upload_id
    s ← signed_unsigned lib c (codes "PUT") url []
    resp ← send (codes "Part upload failed: ") (request lib c (codes "PUT") url s none body)
    lift (check_status (codes "Part upload failed: ") (is_success resp) resp)
    pure (record { part_number = part_number; etag = etag_of resp.etag })

  unfoldable pub complete_multipart_upload : Text → Text → List PartInfo → WireM (Unit {0})
  unfolding build_complete_multipart_xml
  complete_multipart_upload key upload_id parts = do
    base ← object_url lib c key
    let url = upload_url base upload_id
    let xml = build_complete_multipart_xml lib parts
    s ← signed lib c (codes "POST") url (codes "application/xml") xml
    resp ←
        send (codes "Multipart complete failed: ")
          (request lib c (codes "POST") url s (some (codes "application/xml")) xml)
    lift (check_status (codes "Multipart complete failed: ") (is_success resp) resp)

  unfoldable pub abort_multipart_upload : Text → Text → WireM (Unit {0})
  abort_multipart_upload key upload_id = do
    base ← object_url lib c key
    let url = upload_url base upload_id
    s ← signed_unsigned lib c (codes "DELETE") url []
    resp ← send (codes "Multipart abort failed: ") (request lib c (codes "DELETE") url s none [])
    lift (
        check_status (codes "Multipart abort failed: ")
          (if is_success resp then true else resp.status == 204) resp)
