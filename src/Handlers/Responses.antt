-- ===== src/Handlers/Responses.antt =====
-- The responses of src/api/handlers/object.rs and src/api/handlers/multipart.rs, and the list of the
-- uploads. Dates are printed by the crate chrono, header values are checked by the crate http.
use s3prism.Base.{
  ℕ, Bool, List, [], ◌∷◌, ◌++◌, Text, bytes, ◌&&◌, if◌then◌else◌, Result, ok, ensure, ◌>>=◌, ◌>>◌,
}
use s3prism.Base.Decimal.{decimal}
use s3prism.Fault.{panicked}
use s3prism.Config.{is_configured}
use s3prism.Metadata
use s3prism.Metadata.Models.{ObjectMeta, MultipartUpload}
use s3prism.Metadata.Rocks.{Rocks, Codecs}
use s3prism.Errors.{S3Error, service_unavailable, internal_error}
use s3prism.Xml.{escape_xml, element, each_item, xml_header}
use s3prism.Handlers.{Services, stored, insert_meta}

pub record Response : Type 0 where
  pub status : ℕ
  pub headers : List (Text × Text)
  pub body : Text

-- What the handlers take from other crates.
pub record Printing : Type 0 where
  pub to_rfc3339 : ℕ → Text
  pub http_date : ℕ → Text
  pub is_header_name : Text → Bool
  pub is_header_value : Text → Bool

abbrev pub empty_response : ℕ → Response
empty_response status = record { status = status; headers = []; body = [] }

abbrev pub xml_response : Text → Response
xml_response xml = record {
  status = 200;
  headers = (bytes "content-type", bytes "application/xml") ∷ [];
  body = xml;
}

abbrev quoted : Text → Text
quoted etag = b'"' ∷ (etag ++ bytes "\"")

-- The response of `put_object` and of `upload_part`.
unfoldable pub etag_response : Text → Response
etag_response etag = record { status = 200; headers = (bytes "etag", quoted etag) ∷ []; body = [] }

module _ (p : Printing) where
  -- `text.parse().unwrap()` for a header value.
  abbrev header_value : Text → Result S3Error Text
  header_value text = ensure (p.is_header_value text) (internal_error panicked) >> ok text

  -- The headers that `get_object` and `head_object` share.
  unfoldable pub object_headers : ObjectMeta → Result S3Error (List (Text × Text))
  object_headers meta = do
    content_type ← header_value meta.content_type
    etag ← header_value (quoted meta.etag)
    content_length ← header_value (decimal meta.size)
    last_modified ← header_value (p.http_date meta.modified)
    ok (
        (bytes "content-type", content_type)
        ∷ (bytes "etag", etag)
        ∷ (bytes "content-length", content_length)
        ∷ (bytes "last-modified", last_modified)
        ∷ [])

  -- The loop over the user's metadata: what is no header is left out.
  unfoldable pub add_user_metadata : List (Text × Text) → List (Text × Text) → List (Text × Text)
  unfolding insert_meta
  add_user_metadata [] headers = headers
  add_user_metadata ((k, v) ∷ rest) headers =
      let name = bytes "x-amz-meta-" ++ k in
      add_user_metadata rest (
        if p.is_header_name name && p.is_header_value v
        then insert_meta name v headers
        else headers)

  unfoldable pub get_response : ObjectMeta → Text → Result S3Error Response
  unfolding object_headers add_user_metadata
  get_response meta body = do
    headers ← object_headers meta
    ok (record {
      status = 200;
      headers = add_user_metadata meta.user_metadata headers;
      body = body;
    })

  unfoldable pub head_response : ObjectMeta → Result S3Error Response
  unfolding object_headers
  head_response meta = do
    headers ← object_headers meta
    ok (record { status = 200; headers = headers; body = [] })

  -- The response to a copy.
  unfoldable pub copied_response : ObjectMeta → Response
  copied_response meta = xml_response (
      xml_header
      ++ (bytes "\n<CopyObjectResult>\n  <ETag>\""
          ++ (meta.etag
              ++ (bytes "\"</ETag>\n  <LastModified>"
                  ++ (p.to_rfc3339 meta.modified
                      ++ bytes "</LastModified>\n</CopyObjectResult>")))))

unfoldable pub initiated_response : Text → Text → Text → Response
unfolding escape_xml
initiated_response bucket key upload_id = xml_response (
    xml_header
    ++ (bytes
          "\n<InitiateMultipartUploadResult xmlns=\"http://s3.amazonaws.com/doc/2006-03-01/\">\n  <Bucket>"
        ++ (escape_xml bucket
            ++ (bytes "</Bucket>\n  <Key>"
                ++ (escape_xml key
                    ++ (bytes "</Key>\n  <UploadId>"
                        ++ (escape_xml upload_id
                            ++ bytes "</UploadId>\n</InitiateMultipartUploadResult>")))))))

unfoldable pub completed_response : Text → Text → Text → Response
unfolding escape_xml
completed_response bucket key etag = xml_response (
    xml_header
    ++ (bytes
          "\n<CompleteMultipartUploadResult xmlns=\"http://s3.amazonaws.com/doc/2006-03-01/\">\n  <Bucket>"
        ++ (escape_xml bucket
            ++ (bytes "</Bucket>\n  <Key>"
                ++ (escape_xml key
                    ++ (bytes "</Key>\n  <ETag>\""
                        ++ (escape_xml etag
                            ++ bytes "\"</ETag>\n</CompleteMultipartUploadResult>")))))))

-- One upload of the list.
unfoldable pub upload_text : (to_rfc3339 : ℕ → Text) → MultipartUpload → Text
unfolding escape_xml
upload_text to_rfc3339 u = element (bytes "Upload") (
    element (bytes "Key") (escape_xml u.key)
    ++ (element (bytes "UploadId") (escape_xml u.upload_id)
        ++ element (bytes "Initiated") (to_rfc3339 u.created)))

module _ (s : Services) (r : Rocks) (codecs : Codecs) where
  -- The body of the response.
  unfoldable pub list_multipart_uploads :
      (to_rfc3339 : ℕ → Text) → Text → r.Db → Result S3Error Text
  unfolding upload_text
  list_multipart_uploads to_rfc3339 bucket d = do
    ensure (is_configured s.config) service_unavailable
    uploads ← stored (Metadata.Uploads.list_multipart_uploads r codecs bucket d)
    ok (
        xml_header
        ++ (bytes "<ListMultipartUploadsResult xmlns=\"http://s3.amazonaws.com/doc/2006-03-01/\">"
            ++ (element (bytes "Bucket") (escape_xml bucket)
                ++ (each_item (upload_text to_rfc3339) uploads
                    ++ bytes "</ListMultipartUploadsResult>"))))
