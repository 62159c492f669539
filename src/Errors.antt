-- ===== src/Errors.antt =====
-- src/api/error.rs: the errors of the S3 interface and their responses.
use s3prism.Base.{ℕ, ◌++◌, Text, bytes}
use s3prism.Fault.{Fault}

pub data S3Error : Type 0 where
  no_such_key no_such_bucket bucket_already_exists bucket_not_empty no_such_upload access_denied :
      S3Error
  invalid_argument : Text → S3Error
  malformed_xml : S3Error
  internal_error : Fault → S3Error
  not_implemented service_unavailable : S3Error

pub record ErrorParts : Type 0 where
  pub status : ℕ
  pub code : Text
  pub message : Text

abbrev parts : ℕ → Text → Text → ErrorParts
parts status code message = record { status = status; code = code; message = message }

-- The `match` of `into_response`.
unfoldable pub error_parts : S3Error → ErrorParts
error_parts no_such_key = parts 404 (bytes "NoSuchKey") (bytes "The specified key does not exist.")
error_parts no_such_bucket =
    parts 404 (bytes "NoSuchBucket") (bytes "The specified bucket does not exist.")
error_parts bucket_already_exists =
    parts 409 (bytes "BucketAlreadyOwnedByYou")
      (bytes "Your previous request to create the named bucket succeeded.")
error_parts bucket_not_empty =
    parts 409 (bytes "BucketNotEmpty") (bytes "The bucket you tried to delete is not empty.")
error_parts no_such_upload =
    parts 404 (bytes "NoSuchUpload") (bytes "The specified multipart upload does not exist.")
error_parts access_denied = parts 403 (bytes "AccessDenied") (bytes "Access Denied")
error_parts (invalid_argument msg) = parts 400 (bytes "InvalidArgument") msg
error_parts malformed_xml =
    parts 400 (bytes "MalformedXML") (bytes "The XML you provided was not well-formed.")
error_parts (internal_error e) =
    parts 500 (bytes "InternalError") (bytes "We encountered an internal error. Please try again.")
error_parts not_implemented =
    parts 501 (bytes "NotImplemented") (bytes "This operation is not yet implemented.")
error_parts service_unavailable =
    parts 503 (bytes "ServiceUnavailable")
      (bytes "Service is not configured. Complete setup via the management UI.")

-- The status and the body of the response.
unfoldable pub error_response : S3Error → ℕ × Text
unfolding error_parts
error_response e =
    let p = error_parts e in
    (
      p.status,
      bytes "<?xml version=\"1.0\" encoding=\"UTF-8\"?>\n<Error>\n  <Code>"
          ++ (p.code
              ++ (bytes "</Code>\n  <Message>" ++ (p.message ++ bytes "</Message>\n</Error>"))),
    )
