-- ===== src/Handlers/Objects.antt =====
-- The handlers of src/api/handlers/object.rs. A panic of the decoder or of the fan-out, which ends the
-- request, is an internal error.
use s3prism.Base.{
  ℕ, Bool, List, [], ◌∷◌, Text, bytes, Option, none, some, text_eq, strip_prefix, length, ◌==◌,
  if◌then◌else◌, Result, ok, err, ok_or, ensure, ◌>>=◌, ◌>>◌,
}
use s3prism.Config.{is_configured}
use s3prism.Metadata
use s3prism.Metadata.Models.{ObjectMeta, ChunkInfo, ObjectStorageMode}
use s3prism.Metadata.Rocks.{Rocks, Codecs}
use s3prism.Metadata.Objects.{delete_object_and_enqueue_purge, batch_delete_and_enqueue_purge}
use s3prism.Metadata.Buckets.{get_bucket}
use s3prism.Chunked.{Headers, header_str, decode_aws_chunked}
use s3prism.Errors.{
  S3Error, service_unavailable, no_such_bucket, no_such_key, invalid_argument, malformed_xml,
}
use s3prism.Xml.{parse_delete_objects_request, delete_result_response}
use s3prism.Handlers.{Services, unwrap_or, stored, content_type_of, collect_meta, place, read_back}

-- `headers.get(name)`: `some none` where the value is not text.
unfoldable pub header_value : Text → Headers → Option (Option Text)
header_value name [] = none
header_value name ((n, v) ∷ rest) =
    let later = header_value name rest in if text_eq n name then some v else later

-- `s.split_once('/')`.
unfoldable pub split_once : Text → Option (Text × Text)
split_once [] = none
split_once (c ∷ s) =
    let later : Option (Text × Text) = elim (split_once s) [
      | some x ↦ some (c ∷ x.0, x.1)
      | none ↦ none
    ] in
    if c == b'/' then some ([], s) else later

module _ (s : Services) (r : Rocks) (codecs : Codecs) where
  open r use {Db}

  -- What is stored for a written object, which has the ETag of the response.
  abbrev pub object_meta :
      Text
      → Text
      → Text
      → Text
      → List (Text × Text)
      → ℕ
      → List ChunkInfo × ObjectStorageMode
      → ObjectMeta
  object_meta bucket key content content_type user_metadata modified written = record {
    key = key;
    bucket = bucket;
    size = length content;
    etag = s.md5_hex content;
    content_type = content_type;
    created = s.created;
    modified = modified;
    user_metadata = user_metadata;
    storage_mode = written.1;
    chunks = written.0;
  }

  -- From the bucket on: the object that the database holds in the end, and the database.
  unfoldable pub store_content :
      Text → Text → Text → Text → List (Text × Text) → ℕ → Db → Result S3Error (ObjectMeta × Db)
  unfolding place
  store_content bucket key content content_type user_metadata modified d = do
    found ← stored (get_bucket r codecs bucket d)
    bucket_meta ← ok_or no_such_bucket found
    written ← stored (place s bucket_meta content_type content)
    let meta = object_meta bucket key content content_type user_metadata modified written
    d' ← stored (Metadata.Objects.put_object r codecs meta d)
    ok (meta, d')

  unfoldable pub find_object : Text → Text → Db → Result S3Error ObjectMeta
  find_object bucket key d = do
    found ← stored (Metadata.Objects.get_object r codecs bucket key d)
    ok_or no_such_key found

  -- The metadata of a copy.
  unfoldable pub copied_meta : Headers → ObjectMeta → Text × List (Text × Text)
  unfolding header_str content_type_of collect_meta
  copied_meta headers src =
      let directive =
        unwrap_or (bytes "COPY") (header_str (bytes "x-amz-metadata-directive") headers) in
      if text_eq directive (bytes "REPLACE")
      then (content_type_of headers, collect_meta headers [])
      else (src.content_type, src.user_metadata)

  unfoldable pub copy_object : Text → Text → Text → Headers → Db → Result S3Error (ObjectMeta × Db)
  unfolding split_once find_object read_back copied_meta store_content
  copy_object source bucket key headers d = do
    src ←
        ok_or (invalid_argument (bytes "x-amz-copy-source must be /bucket/key"))
          (split_once (unwrap_or source (strip_prefix (bytes "/") source)))
    dest ← stored (get_bucket r codecs bucket d)
    known ← ok_or no_such_bucket dest
    src_meta ← find_object src.0 src.1 d
    content ← stored (read_back s src_meta)
    let meta = copied_meta headers src_meta
    store_content bucket key content meta.0 meta.1 s.created d

  -- The `if let` on the header of a copy.
  abbrev pub put_or_copy :
      Option (Option Text) → Text → Text → Headers → Text → Db → Result S3Error (ObjectMeta × Db)
  put_or_copy (some none) bucket key headers body d =
      err (invalid_argument (bytes "invalid x-amz-copy-source"))
  put_or_copy (some (some source)) bucket key headers body d =
      copy_object source bucket key headers d
  put_or_copy none bucket key headers body d =
      store_content bucket key body (content_type_of headers) (collect_meta headers []) s.modified d

  unfoldable pub put_object : Text → Text → Headers → Text → Db → Result S3Error (ObjectMeta × Db)
  unfolding decode_aws_chunked header_value
  put_object bucket key headers body d = do
    content ← stored (decode_aws_chunked headers body)
    ensure (is_configured s.config) service_unavailable
    put_or_copy (header_value (bytes "x-amz-copy-source") headers) bucket key headers content d

  -- The object's record, from which the headers are made, and the body.
  unfoldable pub get_object : Text → Text → Db → Result S3Error (ObjectMeta × Text)
  unfolding find_object read_back
  get_object bucket key d = do
    ensure (is_configured s.config) service_unavailable
    meta ← find_object bucket key d
    body ← stored (read_back s meta)
    ok (meta, body)

  unfoldable pub head_object : Text → Text → Db → Result S3Error ObjectMeta
  unfolding find_object
  head_object bucket key d = do
    ensure (is_configured s.config) service_unavailable
    find_object bucket key d

  unfoldable pub delete_object : Text → Text → Db → Result S3Error Db
  delete_object bucket key d = do
    ensure (is_configured s.config) service_unavailable
    deleted ← stored (delete_object_and_enqueue_purge r codecs s.uuid s.created bucket key d)
    ok deleted.1

  -- The body of the response. A body that is not UTF-8 is malformed, which `is_utf8` tests.
  unfoldable pub delete_objects :
      (is_utf8 : Text → Bool) → Text → Headers → Text → Db → Result S3Error (Text × Db)
  unfolding decode_aws_chunked delete_result_response parse_delete_objects_request
  delete_objects is_utf8 bucket headers body d = do
    content ← stored (decode_aws_chunked headers body)
    ensure (is_configured s.config) service_unavailable
    ensure (is_utf8 content) malformed_xml
    keys ← parse_delete_objects_request content
    results ←
        stored
          (batch_delete_and_enqueue_purge r codecs s.chunk_uuids (λ i. s.created) bucket keys d)
    ok (delete_result_response results.0, results.1)
