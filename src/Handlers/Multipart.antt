-- ===== src/Handlers/Multipart.antt =====
-- src/api/handlers/multipart.rs: uploads in parts. A panic is an internal error, and a `Result` that
-- is an error does not show which of the handler's writes came before it.
pub mod Recorded
pub mod Reading
pub mod Order
pub mod Life
use s3prism.Base.{
  ℕ, Bool, true, false, not, List, [], ◌∷◌, ◌++◌, Text, bytes, Option, none, some, any, find,
  text_eq, length, ◌==◌, leb, ltb, if◌then◌else◌, Result, ok, err, ok_or, ensure, ◌>>=◌, ◌>>◌,
}
use s3prism.Base.Decimal.{decimal}
use s3prism.Base.Search.{split, before}
use s3prism.Fault.{Fault}
use s3prism.Config.{is_configured}
use s3prism.Metadata.Models.{
  ObjectMeta, BucketMeta, BackendBucket, ChunkInfo, ChunkStatus, confirmed, pending, missing,
  ObjectStorageMode, MultipartUpload, PartMeta,
}
use s3prism.Metadata
use s3prism.Metadata.Rocks.{Rocks, Codecs}
use s3prism.Metadata.Objects.{is_some}
use s3prism.Metadata.Buckets.{get_bucket, bucket_exists}
use s3prism.Metadata.Uploads.{get_multipart_upload, delete_multipart_upload, put_part, list_parts}
use s3prism.Chunked.{Headers, decode_aws_chunked, trim, parse_decimal}
use s3prism.Errors.{
  S3Error, service_unavailable, no_such_bucket, no_such_upload, invalid_argument, malformed_xml,
  internal_error,
}
use s3prism.Objects.{put_replicated}
use s3prism.Handlers.{Services, stored, content_type_of, place}
use s3prism.Fault.{no_confirmed_replica, no_client, no_part_data, panicked}

-- `parse::<u16>()`.
unfoldable pub parse_u16 : Text → Option ℕ
unfolding parse_decimal
parse_u16 s = elim (parse_decimal s) [
  | some n ↦ if ltb n 65_536 then some n else none
  | none ↦ none
]

-- The numbers in the order of the text; the first that is not a number is an error.
unfoldable pub part_numbers : List Text → Result S3Error (List ℕ)
unfolding parse_u16 trim before
part_numbers [] = ok []
part_numbers (segment ∷ segments) = elim (before (bytes "</PartNumber>") segment) [
  | none ↦ part_numbers segments
  | some num_str ↦ do
    n ← ok_or malformed_xml (parse_u16 (trim num_str))
    ns ← part_numbers segments
    ok (n ∷ ns)
]

-- `sort_by_key`.
unfoldable pub insert_sorted : ℕ → List ℕ → List ℕ
insert_sorted n [] = n ∷ []
insert_sorted n (m ∷ ms) =
    let later = insert_sorted n ms in if leb n m then n ∷ m ∷ ms else m ∷ later

unfoldable pub sort_by_key : List ℕ → List ℕ
unfolding insert_sorted
sort_by_key [] = []
sort_by_key (n ∷ ns) = insert_sorted n (sort_by_key ns)

unfoldable pub parse_complete_multipart_xml : Text → Result S3Error (List ℕ)
unfolding split part_numbers sort_by_key
parse_complete_multipart_xml body = do
  parts ← part_numbers (split (bytes "<PartNumber>") body)
  ensure (not (length parts == 0)) malformed_xml
  ok (sort_by_key parts)

unfoldable pub find_part : ℕ → List PartMeta → Option PartMeta
find_part n parts = find (λ (p : PartMeta). p.part_number == n) parts

-- The check that each requested part has been stored.
unfoldable pub check_parts : List ℕ → List PartMeta → Result S3Error (Unit {0})
check_parts [] parts = ok tt
check_parts (n ∷ ns) parts =
    ensure (any (λ (p : PartMeta). p.part_number == n) parts)
      (invalid_argument (bytes "part " ++ (decimal n ++ bytes " not found")))
    >> check_parts ns parts

-- `client.get_object` for a site, a bucket and a key.
abbrev pub Getter : Type 0
Getter = (site bucket key : Text) → Result Fault (Option Text)

-- The loop that fetches the parts; `unwrap` cannot fail behind the check.
unfoldable pub fetch_parts : List Text → Getter → List PartMeta → List ℕ → Result S3Error Text
unfolding find_part
fetch_parts clients get parts [] = ok []
fetch_parts clients get parts (n ∷ ns) = do
  part ← ok_or (internal_error panicked) (find_part n parts)
  ensure (any (λ c. text_eq c part.site) clients) (internal_error no_client)
  output ← stored (get part.site part.backend_bucket part.backend_key)
  content ← ok_or (internal_error no_part_data) output
  rest ← fetch_parts clients get parts ns
  ok (content ++ rest)

-- A request to a site to delete a key.
pub record Deletion : Type 0 where
  pub site : Text
  pub bucket : Text
  pub key : Text

unfoldable pub deletions_of : List Text → Text → List BackendBucket → List Deletion
deletions_of clients key [] = []
deletions_of clients key (bb ∷ bbs) =
    let rest = deletions_of clients key bbs in
    if any (λ c. text_eq c bb.site) clients
    then record { site = bb.site; bucket = bb.bucket_name; key = key } ∷ rest
    else rest

-- The requests of `cleanup_parts`, whose results are ignored.
unfoldable pub cleanup_parts : List Text → BucketMeta → List PartMeta → List Deletion
unfolding deletions_of
cleanup_parts clients bucket_meta [] = []
cleanup_parts clients bucket_meta (part ∷ parts) =
    deletions_of clients part.backend_key bucket_meta.backend_buckets
    ++ cleanup_parts clients bucket_meta parts

-- The local variables between the two halves of the completion.
pub record Assembly : Type 0 where
  pub upload : MultipartUpload
  pub requested : List ℕ
  pub parts : List PartMeta
  pub content : Text

abbrev is_confirmed : ChunkStatus → Bool
is_confirmed confirmed = true
is_confirmed pending = false
is_confirmed missing = false

module _ (s : Services) (r : Rocks) (codecs : Codecs) where
  open r use {Db}

  -- The new upload's id, and the database.
  unfoldable pub create_multipart_upload : Text → Text → Headers → Db → Result S3Error (Text × Db)
  unfolding content_type_of
  create_multipart_upload bucket key headers d = do
    ensure (is_configured s.config) service_unavailable
    known ← stored (bucket_exists r codecs bucket d)
    ensure known no_such_bucket
    d' ← stored (
        Metadata.Uploads.create_multipart_upload r codecs
          (record {
            upload_id = s.uuid;
            bucket = bucket;
            key = key;
            created = s.created;
            content_type = content_type_of headers;
          })
          d)
    ok (s.uuid, d')

  unfoldable pub backend_key_of : Text → Text
  backend_key_of upload_id = bytes "_multipart/" ++ (upload_id ++ (bytes "/" ++ s.uuid))

  -- The stored part, which has the ETag of the response.
  unfoldable pub upload_part :
      Option Text → Option ℕ → Text → Headers → Text → Db → Result S3Error (PartMeta × Db)
  unfolding decode_aws_chunked backend_key_of
  upload_part upload_id part_number bucket headers body d = do
    content ← stored (decode_aws_chunked headers body)
    id ← ok_or (invalid_argument (bytes "missing uploadId")) upload_id
    n ← ok_or (invalid_argument (bytes "missing partNumber")) part_number
    upload ← stored (get_multipart_upload r codecs id d)
    known ← ok_or no_such_upload upload
    found ← stored (get_bucket r codecs bucket d)
    bucket_meta ← ok_or no_such_bucket found
    written ← stored (
        put_replicated s.clients bucket_meta (bytes "application/octet-stream") s.put_answers s.late
          (backend_key_of id) content)
    chunk ←
        ok_or (internal_error no_confirmed_replica)
          (find (λ (c : ChunkInfo). is_confirmed c.status) written.0)
    let part : PartMeta = record {
      part_number = n;
      etag = s.md5_hex content;
      size = length content;
      backend_key = backend_key_of id;
      site = chunk.site;
      backend_bucket = chunk.bucket;
    }
    d' ← stored (put_part r codecs id part d)
    ok (part, d')

  -- The object made of the parts.
  abbrev pub assembled_meta :
      Text → Text → Text → Text → ℕ → List ChunkInfo × ObjectStorageMode → ObjectMeta
  assembled_meta bucket key content content_type num_parts written = record {
    key = key;
    bucket = bucket;
    size = length content;
    etag = s.md5_hex content ++ (bytes "-" ++ decimal num_parts);
    content_type = content_type;
    created = s.created;
    modified = s.modified;
    user_metadata = [];
    storage_mode = written.1;
    chunks = written.0;
  }

  -- The first half of the completion: the upload, the requested numbers, the stored parts, and their
  -- contents joined. `is_utf8` tests the body.
  unfoldable pub assemble :
      (is_utf8 : Text → Bool) → Getter → Text → Text → Db → Result S3Error Assembly
  unfolding parse_complete_multipart_xml check_parts fetch_parts
  assemble is_utf8 get id body d = do
    found ← stored (get_multipart_upload r codecs id d)
    upload ← ok_or no_such_upload found
    ensure (is_utf8 body) malformed_xml
    requested ← parse_complete_multipart_xml body
    parts ← stored (list_parts r codecs id d)
    checked ← check_parts requested parts
    content ← fetch_parts s.clients get parts requested
    ok (record { upload = upload; requested = requested; parts = parts; content = content })

  -- The second half: the object, the requests that delete the parts at the sites, and the database.
  unfoldable pub store_assembled :
      Text → Text → Text → Db → Assembly → Result S3Error (ObjectMeta × (List Deletion × Db))
  unfolding place cleanup_parts
  store_assembled id bucket key d a = do
    held ← stored (get_bucket r codecs bucket d)
    bucket_meta ← ok_or no_such_bucket held
    written ← stored (place s bucket_meta a.upload.content_type a.content)
    let meta =
        assembled_meta bucket key a.content a.upload.content_type (length a.requested) written
    d1 ← stored (Metadata.Objects.put_object r codecs meta d)
    d2 ← stored (delete_multipart_upload r codecs id d1)
    ok (meta, (cleanup_parts s.clients bucket_meta a.parts, d2))

  unfoldable pub complete_multipart_upload :
      (is_utf8 : Text → Bool)
      → Getter
      → Option Text
      → Text
      → Text
      → Text
      → Db
      → Result S3Error (ObjectMeta × (List Deletion × Db))
  unfolding assemble store_assembled
  complete_multipart_upload is_utf8 get upload_id bucket key body d = do
    id ← ok_or (invalid_argument (bytes "missing uploadId")) upload_id
    a ← assemble is_utf8 get id body d
    store_assembled id bucket key d a

  unfoldable pub abort_multipart_upload : Option Text → Db → Result S3Error (List Deletion × Db)
  unfolding cleanup_parts
  abort_multipart_upload upload_id d = do
    id ← ok_or (invalid_argument (bytes "missing uploadId")) upload_id
    found ← stored (get_multipart_upload r codecs id d)
    upload ← ok_or no_such_upload found
    held ← stored (get_bucket r codecs upload.bucket d)
    bucket_meta ← ok_or no_such_bucket held
    parts ← stored (list_parts r codecs id d)
    d' ← stored (delete_multipart_upload r codecs id d)
    ok (cleanup_parts s.clients bucket_meta parts, d')
