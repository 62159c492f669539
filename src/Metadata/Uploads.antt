-- ===== src/Metadata/Uploads.antt =====
-- The operations on multipart uploads of src/metadata/rocksdb_backend.rs:412.
use s3prism.Base.{
  ℕ, ◌+◌, ◌/◌, ◌%◌, List, [], ◌∷◌, ◌++◌, Text, bytes, Option, starts_with, text_eq, if◌then◌else◌,
  Result, ok, err, ◌>>=◌,
}
use s3prism.Fault.{Fault}
use s3prism.Metadata.Models.{MultipartUpload, PartMeta}
use s3prism.Metadata.Rocks.{Rocks, Serde, Codecs, Write, put, delete, multipart}
use s3prism.Metadata.Objects.{decode_value}

-- `format!("upload:{upload_id}")`.
unfoldable pub upload_key : Text → Text
upload_key upload_id = bytes "upload:" ++ upload_id

-- `{:05}` of a `u16`, which has at most five digits.
unfoldable pub five_digits : ℕ → Text
five_digits n =
    (b'0' + n / 10_000 % 10)
    ∷ (b'0' + n / 1_000 % 10)
    ∷ (b'0' + n / 100 % 10)
    ∷ (b'0' + n / 10 % 10)
    ∷ (b'0' + n % 10)
    ∷ []

-- `format!("part:{upload_id}:")`, and the key of a part behind it.
unfoldable pub parts_prefix : Text → Text
parts_prefix upload_id = bytes "part:" ++ (upload_id ++ bytes ":")

unfoldable pub part_key : Text → ℕ → Text
unfolding parts_prefix five_digits
part_key upload_id part_number = parts_prefix upload_id ++ five_digits part_number

-- The uploads of a bucket, up to the first key without the prefix.
unfoldable pub uploads_from :
    Serde MultipartUpload
    → Text
    → List (Result Fault (Text × Text))
    → Result Fault (List MultipartUpload)
uploads_from s bucket [] = ok []
uploads_from s bucket (err e ∷ items) = err e
uploads_from s bucket (ok (key, value) ∷ items) =
    let round : Result Fault (List MultipartUpload) = (do
      upload ← s.from_slice value
      rest ← uploads_from s bucket items
      ok (if text_eq upload.bucket bucket then upload ∷ rest else rest)) in
    if starts_with (bytes "upload:") key then round else ok []

unfoldable pub parts_from :
    Serde PartMeta → Text → List (Result Fault (Text × Text)) → Result Fault (List PartMeta)
parts_from s prefix [] = ok []
parts_from s prefix (err e ∷ items) = err e
parts_from s prefix (ok (key, value) ∷ items) =
    let round : Result Fault (List PartMeta) = (do
      part ← s.from_slice value
      rest ← parts_from s prefix items
      ok (part ∷ rest)) in
    if starts_with prefix key then round else ok []

-- The batch of `delete_parts`.
unfoldable pub deletes_from : Text → List (Result Fault (Text × Text)) → Result Fault (List Write)
deletes_from prefix [] = ok []
deletes_from prefix (err e ∷ items) = err e
deletes_from prefix (ok (key, value) ∷ items) =
    let round : Result Fault (List Write) = (do
      rest ← deletes_from prefix items
      ok (delete multipart key ∷ rest)) in
    if starts_with prefix key then round else ok []

module _ (r : Rocks) (codecs : Codecs) where
  open r use {Db, get_cf, write, iterator_cf}

  unfoldable pub create_multipart_upload : MultipartUpload → Db → Result Fault Db
  create_multipart_upload upload d = do
    value ← codecs.upload.to_vec upload
    write (put multipart (upload_key upload.upload_id) value ∷ []) d

  unfoldable pub get_multipart_upload : Text → Db → Result Fault (Option MultipartUpload)
  get_multipart_upload upload_id d = do
    value ← get_cf multipart (upload_key upload_id) d
    decode_value codecs.upload value

  unfoldable pub delete_parts : Text → Db → Result Fault Db
  unfolding deletes_from parts_prefix
  delete_parts upload_id d = do
    let prefix = parts_prefix upload_id
    batch ← deletes_from prefix (iterator_cf multipart prefix d)
    write batch d

  -- Two writes: a failure between them leaves the parts.
  unfoldable pub delete_multipart_upload : Text → Db → Result Fault Db
  delete_multipart_upload upload_id d = do
    d' ← write (delete multipart (upload_key upload_id) ∷ []) d
    delete_parts upload_id d'

  unfoldable pub list_multipart_uploads : Text → Db → Result Fault (List MultipartUpload)
  unfolding uploads_from
  list_multipart_uploads bucket d =
      uploads_from codecs.upload bucket (iterator_cf multipart (bytes "upload:") d)

  unfoldable pub put_part : Text → PartMeta → Db → Result Fault Db
  unfolding part_key
  put_part upload_id part d = do
    value ← codecs.part.to_vec part
    write (put multipart (part_key upload_id part.part_number) value ∷ []) d

  unfoldable pub list_parts : Text → Db → Result Fault (List PartMeta)
  unfolding parts_from parts_prefix
  list_parts upload_id d =
      parts_from codecs.part (parts_prefix upload_id)
        (iterator_cf multipart (parts_prefix upload_id) d)
