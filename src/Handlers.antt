-- ===== src/Handlers.antt =====
-- src/api/handlers/object.rs: what its handlers share. `Services` is what they find outside of the
-- request: the configuration, the clients of the sites with the answers that they get, the digests,
-- the new UUIDs and the clock.
pub mod Objects
pub mod Buckets
pub mod Responses
pub mod RoundTrip
pub mod Multipart
mod Tests
use s3prism.Base.{
  ℕ, Bool, List, [], ◌∷◌, Text, bytes, Option, none, some, text_eq, strip_prefix, length,
  if◌then◌else◌, Result, ok, err, map_err,
}
use s3prism.Fault.{Fault, panicked}
use s3prism.Config.{RuntimeConfig, StorageMode, replica, erasure, hybrid}
use s3prism.Metadata.Models.{
  ObjectMeta, BucketMeta, ChunkInfo, ObjectStorageMode, replicated, erasure_coded,
}
use s3prism.Chunked.{Headers, header_str}
use s3prism.Erasure.Codec.{ReedSolomon}
use s3prism.Errors.{S3Error, internal_error}
use s3prism.Objects.{
  PutAnswers, GetAnswers, effective_mode, put_replicated, put_erasure_coded, get_replicated,
  get_erasure_coded,
}

pub record Services : Type 0 where
  pub config : RuntimeConfig
  pub clients : List Text
  pub rs : ReedSolomon
  pub sha256_hex : Text → Text
  pub md5_hex : Text → Text
  pub put_answers : PutAnswers
  pub get_answers : GetAnswers
  pub late : ℕ
  pub uuid : Text
  pub chunk_uuids : ℕ → Text
  pub shuffled : List ℕ → List ℕ
  -- The first and the second reading of the clock.
  pub created : ℕ
  pub modified : ℕ

-- `x.unwrap_or(other)`.
abbrev pub unwrap_or : {A : Type 0} → A → Option A → A
unwrap_or other none = other
unwrap_or other (some x) = x

-- `?` on the result of the database.
abbrev pub stored : {A : Type 0} → Result Fault A → Result S3Error A
stored x = map_err internal_error x

unfoldable pub content_type_of : Headers → Text
unfolding header_str
content_type_of headers =
    unwrap_or (bytes "application/octet-stream") (header_str (bytes "content-type") headers)

-- The insertion into the map, which is listed in the order of first insertion.
unfoldable pub insert_meta : Text → Text → List (Text × Text) → List (Text × Text)
insert_meta k v [] = (k, v) ∷ []
insert_meta k v ((k', v') ∷ rest) =
    let later = insert_meta k v rest in if text_eq k' k then (k, v) ∷ rest else (k', v') ∷ later

-- The headers `x-amz-meta-..`; a value that is not text becomes empty.
unfoldable pub collect_meta : Headers → List (Text × Text) → List (Text × Text)
unfolding insert_meta
collect_meta [] found = found
collect_meta ((name, v) ∷ headers) found = elim (strip_prefix (bytes "x-amz-meta-") name) [
  | some key ↦ collect_meta headers (insert_meta key (unwrap_or [] v) found)
  | none ↦ collect_meta headers found
]

module _ (s : Services) where
  abbrev pub put_in :
      StorageMode
      → BucketMeta
      → Text
      → Text
      → Text
      → Result Fault (List ChunkInfo × ObjectStorageMode)
  put_in replica bucket_meta content_type key content =
      put_replicated s.clients bucket_meta content_type s.put_answers s.late key content
  put_in erasure bucket_meta content_type key content =
      put_erasure_coded s.clients bucket_meta content_type s.sha256_hex s.rs s.put_answers s.late
        s.chunk_uuids s.config.erasure.write_distribution s.shuffled content
        (unwrap_or s.config.erasure.data_chunks bucket_meta.data_chunks)
        (unwrap_or s.config.erasure.parity_chunks bucket_meta.parity_chunks)
  -- `unreachable!()`: the effective mode is never hybrid.
  put_in hybrid bucket_meta content_type key content = err panicked

  -- The effective mode, and the write in it.
  unfoldable pub place :
      BucketMeta → Text → Text → Result Fault (List ChunkInfo × ObjectStorageMode)
  unfolding effective_mode
  place bucket_meta content_type content =
      put_in
        (effective_mode bucket_meta.storage_mode s.config.erasure.hybrid_threshold_bytes
          (length content))
        bucket_meta content_type s.uuid content

  abbrev pub read_in : ObjectStorageMode → ObjectMeta → Result Fault Text
  read_in replicated meta = get_replicated s.clients s.get_answers s.late meta
  read_in (erasure_coded k p) meta = get_erasure_coded s.rs s.clients s.get_answers s.late meta k p

  -- The `match` on the storage mode of an object that is read.
  unfoldable pub read_back : ObjectMeta → Result Fault Text
  read_back meta = read_in meta.storage_mode meta
