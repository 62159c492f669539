-- ===== src/Metadata/Models.antt =====
-- src/metadata/models.rs. A time is a number.
use s3prism.Base.{ℕ, Bool, false, List, map, Text, bytes, Option, none, all}
use s3prism.Config.{StorageMode}

pub data ObjectStorageMode : Type 0 where
  replicated : ObjectStorageMode
  erasure_coded : (data_chunks parity_chunks : ℕ) → ObjectStorageMode

pub data ChunkType : Type 0 where
  data_chunk parity_chunk replica_chunk : ChunkType

pub data ChunkStatus : Type 0 where
  confirmed pending missing : ChunkStatus

pub record ChunkInfo : Type 0 where
  pub index : ℕ
  pub chunk_type : ChunkType
  pub site : Text
  pub bucket : Text
  pub s3_key : Text
  pub size : ℕ
  pub checksum : Text
  pub status : ChunkStatus

pub record ObjectMeta : Type 0 where
  pub key : Text
  pub bucket : Text
  pub size : ℕ
  pub etag : Text
  pub content_type : Text
  pub created : ℕ
  pub modified : ℕ
  pub user_metadata : List (Text × Text)
  pub storage_mode : ObjectStorageMode
  pub chunks : List ChunkInfo

pub record BackendBucket : Type 0 where
  pub site : Text
  pub bucket_name : Text
  pub created : ℕ

pub record BucketMeta : Type 0 where
  pub name : Text
  pub created : ℕ
  pub storage_mode : StorageMode
  pub data_chunks : Option ℕ
  pub parity_chunks : Option ℕ
  pub backend_buckets : List BackendBucket

pub record PurgeChunk : Type 0 where
  pub site : Text
  pub bucket : Text
  pub s3_key : Text
  pub deleted : Bool

pub record PurgeEntry : Type 0 where
  pub id : Text
  pub bucket : Text
  pub key : Text
  pub chunks : List PurgeChunk
  pub queued_at : ℕ
  pub attempts : ℕ
  pub last_attempt : Option ℕ

pub record ListEntry : Type 0 where
  pub key : Text
  pub size : ℕ
  pub etag : Text
  pub last_modified : ℕ
  pub storage_class : Text

pub record MultipartUpload : Type 0 where
  pub upload_id : Text
  pub bucket : Text
  pub key : Text
  pub created : ℕ
  pub content_type : Text

pub record PartMeta : Type 0 where
  pub part_number : ℕ
  pub etag : Text
  pub size : ℕ
  pub backend_key : Text
  pub site : Text
  pub backend_bucket : Text

pub record AdminUser : Type 0 where
  pub username : Text
  pub password_hash : Text
  pub created : ℕ

-- The closure of `from_object_meta`.
abbrev pub purge_chunk : ChunkInfo → PurgeChunk
purge_chunk c = record { site = c.site; bucket = c.bucket; s3_key = c.s3_key; deleted = false }

-- `id` is the new UUID, `now` the clock.
unfoldable pub from_object_meta : Text → ℕ → ObjectMeta → PurgeEntry
from_object_meta id now meta = record {
  id = id;
  bucket = meta.bucket;
  key = meta.key;
  chunks = map purge_chunk meta.chunks;
  queued_at = now;
  attempts = 0;
  last_attempt = none;
}

unfoldable pub all_deleted : PurgeEntry → Bool
all_deleted e = all (λ (c : PurgeChunk). c.deleted) e.chunks

unfoldable pub list_entry : ObjectMeta → ListEntry
list_entry meta = record {
  key = meta.key;
  size = meta.size;
  etag = meta.etag;
  last_modified = meta.modified;
  storage_class = bytes "STANDARD";
}
