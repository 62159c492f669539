-- ===== src/Metadata.antt =====
-- src/metadata: the records of models.rs, the store of rocksdb_backend.rs, and the purge queue.
pub mod Models
pub mod Rocks
pub mod Keys
pub mod Objects
pub mod Laws
pub mod Spec
pub mod Listing
pub mod Buckets
pub mod Stats
pub mod Queue
pub mod Uploads
pub mod Iterate
pub mod Shelf
pub mod Formats
mod Wire
pub mod Memory
mod Tests
