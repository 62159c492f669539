-- ===== src/Metadata/Queue.antt =====
-- The operations on the purge queue of src/metadata/rocksdb_backend.rs.
use s3prism.Base.{ℕ, zero, suc, List, [], ◌∷◌, length, Text, Result, ok, ◌>>=◌}
use s3prism.Fault.{Fault}
use s3prism.Metadata.Models.{PurgeEntry}
use s3prism.Metadata.Rocks.{Rocks, Serde, Codecs, put, delete, purge}

-- The loop with its limit: `limit` more entries are taken.
unfoldable pub collect_limit :
    {A : Type 0} → Serde A → ℕ → List (Result Fault (Text × Text)) → Result Fault (List A)
collect_limit s limit [] = ok []
collect_limit s zero (item ∷ items) = ok []
collect_limit s (suc limit) (item ∷ items) = do
  kv ← item
  a ← s.from_slice kv.1
  rest ← collect_limit s limit items
  ok (a ∷ rest)

module _ (r : Rocks) (codecs : Codecs) where
  open r use {Db, write, iterator_cf}

  unfoldable pub enqueue_purge : PurgeEntry → Db → Result Fault Db
  enqueue_purge entry d = do
    value ← codecs.purge_entry.to_vec entry
    write (put purge entry.id value ∷ []) d

  unfoldable pub list_purge_entries : ℕ → Db → Result Fault (List PurgeEntry)
  list_purge_entries limit d = collect_limit codecs.purge_entry limit (iterator_cf purge [] d)

  unfoldable pub update_purge_entry : PurgeEntry → Db → Result Fault Db
  update_purge_entry entry d = do
    value ← codecs.purge_entry.to_vec entry
    write (put purge entry.id value ∷ []) d

  unfoldable pub remove_purge_entry : Text → Db → Result Fault Db
  remove_purge_entry id d = write (delete purge id ∷ []) d

  unfoldable pub purge_queue_depth : Db → Result Fault ℕ
  purge_queue_depth d = ok (length (iterator_cf purge [] d))
