-- ===== src/Metadata/Objects.antt =====
-- The operations on objects of src/metadata/rocksdb_backend.rs, but for the listing.
use s3prism.Base.{
  ℕ, ◌+◌, Bool, true, false, List, [], ◌∷◌, ◌++◌, Text, Option, none, some, Result, ok, ◌>>=◌,
}
use s3prism.Fault.{Fault}
use s3prism.Metadata.Models.{ObjectMeta, from_object_meta}
use s3prism.Metadata.Rocks.{Rocks, Serde, Codecs, Write, put, delete, objects, purge}
use s3prism.Metadata.Keys.{object_key}

-- `Some(value) => Some(serde_json::from_slice(&value)?)`.
unfoldable pub decode_value : {A : Type 0} → Serde A → Option Text → Result Fault (Option A)
decode_value s none = ok none
decode_value s (some v) = do a ← s.from_slice v; ok (some a)

abbrev pub is_some : {A : Type 0} → Option A → Bool
is_some none = false
is_some (some a) = true

module _ (r : Rocks) (codecs : Codecs) where
  open r use {Db, get_cf, write}

  unfoldable pub put_object : ObjectMeta → Db → Result Fault Db
  put_object meta d = do
    value ← codecs.object.to_vec meta
    write (put objects (object_key meta.bucket meta.key) value ∷ []) d

  unfoldable pub get_object : Text → Text → Db → Result Fault (Option ObjectMeta)
  get_object bucket key d = do
    value ← get_cf objects (object_key bucket key) d
    decode_value codecs.object value

  -- `if meta.is_some() { delete_cf }`.
  unfoldable pub delete_if_some :
      Text → Option ObjectMeta → Db → Result Fault (Option ObjectMeta × Db)
  delete_if_some db_key none d = ok (none, d)
  delete_if_some db_key (some meta) d = do
    d' ← write (delete objects db_key ∷ []) d
    ok (some meta, d')

  unfoldable pub delete_object : Text → Text → Db → Result Fault (Option ObjectMeta × Db)
  unfolding delete_if_some
  delete_object bucket key d = do
    value ← get_cf objects (object_key bucket key) d
    meta ← decode_value codecs.object value
    delete_if_some (object_key bucket key) meta d

  -- The batch that moves an object to the purge queue; `id` is the new UUID and `now` the clock.
  unfoldable pub purge_writes : Text → ℕ → Text → ObjectMeta → Result Fault (List Write)
  purge_writes id now db_key meta = do
    let entry = from_object_meta id now meta
    purge_value ← codecs.purge_entry.to_vec entry
    ok (delete objects db_key ∷ put purge id purge_value ∷ [])

  unfoldable pub enqueue_found : Text → ℕ → Text → Option ObjectMeta → Db → Result Fault (Bool × Db)
  enqueue_found id now db_key none d = ok (false, d)
  enqueue_found id now db_key (some meta) d = do
    batch ← purge_writes id now db_key meta
    d' ← write batch d
    ok (true, d')

  unfoldable pub delete_object_and_enqueue_purge :
      Text → ℕ → Text → Text → Db → Result Fault (Bool × Db)
  delete_object_and_enqueue_purge id now bucket key d = do
    value ← get_cf objects (object_key bucket key) d
    meta ← decode_value codecs.object value
    enqueue_found id now (object_key bucket key) meta d

  -- The writes for one key of a batch: none for a key that is not there.
  unfoldable pub batch_one : Text → ℕ → Text → Option ObjectMeta → Result Fault (List Write)
  batch_one id now db_key none = ok []
  batch_one id now db_key (some meta) = purge_writes id now db_key meta

  -- The loop over the keys; `ids i` and `now i` are the UUID and the clock of round `i`. All reads
  -- come before the one write, so the database does not change.
  unfoldable pub batch_from :
      (ids : ℕ → Text) (now : ℕ → ℕ)
      → ℕ
      → Text
      → List Text
      → Db
      → Result Fault (List Write × List (Text × Bool))
  batch_from ids now i bucket [] d = ok ([], [])
  batch_from ids now i bucket (key ∷ keys) d = do
    value ← get_cf objects (object_key bucket key) d
    meta ← decode_value codecs.object value
    writes ← batch_one (ids i) (now i) (object_key bucket key) meta
    rest ← batch_from ids now (i + 1) bucket keys d
    ok (writes ++ rest.0, (key, true) ∷ rest.1)

  unfoldable pub batch_delete_and_enqueue_purge :
      (ids : ℕ → Text) (now : ℕ → ℕ)
      → Text
      → List Text
      → Db
      → Result Fault (List (Text × Bool) × Db)
  batch_delete_and_enqueue_purge ids now bucket keys d = do
    batch ← batch_from ids now 0 bucket keys d
    d' ← write batch.0 d
    ok (batch.1, d')

  unfoldable pub head_object : Text → Text → Db → Result Fault Bool
  head_object bucket key d = do value ← get_cf objects (object_key bucket key) d; ok (is_some value)
