-- ===== src/Metadata/Buckets.antt =====
-- The operations on buckets, statistics and administrators of src/metadata/rocksdb_backend.rs.
use s3prism.Base.{
  bytes, ℕ, Bool, true, false, not, List, [], ◌∷◌, ◌++◌, Text, Option, starts_with, if◌then◌else◌,
  Result, ok, err, ◌>>=◌,
}
use s3prism.Base.Word.{add64}
use s3prism.Fault.{Fault}
use s3prism.Config.{RuntimeConfig}
use s3prism.Metadata.Models.{ObjectMeta, BucketMeta, AdminUser}
use s3prism.Metadata.Rocks.{
  Rocks, Serde, Codecs, Family, put, delete, objects, buckets, credentials, config,
}
use s3prism.Metadata.Objects.{decode_value, is_some}

-- `for item in iter { let (_, value) = item?; out.push(from_slice(&value)?) }`.
unfoldable pub collect_values :
    {A : Type 0} → Serde A → List (Result Fault (Text × Text)) → Result Fault (List A)
collect_values s [] = ok []
collect_values s (item ∷ items) = do
  kv ← item
  a ← s.from_slice kv.1
  rest ← collect_values s items
  ok (a ∷ rest)

pub record BucketStats : Type 0 where
  pub object_count : ℕ
  pub total_size : ℕ

-- `if let Ok(meta) = from_slice(&v) { total_size += meta.size }`.
abbrev size_or_0 : Result Fault ObjectMeta → ℕ
size_or_0 (ok meta) = meta.size
size_or_0 (err e) = 0

unfoldable pub stats_from :
    Serde ObjectMeta
    → Text
    → List (Result Fault (Text × Text))
    → BucketStats
    → Result Fault BucketStats
stats_from s prefix [] st = ok st
stats_from s prefix (err e ∷ items) st = err e
stats_from s prefix (ok (k, v) ∷ items) st =
    let next = stats_from s prefix items (record {
      object_count = add64 st.object_count 1;
      total_size = add64 st.total_size (size_or_0 (s.from_slice v));
    }) in
    if not (starts_with prefix k) then ok st else next

module _ (r : Rocks) (codecs : Codecs) where
  open r use {Db, get_cf, write, iterator_cf}

  unfoldable pub create_bucket : BucketMeta → Db → Result Fault Db
  create_bucket meta d = do
    value ← codecs.bucket.to_vec meta
    write (put buckets meta.name value ∷ []) d

  unfoldable pub get_bucket : Text → Db → Result Fault (Option BucketMeta)
  get_bucket name d = do value ← get_cf buckets name d; decode_value codecs.bucket value

  unfoldable pub delete_found : Family → Text → Bool → Db → Result Fault (Bool × Db)
  delete_found cf name false d = ok (false, d)
  delete_found cf name true d = do d' ← write (delete cf name ∷ []) d; ok (true, d')

  unfoldable pub delete_bucket : Text → Db → Result Fault (Bool × Db)
  unfolding delete_found
  delete_bucket name d = do
    value ← get_cf buckets name d
    delete_found buckets name (is_some value) d

  unfoldable pub list_buckets : Db → Result Fault (List BucketMeta)
  list_buckets d = collect_values codecs.bucket (iterator_cf buckets [] d)

  unfoldable pub bucket_exists : Text → Db → Result Fault Bool
  bucket_exists name d = do value ← get_cf buckets name d; ok (is_some value)

  -- The first item from the prefix on; an item that is an error counts as none.
  unfoldable pub first_outside : Text → List (Result Fault (Text × Text)) → Bool
  first_outside prefix [] = true
  first_outside prefix (err e ∷ items) = true
  first_outside prefix (ok (key, v) ∷ items) = not (starts_with prefix key)

  unfoldable pub bucket_is_empty : Text → Db → Result Fault Bool
  unfolding first_outside
  bucket_is_empty name d =
      ok (first_outside (name ++ 0 ∷ []) (iterator_cf objects (name ++ 0 ∷ []) d))

  unfoldable pub bucket_stats : Text → Db → Result Fault BucketStats
  unfolding stats_from
  bucket_stats bucket d =
      stats_from codecs.object (bucket ++ 0 ∷ []) (iterator_cf objects (bucket ++ 0 ∷ []) d)
        (record { object_count = 0; total_size = 0 })

  unfoldable pub put_admin_user : AdminUser → Db → Result Fault Db
  put_admin_user user d = do
    value ← codecs.user.to_vec user
    write (put credentials user.username value ∷ []) d

  unfoldable pub get_admin_user : Text → Db → Result Fault (Option AdminUser)
  get_admin_user username d = do
    value ← get_cf credentials username d
    decode_value codecs.user value

  unfoldable pub delete_admin_user : Text → Db → Result Fault (Bool × Db)
  unfolding delete_found
  delete_admin_user username d = do
    value ← get_cf credentials username d
    delete_found credentials username (is_some value) d

  unfoldable pub list_admin_users : Db → Result Fault (List AdminUser)
  list_admin_users d = collect_values codecs.user (iterator_cf credentials [] d)

  -- `RUNTIME_CONFIG_KEY`.
  unfoldable pub get_runtime_config : Db → Result Fault (Option RuntimeConfig)
  get_runtime_config d = do
    value ← get_cf config (bytes "__runtime_config__") d
    decode_value codecs.runtime value

  unfoldable pub put_runtime_config : RuntimeConfig → Db → Result Fault Db
  put_runtime_config cfg d = do
    value ← codecs.runtime.to_vec cfg
    write (put config (bytes "__runtime_config__") value ∷ []) d
