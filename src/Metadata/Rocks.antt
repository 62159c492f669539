-- ===== src/Metadata/Rocks.antt =====
-- The crates `rocksdb` and `serde_json`, which are not part of the repository, as interfaces with
-- what src/metadata/rocksdb_backend.rs relies on. Any call may fail; a write is atomic.
use s3prism.Base.{
  ◌≡◌, Bool, true, false, ◌&&◌, List, [], ◌∷◌, map, Text, Option, none, some, Result, ok, text_eq,
  text_le, if◌then◌else◌, All,
}
use s3prism.Fault.{Fault}
use s3prism.Config.{RuntimeConfig}
use s3prism.Metadata.Models.{
  ObjectMeta, BucketMeta, PurgeEntry, MultipartUpload, PartMeta, AdminUser,
}

-- The column families.
pub data Family : Type 0 where
  objects buckets purge config multipart credentials : Family

abbrev pub family_eq : Family → Family → Bool
family_eq objects objects = true
family_eq buckets buckets = true
family_eq purge purge = true
family_eq config config = true
family_eq multipart multipart = true
family_eq credentials credentials = true
family_eq _ _ = false

-- One operation of a `WriteBatch`; `put_cf` and `delete_cf` are batches of one.
pub data Write : Type 0 where
  put : Family → Text → Text → Write
  delete : Family → Text → Write

abbrev pub Contents : Type 0
Contents = Family → Text → Option Text

abbrev pub at : Family → Text → Family → Text → Bool
at cf k cf' k' = family_eq cf cf' && text_eq k k'

abbrev pub apply_write : Write → Contents → Contents
apply_write (put cf k v) c cf' k' = if at cf k cf' k' then some v else c cf' k'
apply_write (delete cf k) c cf' k' = if at cf k cf' k' then none else c cf' k'

unfoldable pub apply_writes : List Write → Contents → Contents
apply_writes [] c = c
apply_writes (w ∷ ws) c = apply_writes ws (apply_write w c)

-- The keys go up, byte by byte.
abbrev pub IsAscending : List (Text × Text) → Type 0
IsAscending [] = Unit
IsAscending (kv ∷ rest) = All (λ kv'. text_le kv'.0 kv.0 ≡ false) rest × IsAscending rest

-- The value at a key.
abbrev pub item_at : Text → List (Text × Text) → Option Text
item_at k [] = none
item_at k ((k', v) ∷ rest) = if text_eq k' k then some v else item_at k rest

pub record Rocks : Type 1 where
  pub Db : Type 0
  -- What a family holds, for the laws.
  pub contents : Db → Contents
  pub get_cf : Family → Text → Db → Result Fault (Option Text)
  pub write : List Write → Db → Result Fault Db
  -- `iterator_cf` from a key forward.
  pub iterator_cf : Family → Text → Db → List (Result Fault (Text × Text))
  pub get_cf-contents :
      (cf : Family) (k : Text) (d : Db) {v : Option Text}
      → get_cf cf k d ≡ ok v
      → v ≡ contents d cf k
  pub write-contents :
      (ws : List Write) (d : Db) {d' : Db}
      → write ws d ≡ ok d'
      → (cf : Family) (k : Text) → contents d' cf k ≡ apply_writes ws (contents d) cf k
  -- An iterator that meets no error lists the keys from its start on, in order.
  pub iterator_cf-items :
      (cf : Family) (start : Text) (d : Db) (items : List (Text × Text))
      → iterator_cf cf start d ≡ map ok items
      → IsAscending items
        × ((k : Text) → item_at k items ≡ (if text_le start k then contents d cf k else none))

-- `serde_json::to_vec` and `from_slice` at a type.
pub record Serde (A : Type 0) : Type 0 where
  pub to_vec : A → Result Fault Text
  pub from_slice : Text → Result Fault A
  pub from_slice-to_vec : (a : A) {v : Text} → to_vec a ≡ ok v → from_slice v ≡ ok a

pub record Codecs : Type 0 where
  pub object : Serde ObjectMeta
  pub bucket : Serde BucketMeta
  pub purge_entry : Serde PurgeEntry
  pub upload : Serde MultipartUpload
  pub part : Serde PartMeta
  pub user : Serde AdminUser
  pub runtime : Serde RuntimeConfig
