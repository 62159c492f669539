-- ===== src/Metadata/Spec.antt =====
-- What src/metadata/rocksdb_backend.rs promises for objects and the purge queue, as two maps: the
-- operations on a database, in any order, and the same operations on the maps.
pub mod Keeps
pub mod Refines
mod Tests
use s3prism.Base.{
  ℕ, ◌≡◌, refl, sym, ap, ap₂, ◌∙◌, subst, Bool, true, false, ◌&&◌, List, [], ◌∷◌, Text, Option,
  none, some, All, text_eq, if◌then◌else◌, Result, ok, ◌>>=◌, >>=-eq-ok, ok_injective,
}
use s3prism.Fault.{Fault}
use s3prism.Metadata
use s3prism.Metadata.Models.{ObjectMeta, PurgeEntry, from_object_meta}
use s3prism.Metadata.Rocks.{
  Rocks, Serde, Codecs, Family, objects, purge, put, delete, at, apply_writes,
}
use s3prism.Metadata.Keys.{object_key, NoNul, text_eq-object_key}
use s3prism.Metadata.Objects.{
  decode_value, is_some, put_object, get_object, head_object, delete_object, delete_if_some,
  delete_object_and_enqueue_purge, purge_writes, enqueue_found,
}
use s3prism.Metadata.Queue.{enqueue_purge, update_purge_entry, remove_purge_entry}

-- The operations, with the UUID and the time that an operation takes from outside.
pub data Op : Type 0 where
  put_op : ObjectMeta → Op
  get_op head_op delete_op : (bucket key : Text) → Op
  purge_op : (id : Text) (now : ℕ) (bucket key : Text) → Op
  enqueue_op update_op : PurgeEntry → Op
  remove_op : (id : Text) → Op

pub data Answer : Type 0 where
  done : Answer
  object : Option ObjectMeta → Answer
  flag : Bool → Answer

-- The objects by bucket and key, and the entries of the queue by id.
pub record Model : Type 0 where
  pub objects : Text → Text → Option ObjectMeta
  pub queue : Text → Option PurgeEntry

abbrev pub set_object : Text → Text → Option ObjectMeta → Model → Model
set_object bucket key o m = record m {
  objects = λ b k. if text_eq bucket b && text_eq key k then o else m.objects b k;
}

abbrev pub set_entry : Text → Option PurgeEntry → Model → Model
set_entry id e m = record m { queue = λ k. if text_eq id k then e else m.queue k }

-- An object that is there is taken away.
abbrev pub take_away : Text → Text → Option ObjectMeta → Model → Model
take_away bucket key none m = m
take_away bucket key (some meta) m = set_object bucket key none m

-- An object that is there leaves the objects and joins the queue.
abbrev pub move : Text → ℕ → Text → Text → Option ObjectMeta → Model → Model
move id now bucket key none m = m
move id now bucket key (some meta) m =
    set_entry id (some (from_object_meta id now meta)) (set_object bucket key none m)

abbrev pub spec_step : Op → Model → Answer × Model
spec_step (put_op meta) m = (done, set_object meta.bucket meta.key (some meta) m)
spec_step (get_op bucket key) m = (object (m.objects bucket key), m)
spec_step (head_op bucket key) m = (flag (is_some (m.objects bucket key)), m)
spec_step (delete_op bucket key) m =
    (object (m.objects bucket key), take_away bucket key (m.objects bucket key) m)
spec_step (purge_op id now bucket key) m =
    (flag (is_some (m.objects bucket key)), move id now bucket key (m.objects bucket key) m)
spec_step (enqueue_op e) m = (done, set_entry e.id (some e) m)
spec_step (update_op e) m = (done, set_entry e.id (some e) m)
spec_step (remove_op id) m = (done, set_entry id none m)

abbrev pub spec_run : List Op → Model → List Answer × Model
spec_run [] m = ([], m)
spec_run (op ∷ ops) m =
    let first = spec_step op m in let rest = spec_run ops first.1 in (first.0 ∷ rest.0, rest.1)

-- No name of a bucket holds a NUL.
abbrev pub IsPlain : Op → Type 0
IsPlain (put_op meta) = NoNul meta.bucket
IsPlain (get_op bucket key) = NoNul bucket
IsPlain (head_op bucket key) = NoNul bucket
IsPlain (delete_op bucket key) = NoNul bucket
IsPlain (purge_op id now bucket key) = NoNul bucket
IsPlain (enqueue_op e) = Unit
IsPlain (update_op e) = Unit
IsPlain (remove_op id) = Unit

abbrev pub answering :
    {A B : Type 0} → (A → Answer) → Result Fault (A × B) → Result Fault (Answer × B)
answering f x = x >>= λ y. ok (f y.0, y.1)

module _ (r : Rocks) (codecs : Codecs) where
  open r use {Db, contents}

  abbrev done_with : Result Fault Db → Result Fault (Answer × Db)
  done_with x = x >>= λ d. ok (done, d)

  abbrev read_with : {A : Type 0} → (A → Answer) → Db → Result Fault A → Result Fault (Answer × Db)
  read_with f d x = x >>= λ a. ok (f a, d)

  unfoldable pub step : Op → Db → Result Fault (Answer × Db)
  step (put_op meta) d = done_with (put_object r codecs meta d)
  step (get_op bucket key) d = read_with object d (get_object r codecs bucket key d)
  step (head_op bucket key) d = read_with flag d (head_object r codecs bucket key d)
  step (delete_op bucket key) d = answering object (delete_object r codecs bucket key d)
  step (purge_op id now bucket key) d =
      answering flag (delete_object_and_enqueue_purge r codecs id now bucket key d)
  step (enqueue_op e) d = done_with (enqueue_purge r codecs e d)
  step (update_op e) d = done_with (update_purge_entry r codecs e d)
  step (remove_op id) d = done_with (remove_purge_entry r codecs id d)

  -- The operations one after the other; an error ends the run.
  unfoldable pub run : List Op → Db → Result Fault (List Answer × Db)
  unfolding step
  run [] d = ok ([], d)
  run (op ∷ ops) d = do first ← step op d; rest ← run ops first.1; ok (first.0 ∷ rest.0, rest.1)

  -- The database holds what the maps hold.
  pub record IsModel (d : Db) (m : Model) : Type 0 where
    pub at_object :
        (bucket key : Text)
        → NoNul bucket
        → decode_value codecs.object (contents d objects (object_key bucket key))
          ≡ ok (m.objects bucket key)
    pub at_entry :
        (id : Text) → decode_value codecs.purge_entry (contents d purge id) ≡ ok (m.queue id)
