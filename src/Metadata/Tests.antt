-- ===== src/Metadata/Tests.antt =====
-- Runs of src/metadata/rocksdb_backend.rs on a store in memory.
use s3prism.Base.{
  ◌≡◌, refl, true, ◌&&◌, [], ◌∷◌, bytes, text_eq, Option, none, some, ok, if◌then◌else◌, arith,
}
use s3prism.Metadata.Models.{
  ObjectMeta, ChunkInfo, replica_chunk, confirmed, replicated, from_object_meta,
}
use s3prism.Metadata.Rocks.{objects, purge, Contents, apply_writes, put, delete}
use s3prism.Metadata.Memory.{memory, codecs, object_wire, purge_wire}
use s3prism.Metadata.Keys.{object_key, NoNul, object_key_injective}
use s3prism.Metadata.Objects.{
  decode_value, enqueue_found, purge_writes, put_object, get_object,
  delete_object_and_enqueue_purge, is_some,
}
use s3prism.Metadata.Laws.{IsMoved, get_object-put_object, delete_object_and_enqueue_purge-IsMoved}

abbrev chunk : ChunkInfo
chunk = record {
  index = 0;
  chunk_type = replica_chunk;
  site = bytes "a";
  bucket = bytes "x";
  s3_key = bytes "k";
  size = 2;
  checksum = [];
  status = confirmed;
}

abbrev object : ObjectMeta
object = record {
  key = bytes "o";
  bucket = bytes "b";
  size = 2;
  etag = bytes "e";
  content_type = bytes "t";
  created = 3;
  modified = 4;
  user_metadata = (bytes "u", bytes "v") ∷ [];
  storage_mode = replicated;
  chunks = chunk ∷ [];
}

abbrev empty : Contents
empty cf k = none

abbrev stored : Contents
stored =
    apply_writes (put objects (object_key (bytes "b") (bytes "o")) (object_wire.enc object) ∷ [])
      empty

b-NoNul : NoNul (bytes "b")
b-NoNul = ((λ e. absurd (omega (arith, e))), tt)

put_it : put_object memory codecs object empty ≡ ok stored
unfolding put_object
put_it = refl

get_before : get_object memory codecs (bytes "b") (bytes "o") empty ≡ ok none
unfolding get_object decode_value
get_before = refl

get_after : get_object memory codecs (bytes "b") (bytes "o") stored ≡ ok (some object)
unfolding get_object decode_value object_key apply_writes text_eq
get_after = refl

get_object-put_object_example : some object ≡ (
    if text_eq (bytes "b") (bytes "b") && text_eq (bytes "o") (bytes "o")
    then some object
    else none)
get_object-put_object_example =
    get_object-put_object memory codecs object (bytes "b") (bytes "o") empty stored none
      (some object) b-NoNul b-NoNul put_it get_before get_after

abbrev moved : Contents
moved =
    apply_writes
      (delete objects (object_key (bytes "b") (bytes "o"))
        ∷ put purge (bytes "1") (purge_wire.enc (from_object_meta (bytes "1") 9 object))
        ∷ [])
      stored

delete_it :
    delete_object_and_enqueue_purge memory codecs (bytes "1") 9 (bytes "b") (bytes "o") stored
    ≡ ok (true, moved)
unfolding delete_object_and_enqueue_purge decode_value object_key apply_writes text_eq enqueue_found
    purge_writes
delete_it = refl

delete_object_and_enqueue_purge-IsMoved_example :
    (o : Option ObjectMeta) × (get_object memory codecs (bytes "b") (bytes "o") stored ≡ ok o)
    × ((is_some o ≡ true)
        × IsMoved memory codecs (bytes "1") 9 (object_key (bytes "b") (bytes "o")) o stored moved)
delete_object_and_enqueue_purge-IsMoved_example =
    delete_object_and_enqueue_purge-IsMoved memory codecs (bytes "1") 9 (bytes "b") (bytes "o")
      stored moved true delete_it

object_key_injective_example : (bytes "b" ≡ bytes "b") × (bytes "o" ≡ bytes "o")
object_key_injective_example =
    object_key_injective (bytes "b") (bytes "b") (bytes "o") (bytes "o") b-NoNul b-NoNul refl
