-- ===== src/Metadata/Listing/Continued/Tests.antt =====
-- Two pages of a bucket with three objects.
use s3prism.Base.{
  ◌≡◌, refl, sym, ap, ◌∙◌, ◌+◌, true, false, List, [], ◌∷◌, ◌++◌, map, Text, bytes, none, some, ok,
  ok_injective, text_le, text_eq, starts_with, strip_prefix,
}
use s3prism.Metadata.Models.{ObjectMeta, ListEntry, list_entry, replicated}
use s3prism.Metadata.Rocks.{objects, put}
use s3prism.Metadata.Memory.{object_wire}
use s3prism.Metadata.Shelf.{shelf, Shelves, steps}
use s3prism.Metadata.Formats.{formats}
use s3prism.Metadata.Listing.{
  ListObjectsResult, list_objects, list_from, is_skipped, common_prefix_of,
}
use s3prism.Metadata.Listing.Pages.{AreKeyed}
use s3prism.Metadata.Listing.Continued.{page, rows_of, list_objects-continued}

abbrev meta : Text → ObjectMeta
meta key = record {
  key = key;
  bucket = bytes "p";
  size = 3;
  etag = [];
  content_type = [];
  created = 0;
  modified = 0;
  user_metadata = [];
  storage_mode = replicated;
  chunks = [];
}

abbrev item : Text → Text × Text
item key = (bytes "p" ++ 0 ∷ key, object_wire.enc (meta key))

abbrev items : List (Text × Text)
items = item (bytes "a") ∷ item (bytes "b") ∷ item (bytes "c") ∷ []

abbrev database : Shelves
database = steps (map (λ kv. put objects kv.0 kv.1) items) (λ cf. [])

abbrev entry : Text → ListEntry
entry key = record {
  key = key;
  size = 3;
  etag = [];
  last_modified = 0;
  storage_class = bytes "STANDARD";
}

abbrev first_page : ListObjectsResult
first_page = record {
  entries = entry (bytes "a") ∷ entry (bytes "b") ∷ [];
  common_prefixes = [];
  truncated = true;
}

abbrev second_page : ListObjectsResult
second_page = record { entries = entry (bytes "c") ∷ []; common_prefixes = []; truncated = false }

walked : shelf.iterator_cf objects (bytes "p" ++ 0 ∷ []) database ≡ map ok items
unfolding text_le text_eq
walked = refl

stored_key :
    (key : Text) (m : ObjectMeta) → formats.object.from_slice (item key).1 ≡ ok m → m.key ≡ key
stored_key key m e =
    ap (λ (x : ObjectMeta). x.key)
      (ok_injective (sym e ∙ formats.object.from_slice-to_vec (meta key) refl))

keyed : AreKeyed formats.object (rows_of (bytes "p") [] items)
unfolding rows_of strip_prefix starts_with
keyed = (stored_key (bytes "a"), (stored_key (bytes "b"), (stored_key (bytes "c"), tt)))

first_is : list_objects formats.object (page (bytes "p") [] none 2) shelf database ≡ ok first_page
unfolding list_objects text_le text_eq strip_prefix starts_with list_entry list_from is_skipped
    common_prefix_of
first_is = refl

second_is :
    list_objects formats.object (page (bytes "p") [] (some (bytes "b")) 1_000) shelf database
    ≡ ok second_page
unfolding list_objects text_le text_eq strip_prefix starts_with list_entry list_from is_skipped
    common_prefix_of
second_is = refl

list_objects-continued_example :
    list_objects formats.object (page (bytes "p") [] none (2 + 1_000)) shelf database
    ≡ ok (record {
      entries = first_page.entries ++ second_page.entries;
      common_prefixes = [];
      truncated = false;
    })
list_objects-continued_example =
    list_objects-continued formats.object shelf (bytes "p") [] none 2 1_000 database items
      (entry (bytes "b")) first_page second_page walked keyed first_is refl refl second_is
