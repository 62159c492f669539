-- ===== src/Purge/Drained/Tests.antt =====
-- A round over two entries: the site of the first confirms, one of the second has no client.
use s3prism.Base.{
  ◌≡◌, refl, false, List, [], ◌∷◌, map, Text, bytes, none, ok, All, text_eq, text_le,
}
use s3prism.Metadata.Models.{PurgeEntry, PurgeChunk}
use s3prism.Metadata.Rocks.{purge, put}
use s3prism.Metadata.Memory.{purge_wire}
use s3prism.Metadata.Shelf.{shelf, Shelves, steps}
use s3prism.Metadata.Formats.{formats}
use s3prism.Metadata.Queue.{list_purge_entries, collect_limit}
use s3prism.Purge.{Deleter, process_batch}
use s3prism.Purge.Coverage.{ConfirmsAll}
use s3prism.Purge.Drained.{process_batch-clears}

abbrev chunk_at : Text → PurgeChunk
chunk_at name = record { site = name; bucket = bytes "x"; s3_key = bytes "k"; deleted = false }

abbrev entry : Text → List PurgeChunk → PurgeEntry
entry id chunks = record {
  id = id;
  bucket = bytes "b";
  key = bytes "o";
  chunks = chunks;
  queued_at = 5;
  attempts = 0;
  last_attempt = none;
}

abbrev entries : List PurgeEntry
entries =
    entry (0 ∷ []) (chunk_at (bytes "a") ∷ [])
    ∷ entry (1 ∷ []) (chunk_at (bytes "a") ∷ chunk_at (bytes "z") ∷ [])
    ∷ []

abbrev queue : Shelves
queue = steps (map (λ (e : PurgeEntry). put purge e.id (purge_wire.enc e)) entries) (λ cf. [])

abbrev all_gone : Deleter
all_gone site bucket keys = ok keys

listed : list_purge_entries shelf formats 1_000 queue ≡ ok entries
unfolding list_purge_entries collect_limit text_eq text_le
listed = refl

process_batch-clears_example :
    (d' : Shelves) × (process_batch shelf formats (bytes "a" ∷ []) all_gone 9 queue ≡ ok (2, d'))
    × All
        (λ (e : PurgeEntry).
          ConfirmsAll (bytes "a" ∷ []) all_gone e → shelf.contents d' purge e.id ≡ none)
        entries
process_batch-clears_example =
    process_batch-clears shelf formats (bytes "a" ∷ []) all_gone 9 queue entries
      (λ ws d. (steps ws d, refl), λ e. (purge_wire.enc e, refl)) listed ((λ e. cc, tt), (tt, tt))
